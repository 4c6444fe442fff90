-- ===== src/Modules/Network/Host.antt =====
-- modules/network/network_mgr.c: `network_show_host_info`, the names of the host.
use nhan_linux_process.Prelude.{
  Option, none, some, [], ◌∷◌, if◌then◌else◌, ◌==◌, codes, Bytes, ℤ, pos, minus_one,
}
use nhan_linux_process.Libc.Strings.{is_empty, copy_to}
use nhan_linux_process.System.World.{
  M, pure, skip, ◌>>◌, text, errno_text, log_info, log_error, print,
}

-- The text before the first dot, and the text behind it if there is a dot.
unfoldable pub before_dot : Bytes → Bytes
before_dot [] = []
before_dot (c ∷ cs) = let rest = before_dot cs in if c == b'.' then [] else c ∷ rest

unfoldable pub after_dot : Bytes → Option Bytes
after_dot [] = none
after_dot (c ∷ cs) = let rest = after_dot cs in if c == b'.' then some cs else rest

unfoldable pub short_name : Bytes → Bytes
unfolding before_dot
short_name hostname = before_dot (copy_to 256 hostname)

-- The domain is what stands behind the first dot, unless nothing does.
unfoldable pub domain_of : Bytes → Bytes
unfolding after_dot
domain_of fqdn = elim (after_dot fqdn) [
  | none ↦ codes "N/A"
  | some domain ↦ if is_empty domain then codes "N/A" else copy_to 256 domain
]

-- What getaddrinfo finds: nothing, or a canonical name that may be missing.
unfoldable pub fqdn_of : Bytes → Option (Option Bytes) → Bytes
fqdn_of hostname none = copy_to 256 hostname
fqdn_of hostname (some none) = copy_to 256 hostname
fqdn_of hostname (some (some canonical)) = copy_to 256 canonical

-- The answers of gethostname, getaddrinfo and uname.
pub record HostNames : Type 0 where
  pub hostname : Option Bytes
  pub canonical : Option (Option Bytes)
  pub nodename : Option Bytes

unfoldable pub network_show_host_info : HostNames → M ℤ
unfolding short_name domain_of fqdn_of
network_show_host_info h = do
  log_info "NETWORK" "Hostname queried" []
  elim h.hostname [
    | none ↦ do
      log_error "NETWORK" "API failure: gethostname() failed (errno %d)" (errno_text ∷ [])
      print "Error: Failed to query hostname.\n" []
      pure minus_one
    | some hostname ↦ do
      elim h.canonical [
        | none ↦
            log_error "NETWORK" "getaddrinfo failed to resolve FQDN for %s (errno %d)"
              (text hostname ∷ errno_text ∷ [])
        | some found ↦ elim found [
          | none ↦ skip
          | some name ↦ log_info "NETWORK" "FQDN resolved" []
        ]
      ]
      elim h.nodename [
        | none ↦ log_error "NETWORK" "API failure: uname() failed (errno %d)" (errno_text ∷ [])
        | some name ↦ skip
      ]
      print "\n=== Host Network Identity ===\n" []
      print "Hostname:           %s\n" (text hostname ∷ [])
      print "Short Hostname:     %s\n" (text (short_name hostname) ∷ [])
      print "FQDN:               %s\n" (text (fqdn_of hostname h.canonical) ∷ [])
      print "Domain Name:        %s\n" (text (domain_of (fqdn_of hostname h.canonical)) ∷ [])
      print "Kernel Node Name:   %s\n"
          (text (elim h.nodename [ none ↦ codes "N/A" | some name ↦ copy_to 256 name ]) ∷ [])
      print "=============================\n" []
      pure (pos 0)
  ]
