-- ===== src/Modules/Process/Laws.antt =====
-- modules/process/process_mgr.c: the line of /proc/PID/stat and what is read of it.
use nhan_linux_process.Prelude.{
  ℕ, suc, ◌+◌, ◌-◌, false, some, ◌∷◌, ◌++◌, ◌==◌, leb, length, take, drop, get_or, Bytes, ℤ, All,
  ◌≡◌, ◌≢◌, refl, ap, ◌∙◌, arith, append_assoc, length-append, take-append, take-ge,
  drop-append_add, get_or-append_add, append-nil,
}
use nhan_linux_process.Libc.Strings.{
  index_of, last_index_of, copy_to, index_of-append, last_index_of-append,
}
use nhan_linux_process.Modules.Process.{
  Proc, ProcInfo, scan_fields, parse_proc_status_memory, parse_stat, parse_proc_stat,
}

-- As the kernel writes the line: the pid and a space, the name in parentheses, the state, the fields.
abbrev pub stat_line : Bytes → Bytes → ℕ → Bytes → Bytes
stat_line front name state fields = (front ++ (b'(' ∷ name)) ++ (b')' ∷ b' ' ∷ state ∷ fields)

abbrev pub info_of : Proc → ℤ → Bytes → ℕ → Bytes → ProcInfo
info_of proc pid name state fields = record {
  pid = pid;
  ppid = (scan_fields fields).0;
  name = copy_to 256 name;
  state = state;
  priority = (scan_fields fields).1;
  memory_size = parse_proc_status_memory proc pid;
}

name_between :
    (front name tail : Bytes) (k : ℕ)
    → k ≡ length name
    → take k (drop (length front + 1) ((front ++ (b'(' ∷ name)) ++ tail)) ≡ name
name_between front name tail k e =
    let none_more : k - length name ≡ 0 = omega (arith, e) in
    ap (λ s. take k (drop (length front + 1) s)) (append_assoc front (b'(' ∷ name) tail)
    ∙ ap (take k) (drop-append_add front (b'(' ∷ (name ++ tail)) (length front + 1) 1 refl)
    ∙ take-append k name tail
    ∙ rw (none_more, take-ge k name (omega (arith, e))) (append-nil name)

parse_stat_lem :
    (proc : Proc) (pid : ℤ) (front name fields : Bytes) (state : ℕ)
    → state ≢ 0
    → parse_stat proc pid
        (stat_line front name state fields)
        (length (front ++ (b'(' ∷ name)))
        (length front)
      ≡ some (info_of proc pid name state fields)
unfolding parse_stat
parse_stat_lem proc pid front name fields state h =
    let u : Bytes = front ++ (b'(' ∷ name) in
    let tail : Bytes = b')' ∷ b' ' ∷ state ∷ fields in
    let len : length u ≡ length front + suc (length name) = length-append front (b'(' ∷ name) in
    let behind : leb (length u) (length front) ≡ false = ground (arith, len) in
    let space : get_or (u ++ tail) (length u + 1) 0 ≡ b' ' =
      get_or-append_add u tail (length u + 1) 1 0 refl in
    let at_state : get_or (u ++ tail) (length u + 2) 0 ≡ state =
      get_or-append_add u tail (length u + 2) 2 0 refl in
    let at_fields : drop (length u + 3) (u ++ tail) ≡ fields =
      drop-append_add u tail (length u + 3) 3 refl in
    let named : take (length u - (length front + 1)) (drop (length front + 1) (u ++ tail)) ≡ name =
      name_between front name tail (length u - (length front + 1)) (omega (arith, len)) in
    let nonzero : (state == 0) ≡ false = ground arith in
    rw (behind, space, at_state, at_fields, named, nonzero) refl

-- The stat file of a process, written as a front part with no `(`, the name in parentheses, a
-- space, a state that is not NUL, and fields that with the state hold no `)`, is read back: the
-- name, cut to 255 bytes, whatever parentheses and spaces it holds, the state, and the parent and
-- the priority that are scanned from the fields.
pub parse_proc_stat-stat_line :
    (proc : Proc) (pid : ℤ) (front name fields : Bytes) (state : ℕ)
    → proc.stat pid ≡ some (stat_line front name state fields)
    → All (λ c. c ≢ b'(') front
    → All (λ c. c ≢ b')') (state ∷ fields)
    → state ≢ 0
    → parse_proc_stat proc pid ≡ some (info_of proc pid name state fields)
unfolding parse_proc_stat
parse_proc_stat-stat_line proc pid front name fields state e no_open no_close h =
    let u : Bytes = front ++ (b'(' ∷ name) in
    let tail : Bytes = b' ' ∷ state ∷ fields in
    let last : last_index_of b')' (u ++ (b')' ∷ tail)) ≡ some (length u) =
      last_index_of-append b')' u tail ((λ s. cc), no_close) in
    let first : index_of b'(' (u ++ (b')' ∷ tail)) ≡ some (length front) =
      ap (index_of b'(') (append_assoc front (b'(' ∷ name) (b')' ∷ tail))
      ∙ index_of-append b'(' front (name ++ (b')' ∷ tail)) no_open in
    rw (parse_proc_stat, e, last, first) (parse_stat_lem proc pid front name fields state h)
