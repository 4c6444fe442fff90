-- ===== src/Modules/Network/Interfaces/Names.antt =====
-- modules/network/network_mgr.c: which names the list of the interfaces shows.
use nhan_linux_process.Prelude.{
  ◌+◌, ◌≤◌, ◌<◌, Bool, true, not, ◌&&◌, ◌||◌, none, some, List, [], ◌∷◌, ◌++◌, if◌then◌else◌,
  length, str_eq, str_eq_iff, str_eq_refl, Bytes, All, ◌≡◌, refl, ap, arith, Bool-cases,
  Option-cases, inl, inr, length-append, take-ge, lt→ltb,
}
use nhan_linux_process.Modules.Network.Interfaces.{IfAddr, is_processed, register, new_names}

-- The names of the entries that have one, in order.
unfoldable pub names_of : List IfAddr → List Bytes
names_of [] = []
names_of (i ∷ is) = elim i.ifa_name [ none ↦ names_of is | some n ↦ n ∷ names_of is ]

-- No name stands in the list twice.
unfoldable pub are_distinct : List Bytes → Bool
unfolding is_processed
are_distinct [] = true
are_distinct (n ∷ ns) = not (is_processed ns n) && are_distinct ns

abbrev pub AreShort : List Bytes → Type 0
AreShort = All (λ n. length n < 16)

is_processed-snoc :
    (p : List Bytes) (n x : Bytes) → is_processed (p ++ (n ∷ [])) x ≡ is_processed p x || str_eq n x
unfolding is_processed
is_processed-snoc [] n x = ground arith
is_processed-snoc (q ∷ p) n x = ground (arith, is_processed-snoc p n x)

-- With room left, a short name is registered as it is.
register_lem :
    (p : List Bytes) (n : Bytes) → length p < 64 → length n < 16 → register p n ≡ p ++ (n ∷ [])
register_lem p n h k =
    rw (lt→ltb (length p) 64 h) (ap (λ m. p ++ (m ∷ [])) (take-ge 15 n (omega arith)))

-- The loop on the names alone.
fresh : List Bytes → List Bytes → List Bytes
fresh p [] = []
fresh p (n ∷ ns) =
    let known = fresh p ns in
    let unknown = n ∷ fresh (register p n) ns in if is_processed p n then known else unknown

new_names-fresh : (is : List IfAddr) (p : List Bytes) → new_names p is ≡ fresh p (names_of is)
unfolding new_names names_of fresh
new_names-fresh [] p = refl
new_names-fresh (i ∷ is) p = elim (Option-cases i.ifa_name) [
  | inl unnamed ↦ rw (unnamed, new_names, names_of) (new_names-fresh is p)
  | inr (n, named) ↦ elim (Bool-cases (is_processed p n)) [
    | inl old ↦ rw (named, new_names, names_of) (rw (old, new_names) (new_names-fresh is p))
    | inr new ↦
        rw (named, new_names, names_of)
          (rw (new, new_names) (ap (◌∷◌ n) (new_names-fresh is (register p n))))
  ]
]

-- Whether a name is printed, where the names of `p` are registered already.
fresh_mem :
    (ns p : List Bytes) (x : Bytes)
    → AreShort ns
    → length p + length (fresh p ns) ≤ 64
    → is_processed (fresh p ns) x ≡ is_processed ns x && not (is_processed p x)
unfolding is_processed fresh
fresh_mem [] p x s h = refl
fresh_mem (n ∷ ns) p x s h = elim (Bool-cases (is_processed p n)) [
  | inl old ↦ ground (arith, fresh_mem ns p x s.1, str_eq_iff n x)
  | inr new ↦
      let room = register_lem p n (ground arith) s.0 in
      ground (
        arith,
        room,
        is_processed-snoc p n x,
        length-append p (n ∷ []),
        str_eq_iff n x,
        fresh_mem ns (register p n) x s.1,
      )
]

fresh_distinct :
    (ns p : List Bytes)
    → AreShort ns
    → length p + length (fresh p ns) ≤ 64
    → are_distinct (fresh p ns) ≡ true
unfolding are_distinct fresh
fresh_distinct [] p s h = refl
fresh_distinct (n ∷ ns) p s h = elim (Bool-cases (is_processed p n)) [
  | inl old ↦ ground (arith, fresh_distinct ns p s.1)
  | inr new ↦
      let room = register_lem p n (ground arith) s.0 in
      ground (
        arith,
        room,
        is_processed-snoc p n n,
        length-append p (n ∷ []),
        str_eq_refl n,
        fresh_mem ns (register p n) n s.1,
        fresh_distinct ns (register p n) s.1,
      )
]

-- If every name is shorter than 16 bytes and at most 64 names are printed, the list of the
-- interfaces shows no name twice, and it shows a name exactly when getifaddrs gives an entry of
-- that name.
pub new_names_lem :
    (ifs : List IfAddr) (x : Bytes)
    → AreShort (names_of ifs)
    → length (new_names [] ifs) ≤ 64
    → (are_distinct (new_names [] ifs) ≡ true)
      × (is_processed (new_names [] ifs) x ≡ is_processed (names_of ifs) x)
unfolding is_processed
new_names_lem ifs x s h = ground (
  arith,
  new_names-fresh ifs [],
  fresh_mem (names_of ifs) [] x s,
  fresh_distinct (names_of ifs) [] s,
)
