-- ===== src/Modules/Shell/Variables.antt =====
-- getenv, setenv and unsetenv on the environment of the process: a list of texts NAME=value.
use nhan_linux_process.Prelude.{
  Bool, true, false, Option, none, some, List, [], ◌∷◌, ◌++◌, if◌then◌else◌, ◌==◌, length, drop,
  Bytes, ◌≡◌, ◌≢◌, inl, inr, refl, ap, arith, Bool-cases,
}
use nhan_linux_process.Libc.Strings.{is_empty, has_prefix}

abbrev pub assigned : Bytes → Bytes
assigned name = name ++ (b'=' ∷ [])

abbrev pub is_entry_of : Bytes → Bytes → Bool
is_entry_of name entry = has_prefix entry (assigned name)

-- The value of the first entry of that name
unfoldable pub getenv : Bytes → List Bytes → Option Bytes
getenv name [] = none
getenv name (e ∷ es) =
    let rest = getenv name es in
    if is_entry_of name e then some (drop (length (assigned name)) e) else rest

unfoldable pub has_equals : Bytes → Bool
has_equals [] = false
has_equals (c ∷ cs) = let rest = has_equals cs in if c == b'=' then true else rest

-- A name that setenv and unsetenv take
unfoldable pub is_name : Bytes → Bool
unfolding has_equals
is_name name = if is_empty name then false else if has_equals name then false else true

-- The first entry of that name is replaced; without one the entry comes to the end.
unfoldable pub assign : Bytes → Bytes → List Bytes → List Bytes
assign name value [] = (assigned name ++ value) ∷ []
assign name value (e ∷ es) =
    let rest = assign name value es in
    if is_entry_of name e then (assigned name ++ value) ∷ es else e ∷ rest

unfoldable pub remove_all : Bytes → List Bytes → List Bytes
remove_all name [] = []
remove_all name (e ∷ es) =
    let rest = remove_all name es in if is_entry_of name e then rest else e ∷ rest

-- setenv(name, value, 1), `none` where it fails
unfoldable pub setenv : Bytes → Bytes → List Bytes → Option (List Bytes)
unfolding is_name assign
setenv name value env = if is_name name then some (assign name value env) else none

unfoldable pub unsetenv : Bytes → List Bytes → Option (List Bytes)
unfolding is_name remove_all
unsetenv name env = if is_name name then some (remove_all name env) else none

has_prefix-append : (s t : Bytes) → has_prefix (s ++ t) s ≡ true
has_prefix-append [] t = refl
has_prefix-append (c ∷ s) t = ground (arith, has_prefix-append s t)

drop-length : (s t : Bytes) → drop (length s) (s ++ t) ≡ t
drop-length [] t = refl
drop-length (c ∷ s) t = drop-length s t

-- An entry has one name.
same_name :
    (e j k : Bytes)
    → has_equals j ≡ false
    → has_equals k ≡ false
    → is_entry_of j e ≡ true
    → is_entry_of k e ≡ true
    → j ≡ k
unfolding has_equals
same_name [] [] k hj hk pj pk = ground arith
same_name [] (c ∷ j) k hj hk pj pk = ground arith
same_name (x ∷ e) [] [] hj hk pj pk = refl
same_name (x ∷ e) [] (d ∷ k) hj hk pj pk = ground arith
same_name (x ∷ e) (c ∷ j) [] hj hk pj pk = ground arith
same_name (x ∷ e) (c ∷ j) (d ∷ k) hj hk pj pk = ground (arith, same_name e j k)

pub getenv-assign_self :
    (name value : Bytes) (env : List Bytes) → getenv name (assign name value env) ≡ some value
unfolding getenv assign
getenv-assign_self name value [] =
    rw (has_prefix-append (assigned name) value) (ap some (drop-length (assigned name) value))
getenv-assign_self name value (e ∷ es) = elim (Bool-cases (is_entry_of name e)) [
  | inl same ↦
      rw same
        (rw (has_prefix-append (assigned name) value) (ap some (drop-length (assigned name) value)))
  | inr other ↦ rw other (rw other (getenv-assign_self name value es))
]

-- An entry of another name is none of this one.
other_entry :
    (e j k : Bytes)
    → has_equals j ≡ false
    → has_equals k ≡ false
    → j ≢ k
    → is_entry_of j e ≡ true
    → is_entry_of k e ≡ false
other_entry e j k hj hk d p = elim (Bool-cases (is_entry_of k e)) [
  | inl q ↦ absurd (d (same_name e j k hj hk p q))
  | inr q ↦ q
]

pub getenv-assign_other :
    (j name value : Bytes) (env : List Bytes)
    → has_equals j ≡ false
    → has_equals name ≡ false
    → name ≢ j
    → getenv j (assign name value env) ≡ getenv j env
unfolding getenv assign
getenv-assign_other j name value [] hj hn d =
    rw (
      other_entry (assigned name ++ value) name j hn hj d (has_prefix-append (assigned name) value))
getenv-assign_other j name value (e ∷ es) hj hn d = elim (Bool-cases (is_entry_of name e)) [
  | inl same ↦ rw same (
      rw (
        other_entry (assigned name ++ value) name j hn hj d
            (has_prefix-append (assigned name) value),
        other_entry e name j hn hj d same,
      ))
  | inr other ↦ rw other (
      ap (λ o. if is_entry_of j e then some (drop (length (assigned j)) e) else o)
        (getenv-assign_other j name value es hj hn d))
]

pub getenv-remove_all_self :
    (name : Bytes) (env : List Bytes) → getenv name (remove_all name env) ≡ none
unfolding getenv remove_all
getenv-remove_all_self name [] = refl
getenv-remove_all_self name (e ∷ es) = elim (Bool-cases (is_entry_of name e)) [
  | inl same ↦ rw same (getenv-remove_all_self name es)
  | inr other ↦ rw other (rw other (getenv-remove_all_self name es))
]

pub getenv-remove_all_other :
    (j name : Bytes) (env : List Bytes)
    → has_equals j ≡ false
    → has_equals name ≡ false
    → name ≢ j
    → getenv j (remove_all name env) ≡ getenv j env
unfolding getenv remove_all
getenv-remove_all_other j name [] hj hn d = refl
getenv-remove_all_other j name (e ∷ es) hj hn d = elim (Bool-cases (is_entry_of name e)) [
  | inl same ↦
      rw (same, other_entry e name j hn hj d same) (getenv-remove_all_other j name es hj hn d)
  | inr other ↦ rw other (
      ap (λ o. if is_entry_of j e then some (drop (length (assigned j)) e) else o)
        (getenv-remove_all_other j name es hj hn d))
]
