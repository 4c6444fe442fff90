-- ===== src/Cli/Names.antt =====
-- Chains `strcmp(cmd, "a") == 0 || strcmp(cmd, "b") == 0 || …`, as the command line has them.
use Prim.Native.String.{String}
use nhan_linux_process.Prelude.{
  Bool, true, false, ◌||◌, List, [], ◌∷◌, str_eq, str_eq_iff, codes, Bytes, All, ◌≡◌, inl, inr,
  Bool-cases,
}

unfoldable pub one_of : Bytes → List String → Bool
one_of cmd [] = false
one_of cmd (name ∷ more) = str_eq cmd (codes name) || one_of cmd more

-- What holds of each name holds of a command that is one of them.
pub one_of_elim {ℓ} :
    (P : Bytes → Type ℓ) (cmd : Bytes) (names : List String)
    → All (λ n. P (codes n)) names
    → one_of cmd names ≡ true
    → P cmd
unfolding one_of
one_of_elim P cmd [] h e = cc
one_of_elim P cmd (n ∷ names) h e = elim (Bool-cases (str_eq cmd (codes n))) [
  | inl same ↦ rw ((str_eq_iff cmd (codes n)).0 same) h.0
  | inr other ↦ one_of_elim P cmd names h.1 (rw other at e)
]
