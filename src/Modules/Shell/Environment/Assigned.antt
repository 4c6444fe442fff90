-- ===== src/Modules/Shell/Environment/Assigned.antt =====
-- modules/shell/shell_mgr.c: what setting and removing a variable leaves in the environment.
use Prim.Native.String.{String}
use nhan_linux_process.Prelude.{
  ℕ, suc, ◌<◌, true, false, none, some, [], ◌∷◌, ◌++◌, length, Bytes, ◌≡◌, ◌≢◌, refl, ap, ◌∙◌,
  arith,
}
use nhan_linux_process.Libc.Strings.{is_empty}
use nhan_linux_process.Libc.Stdio.{OneLine, fgets-OneLine, chomp-OneLine}
use nhan_linux_process.System.World.{World, print}
use nhan_linux_process.Modules.Shell.Variables.{
  getenv, setenv, unsetenv, is_name, has_equals, assign, remove_all, getenv-assign_self,
  getenv-assign_other, getenv-remove_all_self, getenv-remove_all_other,
}
use nhan_linux_process.Modules.Shell.Environment.{
  Env, ask_into, ask_env_name, ask_env_value, ask_assignment, assign_named, env_set, remove_named,
  env_remove,
}

abbrev newline : Bytes
newline = b'\n' ∷ []

-- A line that is asked for without a terminal.
ask_into-OneLine :
    (n : ℕ) (p q : String) (buf line rest : Bytes) (w : World)
    → w.is_interactive ≡ false
    → w.stdin ≡ line ++ (b'\n' ∷ rest)
    → OneLine line
    → length line < n
    → ask_into (suc n) p q buf w ≡ (line, record (print q [] w).1 { stdin = rest })
unfolding ask_into
ask_into-OneLine n p q buf line rest w i e o k =
    ground (arith, fgets-OneLine n line rest o k, chomp-OneLine line o)

is_name-ne-nil : (name : Bytes) → is_name name ≡ true → is_empty name ≡ false
unfolding is_name
is_name-ne-nil name h = ground arith

is_name-has_equals : (name : Bytes) → is_name name ≡ true → has_equals name ≡ false
unfolding is_name
is_name-has_equals name h = ground arith

assign_named-Sets :
    (s : Env)
    → is_name s.name_buf ≡ true
    → ((assign_named s).environ ≡ assign s.name_buf s.val_buf s.environ)
      × ((assign_named s).world.stdin ≡ s.world.stdin)
unfolding assign_named setenv
assign_named-Sets s h = ground (arith, is_name-ne-nil s.name_buf h)

remove_named-Removes :
    (s : Env)
    → is_name s.name_buf ≡ true
    → ((remove_named s).environ ≡ remove_all s.name_buf s.environ)
      × ((remove_named s).world.stdin ≡ s.world.stdin)
unfolding remove_named unsetenv
remove_named-Removes s h = ground (arith, is_name-ne-nil s.name_buf h)

ask_env_name_lem :
    (name rest : Bytes) (s : Env)
    → s.world.is_interactive ≡ false
    → s.world.stdin ≡ name ++ (b'\n' ∷ rest)
    → OneLine name
    → length name < 127
    → let t =
        ask_env_name "Enter variable name to remove: " "\nEnter variable name to remove: " s in
      (t.name_buf ≡ name) × (t.environ ≡ s.environ) × (t.world.stdin ≡ rest)
unfolding ask_env_name
ask_env_name_lem name rest s i e on kn = ground (
  arith,
  ask_into-OneLine 127 "Enter variable name to remove: " "\nEnter variable name to remove: "
      s.name_buf name rest s.world i e on kn,
)

-- The two lines that are read for an assignment.
ask_assignment_lem :
    (name value rest : Bytes) (s : Env)
    → s.world.is_interactive ≡ false
    → s.world.stdin ≡ name ++ (b'\n' ∷ (value ++ (b'\n' ∷ rest)))
    → OneLine name
    → OneLine value
    → length name < 127
    → length value < 255
    → is_name name ≡ true
    → let t = ask_assignment s in
      (t.name_buf ≡ name) × (t.val_buf ≡ value) × (t.environ ≡ s.environ) × (t.world.stdin ≡ rest)
unfolding ask_assignment ask_env_name ask_env_value
ask_assignment_lem name value rest s i e on ov kn kv h =
    let u : World = record (print "\nEnter variable name: " [] s.world).1 {
      stdin = value ++ (b'\n' ∷ rest);
    } in
    ground (
      arith,
      ask_into-OneLine 127 "Enter variable name: " "\nEnter variable name: " s.name_buf name
          (value ++ (b'\n' ∷ rest)) s.world i e on kn,
      ask_into-OneLine 255 "Enter variable value: " "Enter variable value: " s.val_buf value rest u
          i refl ov kv,
      is_name-ne-nil name h,
    )

-- Without a terminal, when the next two lines of the input are a name, shorter than 127 bytes, not
-- empty and with no equals sign, and a value shorter than 255 bytes, setting a variable gives the
-- name that value in the environment, leaves every other name with no equals sign as it was, and
-- leaves the input behind the two lines.
pub env_set_lem :
    (name value rest j : Bytes) (s : Env)
    → s.world.is_interactive ≡ false
    → s.world.stdin ≡ name ++ (b'\n' ∷ (value ++ (b'\n' ∷ rest)))
    → OneLine name
    → OneLine value
    → length name < 127
    → length value < 255
    → is_name name ≡ true
    → has_equals j ≡ false
    → name ≢ j
    → let t = env_set s in
      (getenv name t.environ ≡ some value)
      × (getenv j t.environ ≡ getenv j s.environ)
      × (t.world.stdin ≡ rest)
unfolding env_set
env_set_lem name value rest j s i e on ov kn kv h hj d =
    let t : Env = ask_assignment s in
    let asked = ask_assignment_lem name value rest s i e on ov kn kv h in
    let sets = assign_named-Sets t (ap is_name asked.0 ∙ h) in
    let same : (assign_named t).environ ≡ assign name value s.environ =
      cc (sets.0, asked.0, asked.1, asked.2) in
    (
      ap (getenv name) same ∙ getenv-assign_self name value s.environ,
      ap (getenv j) same
          ∙ getenv-assign_other j name value s.environ hj (is_name-has_equals name h) d,
      sets.1 ∙ asked.3,
    )

pub env_remove_lem :
    (name rest j : Bytes) (s : Env)
    → s.world.is_interactive ≡ false
    → s.world.stdin ≡ name ++ (b'\n' ∷ rest)
    → OneLine name
    → length name < 127
    → is_name name ≡ true
    → has_equals j ≡ false
    → name ≢ j
    → let t = env_remove s in
      (getenv name t.environ ≡ none)
      × (getenv j t.environ ≡ getenv j s.environ)
      × (t.world.stdin ≡ rest)
unfolding env_remove
env_remove_lem name rest j s i e on kn h hj d =
    let t : Env =
      ask_env_name "Enter variable name to remove: " "\nEnter variable name to remove: " s in
    let asked = ask_env_name_lem name rest s i e on kn in
    let removes = remove_named-Removes t (ap is_name asked.0 ∙ h) in
    let same : (remove_named t).environ ≡ remove_all name s.environ =
      cc (removes.0, asked.0, asked.1) in
    (
      ap (getenv name) same ∙ getenv-remove_all_self name s.environ,
      ap (getenv j) same
          ∙ getenv-remove_all_other j name s.environ hj (is_name-has_equals name h) d,
      removes.1 ∙ asked.2,
    )
