-- ===== src/Tests/Shell.antt =====
-- Runs of the shell module.
use nhan_linux_process.Prelude.{true, false, some, [], ◌∷◌, codes, ◌≡◌, ◌≢◌, refl, arith}
use nhan_linux_process.System.World.{World}
use nhan_linux_process.System.Script.{programs}
use nhan_linux_process.Modules.Shell.Cron.{cron_create}
use nhan_linux_process.Modules.Shell.Scheduled.{last_event, verdict, cron_create_lem}
use nhan_linux_process.Modules.Shell.Variables.{getenv, is_name, has_equals}
use nhan_linux_process.Modules.Shell.Environment.{Env, env_set}
use nhan_linux_process.Modules.Shell.Environment.Assigned.{env_set_lem}
use nhan_linux_process.Tests.{world}

abbrev w : World
w = world [] []

path-ne-nil : codes "a.sh" ≢ []
path-ne-nil = λ e. cc e

expr-ne-nil : codes "* * * * *" ≢ []
expr-ne-nil = λ e. cc e

cron_create_lem_example :
    (programs (cron_create (some (codes "a.sh")) (some (codes "* * * * *")) w).1.trace
      ≡ (
        "/bin/sh",
        codes "sh"
            ∷ codes "-c"
            ∷ codes "crontab -l 2>/dev/null | { cat; echo \"* * * * * a.sh\"; } | crontab -"
            ∷ [],
      )
        ∷ ("/bin/sh", codes "sh" ∷ codes "-c" ∷ codes "chmod +x a.sh" ∷ [])
        ∷ [])
    × ((cron_create (some (codes "a.sh")) (some (codes "* * * * *")) w).1.forks ≡ 2)
    × (last_event (cron_create (some (codes "a.sh")) (some (codes "* * * * *")) w).1
        ≡ some (verdict (codes "a.sh") (codes "* * * * *") true))
    × ((cron_create (some (codes "a.sh")) (some (codes "* * * * *")) w).1.typed ≡ [])
    × ((cron_create (some (codes "a.sh")) (some (codes "* * * * *")) w).1.stdin ≡ [])
cron_create_lem_example =
    cron_create_lem (codes "a.sh") (codes "* * * * *") w path-ne-nil expr-ne-nil

abbrev env : Env
env = record {
  world = record w { stdin = codes "EDITOR\nvi\nrest"; is_interactive = false };
  environ = codes "HOME=/root" ∷ codes "EDITOR=ed" ∷ [];
  name_buf = [];
  val_buf = [];
}

name_good : is_name (codes "EDITOR") ≡ true
unfolding is_name
name_good = refl

home_good : has_equals (codes "HOME") ≡ false
unfolding has_equals
home_good = refl

names-ne : codes "EDITOR" ≢ codes "HOME"
names-ne = λ e. cc e

env_set_lem_example :
    (getenv (codes "EDITOR") (env_set env).environ ≡ some (codes "vi"))
    × (getenv (codes "HOME") (env_set env).environ ≡ getenv (codes "HOME") env.environ)
    × ((env_set env).world.stdin ≡ codes "rest")
env_set_lem_example =
    env_set_lem (codes "EDITOR") (codes "vi") (codes "rest") (codes "HOME") env refl refl
      (ground arith) (ground arith) (omega arith) (omega arith) name_good home_good names-ne
