-- ===== src/Modules/Shell/Scheduled.antt =====
-- modules/shell/shell_mgr.c: what the creation of a scheduled task runs and says.
use nhan_linux_process.Prelude.{
  ◌+◌, Bool, Option, none, some, [], ◌∷◌, if◌then◌else◌, codes, Bytes, ◌≡◌, ◌≢◌, refl, arith,
}
use nhan_linux_process.Libc.Strings.{copy_to}
use nhan_linux_process.System.World.{World, Event, printed, text}
use nhan_linux_process.System.Script.{programs, after_start, is_ok}
use nhan_linux_process.Modules.Shell.{shell_mgr_execute}
use nhan_linux_process.Modules.Shell.Laws.{execute-Executes}
use nhan_linux_process.Modules.Shell.Cron.{chmod_command, cron_command, schedule, cron_create}

abbrev pub last_event : World → Option Event
last_event w = elim w.trace [ [] ↦ none | e ∷ _ ↦ some e ]

abbrev pub verdict : Bytes → Bytes → Bool → Event
verdict path expr is_scheduled =
    if is_scheduled
    then printed "Successfully scheduled task '%s' with expression '%s'\n"
        (text path ∷ text expr ∷ [])
    else printed "Failed to schedule task.\n" []

schedule_lem :
    (path expr : Bytes) (w : World)
    → let r = schedule path expr w in
      (programs r.1.trace
        ≡ after_start
            (w.children (w.forks + 1))
            "/bin/sh"
            (codes "sh" ∷ codes "-c" ∷ cron_command expr path ∷ [])
            (after_start
              (w.children w.forks)
              "/bin/sh"
              (codes "sh" ∷ codes "-c" ∷ chmod_command path ∷ [])
              (programs w.trace)))
      × (r.1.forks ≡ w.forks + 2)
      × (last_event r.1 ≡ some (verdict path expr (is_ok (w.children (w.forks + 1)))))
      × (r.1.typed ≡ w.typed)
      × (r.1.stdin ≡ w.stdin)
unfolding schedule
schedule_lem path expr w =
    let x = execute-Executes (chmod_command path) w refl in
    let v : World = (shell_mgr_execute (some (chmod_command path)) w).1 in
    let y = execute-Executes (cron_command expr path) v refl in
    ground (
      arith, x.result, x.one_fork, x.runs, x.input_kept, x.system_kept, y.result, y.one_fork,
      y.runs, y.input_kept,
    )

-- Creating a scheduled task from a path and an expression that are not empty, cut to 255 and 127
-- bytes, starts first the shell on chmod +x and then the shell on the line that adds the task to
-- the table, as far as the forks work, reads no input, and ends with the message of success exactly
-- when the second ends with status 0.
pub cron_create_lem :
    (path expr : Bytes) (w : World)
    → path ≢ []
    → expr ≢ []
    → let p = copy_to 256 path in
      let e = copy_to 128 expr in
      let r = cron_create (some path) (some expr) w in
      (programs r.1.trace
        ≡ after_start
            (w.children (w.forks + 1))
            "/bin/sh"
            (codes "sh" ∷ codes "-c" ∷ cron_command e p ∷ [])
            (after_start
              (w.children w.forks)
              "/bin/sh"
              (codes "sh" ∷ codes "-c" ∷ chmod_command p ∷ [])
              (programs w.trace)))
      × (r.1.forks ≡ w.forks + 2)
      × (last_event r.1 ≡ some (verdict p e (is_ok (w.children (w.forks + 1)))))
      × (r.1.typed ≡ w.typed)
      × (r.1.stdin ≡ w.stdin)
unfolding cron_create
cron_create_lem [] expr w h k = absurd (h refl)
cron_create_lem (c ∷ path) [] w h k = absurd (k refl)
cron_create_lem (c ∷ path) (d ∷ expr) w h k =
    schedule_lem (copy_to 256 (c ∷ path)) (copy_to 128 (d ∷ expr)) w
