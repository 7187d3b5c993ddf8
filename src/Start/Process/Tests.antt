-- ===== src/Start/Process/Tests.antt =====
-- The start of the program, and a signal that comes early, at concrete settings.
use waterhose.Prelude.{Bool, true, false, ◌≡◌, refl, [], ◌∷◌, none, some, codes, bytes_eq}
use waterhose.Prelude.Int.{pos, negsuc}
use waterhose.Start.{Config}
use waterhose.Start.Process.{
  App, Process, checking, new_process, run_main, step, check, close_done, assigns, finishes, launch,
  exits, goes_on,
}

abbrev config : Config
config = record {
  mode = codes "edge";
  k8s_enabled = false;
  health_enabled = false;
  monitoring_enabled = false;
}

launch_runs :
    (launch config (some (negsuc 0)) ≡ exits 1)
    × (launch (record config { mode = codes "slave" }) (some (negsuc 0)) ≡ goes_on)
    × (launch (record config { mode = codes "slave" }) (some (pos 3)) ≡ exits 3)
    × (launch (record config { mode = codes "slave" }) none ≡ exits 2)
unfolding launch bytes_eq
launch_runs = (refl, refl, refl, refl)

-- A mode that ends by itself.
abbrev small_app : App
small_app = record {
  State = Bool;
  Event = Unit;
  start = false;
  event = λ b e s. true;
  is_done = λ s. s;
  crash = λ s. none;
}

abbrev early : Process small_app
early = record (new_process small_app) {
  cancelled = true;
  armed = true;
  watcher = checking;
  mode = some false;
}

-- The signal came before `appDone` was set: the program ends and the mode has not.
early_runs :
    let q = run_main small_app (check ∷ close_done ∷ assigns ∷ finishes ∷ []) early in
    (q.exit ≡ some 0) × (q.mode ≡ some false)
unfolding run_main step
early_runs = (refl, refl)
