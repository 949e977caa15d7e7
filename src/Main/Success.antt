-- ===== src/Main/Success.antt =====
-- What an exit status of 0 says.
use rclonewatch.Prelude.{◌≡◌, Text, ℕ, true, false, Option, none, [], is_some}
use rclonewatch.Effect.{Env, Settings, Machine, ok}
use rclonewatch.Session.Generation.{initialize_generation}
use rclonewatch.Session.Close.{finish_session}
use rclonewatch.Watch.Batch.{Batch}
use rclonewatch.Watch.Startup.{no_failure, initialize_watching}
use rclonewatch.Main.SetUp.{initial_loop}
use rclonewatch.Main.Run.{Course, error_of}
use rclonewatch.Watch.Delivery.{queued}
use rclonewatch.Main.Delivered.{owed}

module _ (E : Env) (c : Settings) where
  -- The session has just been finished.
  abbrev IsCompleted : Option ℕ × Machine E → Type 0
  IsCompleted o = (f : Machine E) × (finish_session E c f ≡ (ok tt, o.1))

  -- No change is owed to the remote that the startup has queued, or that the loop has received.
  abbrev pub HasDelivered : ℕ → Course → Batch → Machine E → Type 0
  HasDelivered interval k pending h =
      (p : Text)
      → owed E c true interval p k.inputs (queued p pending)
          (initial_loop interval true k.command pending) (none, h)
        ≡ false

  -- What has been done before the exit status 0.
  pub record HasWatched (interval : ℕ) (k : Course) (h g : Machine E) : Type 0 where
    pub watching : is_some k.watcher_error ≡ false
    pub reconciled : (initialize_generation E c h).0 ≡ ok tt
    pub undisturbed : no_failure k.startup ≡ true
    pub refreshed : is_some k.lock_failure ≡ false
    pub delivered :
        let r = initialize_generation E c h in
        HasDelivered interval k (initialize_watching c k.startup (error_of r.0) []).1 r.1
    pub completed : (f : Machine E) × (finish_session E c f ≡ (ok tt, g))
