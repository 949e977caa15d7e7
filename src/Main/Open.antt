-- ===== src/Main/Open.antt =====
-- The watching part of a run keeps its session open: nothing before the deferred `Close` closes it, or
-- gives the lock up.
use rclonewatch.Prelude.{
  ℕ, Bool, true, false, Option, none, some, Text, List, [], ◌∷◌, is_some, map, if◌then◌else◌,
}
use rclonewatch.Effect.{Error, wrap, Env, Settings, Machine, Result, ok, err, on_error}
use rclonewatch.Effect.Keeps.{Keeps, then-Keeps, same-Keeps}
use rclonewatch.Payload.Scopes.{Stat}
use rclonewatch.Session.Generation.{
  before_remote_change, after_remote_change, initialize_generation,
}
use rclonewatch.Session.Close.{finish_session}
use rclonewatch.Session.Open.{
  IsOpen, before_remote_change-IsOpen, after_remote_change-IsOpen, initialize_generation-IsOpen,
  finish_session-IsOpen,
}
use rclonewatch.Sync.{transfer, sync_around, sync_reconciled, sync}
use rclonewatch.Sync.Outcome.{transfer-state}
use rclonewatch.Watch.Batch.{Change, Batch}
use rclonewatch.Watch.Startup.{initialize_watching}
use rclonewatch.Watch.State.{
  Loop, Action, start_sync, close_watcher, cancel_runner, signal_group, arm,
}
use rclonewatch.Watch.Loop.{Head, leave, final_sync, select, handle, head}
use rclonewatch.Main.SetUp.{initial_loop}
use rclonewatch.Main.Run.{
  Input, Course, finish, finished, finishes, perform, run_loop, watch, initialized, start_loop,
  error_of, loop_config, delivered_event, after_head, head_started,
}

module _ (E : Env) (c : Settings) where
  sync_around-IsOpen :
      (lstat : Text → Stat) (scopes : List Text)
      → Keeps {E = E} IsOpen (sync_around E c true lstat scopes)
  sync_around-IsOpen lstat scopes =
      then-Keeps IsOpen (on_error (wrap "advance generation") (before_remote_change E c)) _
        (before_remote_change-IsOpen E c)
        (then-Keeps IsOpen (transfer E c true lstat scopes) (after_remote_change E c)
          (same-Keeps IsOpen (transfer E c true lstat scopes)
            (transfer-state E c true lstat scopes))
          (after_remote_change-IsOpen E c))

  sync_reconciled-IsOpen :
      (lstat : Text → Stat) (r : Result (List Text))
      → Keeps {E = E} IsOpen (sync_reconciled E c true lstat r)
  sync_reconciled-IsOpen lstat (err e) h p = p
  sync_reconciled-IsOpen lstat (ok []) h p = p
  sync_reconciled-IsOpen lstat (ok (s ∷ ss)) h p = sync_around-IsOpen lstat (s ∷ ss) h p

  sync-IsOpen :
      (lstat lstat' : Text → Stat) (paths : List Text)
      → Keeps {E = E} IsOpen (sync E c true lstat lstat' paths)
  unfolding sync
  sync-IsOpen lstat lstat' [] h p = p
  sync-IsOpen lstat lstat' (q ∷ qs) h p = sync_reconciled-IsOpen lstat' _ h p

  perform-IsOpen :
      (i : Input) (acts : List Action) (o : Option Error × Machine E)
      → IsOpen o.1.state
      → IsOpen (perform E c true i acts o).1.state
  unfolding perform
  perform-IsOpen i [] o p = p
  perform-IsOpen i (start_sync batch ∷ acts) o p =
      let paths = map (λ (x : Change). x.path) batch in
      let r = sync E c true i.scoped i.visited paths o.1 in
      perform-IsOpen i acts (error_of r.0, r.1) (sync-IsOpen i.scoped i.visited paths o.1 p)
  perform-IsOpen i (close_watcher ∷ acts) o p = perform-IsOpen i acts o p
  perform-IsOpen i (cancel_runner ∷ acts) o p = perform-IsOpen i acts o p
  perform-IsOpen i (signal_group s ∷ acts) o p = perform-IsOpen i acts o p
  perform-IsOpen i (arm d ∷ acts) o p = perform-IsOpen i acts o p

  finished-IsOpen :
      (b : Bool) (r : Result (Unit {0}) × Machine E) (h : Machine E)
      → IsOpen r.1.state
      → IsOpen h.state
      → IsOpen (finished b r h).1.state
  finished-IsOpen true r h p q = p
  finished-IsOpen false r h p q = q

  finish-IsOpen : (s : Loop) (h : Machine E) → IsOpen h.state → IsOpen (finish E c true s h).1.state
  unfolding finish
  finish-IsOpen s h p =
      finished-IsOpen (finishes E c true s) (finish_session E c h) h (finish_session-IsOpen E c h p)
        p

  after_head-IsOpen :
      (a : Head) (g : Machine E) (rest : Option ℕ × Machine E)
      → IsOpen g.state
      → IsOpen rest.1.state
      → IsOpen (after_head a g rest).1.state
  after_head-IsOpen (leave x) g rest p q = p
  after_head-IsOpen final_sync g rest p q = q
  after_head-IsOpen select g rest p q = q

  run_loop-IsOpen :
      (interval : ℕ) (is : List Input) (s : Loop) (o : Option Error × Machine E)
      → IsOpen o.1.state
      → IsOpen (run_loop E c true interval is s o).1.state
  unfolding run_loop
  run_loop-IsOpen interval [] s (o, h) p =
      let f = finish E c true s h in
      after_head-IsOpen (head f.0 s) f.1 (none, h) (finish-IsOpen s h p) p
  run_loop-IsOpen interval (i ∷ is) s (o, h) p =
      let f = finish E c true s h in
      let t = head_started (head f.0 s) s in
      let r = perform E c true i t.1 (o, f.1) in
      let u = handle (loop_config E c true interval) (delivered_event r.0 i.event) t.0 in
      let k = finish-IsOpen s h p in
      after_head-IsOpen (head f.0 s) f.1
        (run_loop E c true interval is u.0 (perform E c true i u.1 r)) k
        (run_loop-IsOpen interval is u.0 (perform E c true i u.1 r)
          (perform-IsOpen i u.1 r (perform-IsOpen i t.1 (o, f.1) k)))

  branch-IsOpen :
      (b : Bool) (h : Machine E) (code : ℕ) (o : Option ℕ × Machine E)
      → IsOpen h.state
      → IsOpen o.1.state
      → IsOpen (if b then (some code, h) else o).1.state
  branch-IsOpen true h code o p q = p
  branch-IsOpen false h code o p q = q

  initialized-IsOpen :
      (interval : ℕ) (k : Course) (o : Option Error × Batch) (h : Machine E)
      → IsOpen h.state
      → IsOpen (initialized E c true interval k o h).1.state
  initialized-IsOpen interval k (some e, pending) h p = p
  initialized-IsOpen interval k (none, pending) h p =
      branch-IsOpen (is_some k.lock_failure) h 1 (start_loop E c true interval k pending h) p (
        run_loop-IsOpen interval k.inputs (initial_loop interval true k.command pending) (none, h)
          p)

  pub watch-IsOpen :
      (interval : ℕ) (k : Course) (h : Machine E)
      → IsOpen h.state
      → IsOpen (watch E c true interval k h).1.state
  unfolding watch
  watch-IsOpen interval k h p =
      let r = initialize_generation E c h in
      let w = initialize_watching c k.startup (error_of r.0) [] in
      branch-IsOpen (is_some k.watcher_error) h 1 (initialized E c true interval k w r.1) p
        (initialized-IsOpen interval k w r.1 (initialize_generation-IsOpen E c h p))
