-- ===== src/Watch/Startup.antt =====
-- src/main.go: `initializeWatching`, which drains the watcher while the startup state is reconciled.
use rclonewatch.Prelude.{
  ℕ, Bool, true, false, not, ◌&&◌, Option, none, some, Text, List, [], ◌∷◌, ◌≡◌, refl, arith,
  if◌then◌else◌, text_eq, is_some, is_none,
}
use rclonewatch.Effect.{Error, wrap, interrupted, Settings}
use rclonewatch.Watch.Batch.{Change, Batch, lookup, queue_change, is_exact, lookup-add_pending}

-- What `select` can pick before the reconciliation is done. A closed channel is not picked again.
pub data StartupEvent : Type 0 where
  changed : Change → StartupEvent
  changes_closed : StartupEvent
  watch_failed : Error → StartupEvent
  watch_closed : StartupEvent
  signalled : ℕ → StartupEvent

-- The variables of the loop. `cancelled` says that the running commands have been cancelled.
pub record Startup : Type 0 where
  pub queued : Batch
  pub watch_err : Option Error
  pub stopped_by : Option Error
  pub cancelled : Bool

unfoldable pub on_startup_event : Settings → StartupEvent → Startup → Startup
unfolding queue_change
on_startup_event c (changed item) s = record s { queued = queue_change (some c) s.queued item }
on_startup_event c changes_closed s = s
on_startup_event c (watch_failed e) s =
    if is_some s.watch_err then s else record s { watch_err = some e; cancelled = true }
on_startup_event c watch_closed s = s
on_startup_event c (signalled n) s = if is_some s.stopped_by then s else record s {
  stopped_by = some (interrupted n "reconciling startup state");
  cancelled = true;
}

unfoldable pub drain : Settings → List StartupEvent → Startup → Startup
drain c [] s = s
drain c (e ∷ es) s = drain c es (on_startup_event c e s)

-- The end, with the error of `InitializeGeneration` if it has one.
abbrev pub startup_error : Option Error → Option Error → Option Error → Option Error
startup_error (some e) watch outcome = some e
startup_error none (some e) outcome = some (wrap "watch during initialization" e)
startup_error none none outcome = outcome

-- `initializeWatching`, for the events up to the end of the reconciliation: its error, and the changes
-- that are queued for the loop.
unfoldable pub initialize_watching :
    Settings → List StartupEvent → Option Error → Batch → Option Error × Batch
unfolding drain
initialize_watching c es outcome pending =
    let s =
      drain c es
        (record { queued = pending; watch_err = none; stopped_by = none; cancelled = false }) in
    (startup_error s.stopped_by s.watch_err outcome, s.queued)

-- The events that make the startup fail.
abbrev pub is_failure : StartupEvent → Bool
is_failure (watch_failed _) = true
is_failure (signalled _) = true
is_failure _ = false

abbrev pub no_failure : List StartupEvent → Bool
no_failure [] = true
no_failure (e ∷ es) = not (is_failure e) && no_failure es

-- The latest change of a path that the events hold, protected metadata left out, or else the given one.
abbrev pub latest_change : Settings → Text → List StartupEvent → Option Change → Option Change
latest_change c k [] before = before
latest_change c k (changed item ∷ es) before =
    latest_change c k es
      (if text_eq item.path k && not (is_exact (some c) item.path) then some item else before)
latest_change c k (_ ∷ es) before = latest_change c k es before

drain_failure :
    (c : Settings) (es : List StartupEvent) (s : Startup)
    → (is_none (drain c es s).stopped_by && is_none (drain c es s).watch_err)
      ≡ (is_none s.stopped_by && is_none s.watch_err && no_failure es)
unfolding drain on_startup_event
drain_failure c [] s = ground arith
drain_failure c (e ∷ es) s = ground (arith, drain_failure c es (on_startup_event c e s))

drain-latest_change :
    (c : Settings) (k : Text) (es : List StartupEvent) (s : Startup)
    → lookup k (drain c es s).queued ≡ latest_change c k es (lookup k s.queued)
unfolding drain on_startup_event queue_change
drain-latest_change c k [] s = refl
drain-latest_change c k (changed item ∷ es) s = ground (
  arith,
  drain-latest_change c k es (on_startup_event c (changed item) s),
  lookup-add_pending k s.queued item,
)
drain-latest_change c k (changes_closed ∷ es) s = drain-latest_change c k es s
drain-latest_change c k (watch_failed e ∷ es) s =
    ground (arith, drain-latest_change c k es (on_startup_event c (watch_failed e) s))
drain-latest_change c k (watch_closed ∷ es) s = drain-latest_change c k es s
drain-latest_change c k (signalled n ∷ es) s =
    ground (arith, drain-latest_change c k es (on_startup_event c (signalled n) s))

-- Whatever happens while the startup state is reconciled, the latest change of each path is queued
-- for the loop, unless the path is protected; and the startup succeeds exactly when the
-- reconciliation does, no signal has come, and the watcher has not failed.
pub initialize_watching_done :
    (c : Settings) (es : List StartupEvent) (outcome : Option Error) (pending : Batch) (k : Text)
    → (lookup k (initialize_watching c es outcome pending).1
        ≡ latest_change c k es (lookup k pending))
      × (is_none (initialize_watching c es outcome pending).0 ≡ (no_failure es && is_none outcome))
unfolding initialize_watching
initialize_watching_done c es outcome pending k =
    let s : Startup = record {
      queued = pending;
      watch_err = none;
      stopped_by = none;
      cancelled = false;
    } in
    (drain-latest_change c k es s, ground (arith, drain_failure c es s))
