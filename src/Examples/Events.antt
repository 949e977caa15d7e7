-- ===== src/Examples/Events.antt =====
-- The theorems on the event loop, at concrete inputs.
use rclonewatch.Prelude.{
  is_none, ◌&&◌, ◌≤◌, true, false, none, some, List, [], ◌∷◌, ◌≡◌, ◌⊎◌, refl, arith, codes, text_eq,
}
use rclonewatch.Effect.{Error, text, is_ownership_lost}
use rclonewatch.Watch.Batch.{Change, lookup, merge_failed_batch}
use rclonewatch.Watch.Startup.{
  StartupEvent, changes_closed, initialize_watching, latest_change, no_failure,
  initialize_watching_done,
}
use rclonewatch.Examples.Demo.{demo_settings}
use rclonewatch.Watch.State.{
  Config, Loop, events_closed, errors_closed, tick, result, signal, Event,
}
use rclonewatch.Watch.Loop.{start, handle, head, turn, enabled, on_tick, on_result, on_signal}
use rclonewatch.Watch.Delivery.{holds, delivered, run_events, change_not_lost}
use rclonewatch.Watch.Shutdown.{started, all_enabled, final_sync_once}

abbrev file_change : Change
file_change = record { path = codes "a/b"; is_dir = false; removed = false }

abbrev config : Config
config = record { interval = 5; state = none }

abbrev fresh : Loop
fresh = record {
  pending = [];
  flight = none;
  stopping = false;
  watcher_closed = false;
  errors_open = true;
  locks_open = true;
  timer_armed = true;
  command_runs = false;
  final_attempted = false;
  sync_ready = false;
  abandoned = false;
  watcher_err = none;
  lock_err = none;
  last_sync_err = none;
  wrapped_exit_code = 0;
  signals_seen = 0;
  retry_delay = 1000000000;
}

abbrev changed : Loop
changed = record fresh { pending = file_change ∷ [] }

-- A failed sync, a stop by signal, and the final sync that succeeds.
abbrev story : List Event
story =
    tick
    ∷ result (some (text "network"))
    ∷ signal 2
    ∷ events_closed
    ∷ errors_closed
    ∷ result none
    ∷ []

abbrev rested : Loop
rested = record fresh {
  stopping = true;
  watcher_closed = true;
  errors_open = false;
  timer_armed = false;
  final_attempted = true;
  signals_seen = 1;
}

change_not_lost_example :
    (holds (codes "a/b") rested ≡ true) ⊎ (delivered config none (codes "a/b") story changed ≡ true)
unfolding run_events turn head handle start on_tick on_result on_signal is_ownership_lost
    merge_failed_batch lookup text_eq
change_not_lost_example =
    change_not_lost config none (codes "a/b") story changed {u = rested} {acts = []} refl refl refl

abbrev halting : Loop
halting = record changed {
  stopping = true;
  timer_armed = false;
  watcher_closed = true;
  errors_open = false;
}

final_sync_once_example : started config none (result none ∷ []) halting ≤ 1
unfolding all_enabled enabled turn head start handle on_result
final_sync_once_example =
    final_sync_once config none (result none ∷ []) halting (ground arith) refl refl

abbrev early_events : List StartupEvent
early_events = StartupEvent.changed file_change ∷ changes_closed ∷ []

initialize_watching_done_example :
    (lookup (codes "a/b") (initialize_watching demo_settings early_events none []).1
      ≡ latest_change demo_settings (codes "a/b") early_events none)
    × (is_none (initialize_watching demo_settings early_events none []).0
        ≡ (no_failure early_events && is_none {A = Error} none))
unfolding lookup
initialize_watching_done_example =
    initialize_watching_done demo_settings early_events none [] (codes "a/b")
