-- ===== src/Main/Started.antt =====
-- What holds at the head of the loop from its first turn on.
use rclonewatch.Prelude.{◌≡◌, subst, inl, inr, ℕ, Bool, Option, List, [], ◌∷◌, arith}
use rclonewatch.Effect.{Error}
use rclonewatch.Watch.Batch.{Batch}
use rclonewatch.Watch.State.{Action, Config, Event, Loop}
use rclonewatch.Watch.Loop.{Head, leave, final_sync, select, head, turn, start, running}
use rclonewatch.Watch.Delivery.{run_events, before_event, turn_running, Turn-cases}
use rclonewatch.Watch.Shutdown.{
  IsSound, IsBounded, handle-IsSound, handle-IsBounded, before_event-IsSound,
}
use rclonewatch.Main.SetUp.{Wrapped, no_command, command_started, not_started, initial_loop}

initial_loop-IsSound :
    (interval : ℕ) (tracked : Bool) (command : Wrapped) (pending : Batch)
    → IsSound (initial_loop interval tracked command pending)
      × IsBounded (initial_loop interval tracked command pending)
unfolding initial_loop
initial_loop-IsSound interval tracked no_command pending = ground arith
initial_loop-IsSound interval tracked command_started pending = ground arith
initial_loop-IsSound interval tracked (not_started e) pending = ground arith

before_event-IsBounded : (s : Loop) (a : Head) → IsBounded s → IsBounded (before_event s a)
unfolding start
before_event-IsBounded s (leave _) v = v
before_event-IsBounded s final_sync v = ground arith
before_event-IsBounded s select v = v

run_events-IsSound :
    (cfg : Config) (finish : Option Error) (es : List Event) (s : Loop) {u : Loop}
    {acts : List Action}
    → run_events cfg finish es s ≡ running u acts
    → IsSound s × IsBounded s
    → IsSound u × IsBounded u
unfolding run_events
run_events-IsSound cfg finish [] s {u} {acts} r h =
    let p : s ≡ u = ground arith in subst (λ (t : Loop). IsSound t × IsBounded t) p h
run_events-IsSound cfg finish (e ∷ es) s {u} {acts} r h = elim (Turn-cases (turn cfg finish e s)) [
  | inl (code, q) ↦ absurd (ground (arith, q))
  | inr (t, more, q) ↦
      let b = before_event s (head finish s) in
      let w = before_event-IsSound s (head finish s) h.0 in
      let v = turn_running cfg finish e s t {acts = more} q in
      let k : IsSound t × IsBounded t = rw v (
        handle-IsSound cfg e b w.0,
        handle-IsBounded cfg e b (before_event-IsBounded s (head finish s) h.1),
      ) in
      run_events-IsSound cfg finish es t {u = u} {acts = acts} (ground (arith, q)) k
]

-- However the run starts and whatever its events are, the loop stays sound: no timer runs
-- once it is stopping or while it waits for a change, a failure of the watcher or of the lock stops
-- it, and a sync is abandoned only at the last; and its retry delay stays between one second and one
-- minute.
pub started_loop-IsSound :
    (cfg : Config) (finish : Option Error) (interval : ℕ) (tracked : Bool) (command : Wrapped)
    (pending : Batch) (es : List Event) {u : Loop} {acts : List Action}
    → run_events cfg finish es (initial_loop interval tracked command pending) ≡ running u acts
    → IsSound u × IsBounded u
started_loop-IsSound cfg finish interval tracked command pending es {u} {acts} r =
    run_events-IsSound cfg finish es (initial_loop interval tracked command pending) {u = u}
      {acts = acts} r (initial_loop-IsSound interval tracked command pending)
