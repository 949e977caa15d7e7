-- ===== src/Watch/Delivery.antt =====
-- What becomes of the changes of a path: they stay queued or in flight until a sync of the path that
-- started behind the last of them has succeeded.
use rclonewatch.Prelude.{
  ℕ, Bool, true, false, not, ◌&&◌, ◌||◌, Option, none, some, Text, List, [], ◌∷◌, ◌≡◌, ◌⊎◌, refl,
  inl, inr, arith, is_some, is_empty,
}
use rclonewatch.Effect.{Error, Settings}
use rclonewatch.Watch.Batch.{
  Change, Batch, lookup, queue_change, lookup-add_pending, lookup-merge_failed_batch,
}
use rclonewatch.Watch.State.{
  Config, Loop, Event, item, events_closed, watch_error, errors_closed, lock_error, locks_closed,
  tick, result, command_exit, signal, Action,
}
use rclonewatch.Watch.Loop.{
  start, ended, handle, head, turn, Turn, exited, running, leave, on_item, on_tick, on_result,
  on_signal, on_watch_error, on_command_exit, abort_for_lock_failure, Head, final_sync, select,
}

abbrev pub queued : Text → Batch → Bool
queued p b = is_some (lookup p b)

-- The change of a path is queued or in flight.
abbrev pub holds : Text → Loop → Bool
holds p s = queued p s.pending || queued p (ended s.flight)

-- The event ends a sync that held the path, with success, and no later change of the path is queued.
abbrev pub delivered_by : Text → Event → Loop → Bool
delivered_by p (result none) s = queued p (ended s.flight) && not (queued p s.pending)
delivered_by p _ s = false

queued-nil : (p : Text) → queued p [] ≡ false
unfolding lookup
queued-nil p = refl

pub queued_pending : (p : Text) (b : Batch) → is_empty b ≡ true → queued p b ≡ false
unfolding lookup
queued_pending p [] h = refl
queued_pending p (_ ∷ b) h = cc

queued-queue_change :
    (state : Option Settings) (p : Text) (b : Batch) (c : Change)
    → queued p b ≡ true
    → queued p (queue_change state b c) ≡ true
unfolding queue_change
queued-queue_change state p b c h = ground (arith, lookup-add_pending p b c)

pub start-holds : (final : Bool) (p : Text) (s : Loop) → holds p (start final s).0 ≡ holds p s
unfolding start
start-holds final p s = ground (arith, queued-nil p)

pub start-lock_err : (final : Bool) (s : Loop) → (start final s).0.lock_err ≡ s.lock_err
unfolding start
start-lock_err final s = ground arith

pub on_item-holds :
    (cfg : Config) (p : Text) (c : Change) (s : Loop)
    → holds p s ≡ true
    → holds p (on_item cfg c s).0 ≡ true
unfolding on_item
on_item-holds cfg p c s h =
    let t : Loop = record s { pending = queue_change cfg.state s.pending c } in
    ground (
      arith,
      queued-queue_change cfg.state p s.pending c,
      start-holds false p (record t { sync_ready = false }),
    )

on_tick-holds : (p : Text) (s : Loop) → holds p s ≡ true → holds p (on_tick s).0 ≡ true
unfolding on_tick
on_tick-holds p s h = ground (arith, start-holds false p (record s { timer_armed = false }))

on_result-holds :
    (cfg : Config) (p : Text) (outcome : Option Error) (s : Loop)
    → holds p s ≡ true
    → (holds p (on_result cfg outcome s).0 ≡ true)
      ⊎ (is_some (on_result cfg outcome s).0.lock_err ≡ true)
      ⊎ (delivered_by p (result outcome) s ≡ true)
unfolding on_result abort_for_lock_failure
on_result-holds cfg p none s h = ground (arith, queued-nil p)
on_result-holds cfg p (some e) s h =
    ground (arith, queued-nil p, lookup-merge_failed_batch p s.pending (ended s.flight))

pub handle-holds :
    (cfg : Config) (p : Text) (e : Event) (s : Loop)
    → holds p s ≡ true
    → (holds p (handle cfg e s).0 ≡ true)
      ⊎ (is_some (handle cfg e s).0.lock_err ≡ true)
      ⊎ (delivered_by p e s ≡ true)
unfolding handle
handle-holds cfg p (item c) s h = inl (on_item-holds cfg p c s h)
handle-holds cfg p (watch_error e) s h = inl (unfold on_watch_error in ground arith)
handle-holds cfg p (lock_error e) s h = inl (unfold abort_for_lock_failure in ground arith)
handle-holds cfg p tick s h = inl (on_tick-holds p s h)
handle-holds cfg p (result outcome) s h = on_result-holds cfg p outcome s h
handle-holds cfg p (command_exit code) s h = inl (unfold on_command_exit in ground arith)
handle-holds cfg p (signal sig) s h = inl (unfold on_signal in ground arith)
handle-holds cfg p events_closed s h = inl h
handle-holds cfg p errors_closed s h = inl h
handle-holds cfg p locks_closed s h = inl h

-- A lock failure is never forgotten.
pub handle-lock_err :
    (cfg : Config) (e : Event) (s : Loop)
    → is_some s.lock_err ≡ true
    → is_some (handle cfg e s).0.lock_err ≡ true
unfolding handle on_item start on_watch_error abort_for_lock_failure on_tick on_result
    on_command_exit on_signal
handle-lock_err cfg (item c) s h = ground arith
handle-lock_err cfg (result none) s h = ground arith
handle-lock_err cfg _ s h = ground arith

-- The state that a turn hands to the event: the head may have started the final sync.
abbrev pub before_event : Loop → Head → Loop
before_event s final_sync = (start true s).0
before_event s _ = s

pub turn_running :
    (cfg : Config) (finish : Option Error) (e : Event) (s t : Loop) {acts : List Action}
    → turn cfg finish e s ≡ running t acts
    → t ≡ (handle cfg e (before_event s (head finish s))).0
unfolding turn
turn_running cfg finish e s t h = ground arith

pub before_event-holds : (p : Text) (s : Loop) (a : Head) → holds p (before_event s a) ≡ holds p s
before_event-holds p s (leave _) = refl
before_event-holds p s final_sync = start-holds true p s
before_event-holds p s select = refl

pub before_event-lock_err : (s : Loop) (a : Head) → (before_event s a).lock_err ≡ s.lock_err
before_event-lock_err s (leave _) = refl
before_event-lock_err s final_sync = start-lock_err true s
before_event-lock_err s select = refl

-- The loop over the events that `select` picks, and whether one of them delivers the path.
unfoldable pub run_events : Config → Option Error → List Event → Loop → Turn
run_events cfg finish [] s = running s []
run_events cfg finish (e ∷ es) s = elim (turn cfg finish e s) [
  | exited code ↦ exited code
  | running t _ ↦ run_events cfg finish es t
]

unfoldable pub delivered : Config → Option Error → Text → List Event → Loop → Bool
delivered cfg finish p [] s = false
delivered cfg finish p (e ∷ es) s =
    delivered_by p e (before_event s (head finish s))
    || (elim (turn cfg finish e s) [ exited _ ↦ false | running t _ ↦ delivered cfg finish p es t ])

pub Turn-cases :
    (t : Turn)
    → ((code : ℕ) × (t ≡ exited code)) ⊎ ((u : Loop) × (acts : List Action) × (t ≡ running u acts))
Turn-cases (exited code) = inl (code, refl)
Turn-cases (running u acts) = inr (u, acts, refl)

run_events-lock_err :
    (cfg : Config) (finish : Option Error) (es : List Event) (s : Loop) {u : Loop}
    {acts : List Action}
    → run_events cfg finish es s ≡ running u acts
    → is_some s.lock_err ≡ true
    → is_some u.lock_err ≡ true
unfolding run_events
run_events-lock_err cfg finish [] s r h = ground arith
run_events-lock_err cfg finish (e ∷ es) s {u} {acts} r h = elim (Turn-cases (turn cfg finish e s)) [
  | inl (code, q) ↦ absurd (ground (arith, q))
  | inr (t, more, q) ↦
      let b : Loop = before_event s (head finish s) in
      let k = handle-lock_err cfg e b (rw (before_event-lock_err s (head finish s)) h) in
      run_events-lock_err cfg finish es t {u = u} {acts = acts} (ground (arith, q))
        (rw (turn_running cfg finish e s t q) k)
]

-- As long as the lock is not lost, a path of which a change is queued or in flight stays so until a
-- sync that held it succeeds at a moment when no later change of it is queued: whatever the order of
-- events, errors, retries, a shutdown or signals.
pub change_not_lost :
    (cfg : Config) (finish : Option Error) (p : Text) (es : List Event) (s : Loop) {u : Loop}
    {acts : List Action}
    → run_events cfg finish es s ≡ running u acts
    → is_some u.lock_err ≡ false
    → holds p s ≡ true
    → (holds p u ≡ true) ⊎ (delivered cfg finish p es s ≡ true)
unfolding run_events delivered
change_not_lost cfg finish p [] s r n h = inl (ground arith)
change_not_lost cfg finish p (e ∷ es) s {u} {acts} r n h = elim (Turn-cases (turn cfg finish e s)) [
  | inl (code, q) ↦ absurd (ground (arith, q))
  | inr (t, more, q) ↦
      let b : Loop = before_event s (head finish s) in
      let k = handle-holds cfg p e b (rw (before_event-holds p s (head finish s)) h) in
      let v = turn_running cfg finish e s t q in
      elim k [
        | inl still ↦
            elim (change_not_lost cfg finish p es t {u = u} {acts = acts} (ground (arith, q)) n
              (rw v still)) [ inl x ↦ inl x | inr x ↦ inr (ground (arith, q, x)) ]
        | inr (inl lost) ↦ absurd (
            cc (
              run_events-lock_err cfg finish es t {u = u} {acts = acts} (ground (arith, q))
                (rw v lost)))
        | inr (inr d) ↦ inr (ground (arith, d))
      ]
]
