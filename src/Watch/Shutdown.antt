-- ===== src/Watch/Shutdown.antt =====
-- The exit status, the retry delay, and the number of syncs.
use rclonewatch.Prelude.{
  ℕ, suc, ◌+◌, ◌≤◌, Bool, true, false, ◌&&◌, ◌||◌, Option, none, some, Text, List, [], ◌∷◌, ◌++◌,
  ◌≡◌, ◌≢◌, ◌⊎◌, ◌∙◌, refl, inl, inr, arith, if◌then◌else◌, is_some, is_empty,
}
use rclonewatch.Effect.{Error}
use rclonewatch.Watch.State.{
  Config, Loop, Event, item, result, Action, start_sync, initial_retry_delay, max_retry_delay,
}
use rclonewatch.Watch.Loop.{
  enabled, start, handle, head, turn, exited, running, leave, on_item, on_tick, on_result,
  on_signal, on_watch_error, on_command_exit, abort_for_lock_failure, Head, final_sync, select,
}
use rclonewatch.Watch.Delivery.{
  holds, delivered, run_events, change_not_lost, before_event, turn_running, Turn-cases,
  queued_pending,
}

-- Where the loop leaves, the status is 1, or everything has come to rest without a failure: no lock
-- or watcher error, no change left, the session finished. Then it is the wrapped command's.
pub head_leaves :
    (finish : Option Error) (s : Loop) (code : ℕ)
    → head finish s ≡ leave code
    → (code ≡ 1)
      ⊎ ((code ≡ s.wrapped_exit_code)
          × (is_some s.lock_err ≡ false)
          × (is_some s.watcher_err ≡ false)
          × (is_empty s.pending ≡ true)
          × (is_some s.flight ≡ false)
          × (is_some finish ≡ false))
unfolding head
head_leaves finish s code h = ground arith

-- A run that comes to an exit with another status than 1 means that every change that was queued or in flight has been
-- held by a sync that succeeded.
pub clean_exit_delivers :
    (cfg : Config) (finish : Option Error) (p : Text) (es : List Event) (s : Loop) {u : Loop}
    {acts : List Action} (code : ℕ)
    → run_events cfg finish es s ≡ running u acts
    → head finish u ≡ leave code
    → code ≢ 1
    → holds p s ≡ true
    → delivered cfg finish p es s ≡ true
clean_exit_delivers cfg finish p es s {u} {acts} code r l n h = elim (head_leaves finish u code l) [
  | inl one ↦ absurd (n one)
  | inr (_, lock, _, empty, idle, _) ↦
      elim (change_not_lost cfg finish p es s {u = u} {acts = acts} r lock h) [
        | inr d ↦ d
        | inl still ↦ ground (arith, queued_pending p u.pending empty, queued_pending p [] refl)
      ]
]

abbrev pub IsBounded : Loop → Type 0
IsBounded s = (initial_retry_delay ≤ s.retry_delay) × (s.retry_delay ≤ max_retry_delay)

-- Every event keeps the retry delay between one second and one minute.
pub handle-IsBounded :
    (cfg : Config) (e : Event) (s : Loop) → IsBounded s → IsBounded (handle cfg e s).0
unfolding handle on_item start on_watch_error abort_for_lock_failure on_tick on_result
    on_command_exit on_signal
handle-IsBounded cfg (item c) s h = ground arith
handle-IsBounded cfg (result none) s h = ground arith
handle-IsBounded cfg (result (some e)) s h = ground arith
handle-IsBounded cfg _ s h = ground arith

-- How many syncs the actions start.
abbrev pub starts : List Action → ℕ
starts [] = 0
starts (start_sync _ ∷ acts) = suc (starts acts)
starts (_ ∷ acts) = starts acts

-- What holds between two events.
pub record IsSound (s : Loop) : Type 0 where
  pub stopped_timer : s.stopping ≡ true → s.timer_armed ≡ false
  pub ready_timer : s.sync_ready ≡ true → s.timer_armed ≡ false
  pub failed_stops :
      (is_some s.lock_err ≡ true) ⊎ (is_some s.watcher_err ≡ true) → s.stopping ≡ true
  pub abandoned_last : s.abandoned ≡ true → (s.stopping ≡ true) × (s.final_attempted ≡ true)

-- Every event keeps the loop sound: no timer runs once it is stopping
-- or while it waits for a change, a failure of the watcher or of the lock stops it, and a sync is
-- abandoned only at the last.
pub handle-IsSound : (cfg : Config) (e : Event) (s : Loop) → IsSound s → IsSound (handle cfg e s).0
unfolding handle on_item start on_watch_error abort_for_lock_failure on_tick on_result
    on_command_exit on_signal
handle-IsSound cfg (item c) s h = ground arith
handle-IsSound cfg (result none) s h = ground arith
handle-IsSound cfg (result (some e)) s h = ground arith
handle-IsSound cfg _ s h = ground arith

-- An event that the channels can deliver to a sound loop starts at most one sync, and none while
-- one is in flight or once the loop is stopping.
pub handle-starts :
    (cfg : Config) (e : Event) (s : Loop)
    → IsSound s
    → enabled s e ≡ true
    → starts (handle cfg e s).1 ≤ (if is_some s.flight || s.stopping then 0 else 1)
unfolding enabled handle on_item start on_watch_error abort_for_lock_failure on_tick on_result
    on_command_exit on_signal
handle-starts cfg (item c) s v en = ground arith
handle-starts cfg (result none) s v en = ground arith
handle-starts cfg (result (some e)) s v en = ground arith
handle-starts cfg _ s v en = ground arith

handle-stopping :
    (cfg : Config) (e : Event) (s : Loop)
    → s.stopping ≡ true
    → ((handle cfg e s).0.stopping ≡ true)
      × (s.final_attempted ≡ true → (handle cfg e s).0.final_attempted ≡ true)
unfolding handle on_item start on_watch_error abort_for_lock_failure on_tick on_result
    on_command_exit on_signal
handle-stopping cfg (item c) s h = ground arith
handle-stopping cfg (result none) s h = ground arith
handle-stopping cfg (result (some e)) s h = ground arith
handle-stopping cfg _ s h = ground arith

-- How many syncs a run starts, and whether each of its events can be delivered where it comes.
unfoldable pub started : Config → Option Error → List Event → Loop → ℕ
started cfg finish [] s = 0
started cfg finish (e ∷ es) s = elim (turn cfg finish e s) [
  | exited _ ↦ 0
  | running t acts ↦ starts acts + started cfg finish es t
]

unfoldable pub all_enabled : Config → Option Error → List Event → Loop → Bool
all_enabled cfg finish [] s = true
all_enabled cfg finish (e ∷ es) s =
    enabled (before_event s (head finish s)) e
    && (elim (turn cfg finish e s) [ exited _ ↦ true | running t _ ↦ all_enabled cfg finish es t ])

starts-append : (xs ys : List Action) → starts (xs ++ ys) ≡ starts xs + starts ys
starts-append [] ys = omega arith
starts-append (start_sync _ ∷ xs) ys = ground (arith, starts-append xs ys)
starts-append (_ ∷ xs) ys = ground (arith, starts-append xs ys)

abbrev final_left : Loop → ℕ
final_left s = if s.final_attempted then 0 else 1

-- What the head of the loop asks for before the event.
abbrev before_actions : Loop → Head → List Action
before_actions s final_sync = (start true s).1
before_actions s _ = []

turn_actions :
    (cfg : Config) (finish : Option Error) (e : Event) (s t : Loop) {acts : List Action}
    → turn cfg finish e s ≡ running t acts
    → acts ≡ before_actions s (head finish s) ++ (handle cfg e (before_event s (head finish s))).1
unfolding turn
turn_actions cfg finish e s t h = ground arith

before_event_left :
    (finish : Option Error) (s : Loop)
    → starts (before_actions s (head finish s)) + final_left (before_event s (head finish s))
      ≤ final_left s
unfolding head start
before_event_left finish s = ground arith

pub before_event-IsSound :
    (s : Loop) (a : Head)
    → IsSound s
    → IsSound (before_event s a) × ((before_event s a).stopping ≡ s.stopping)
unfolding start
before_event-IsSound s (leave _) v = (v, refl)
before_event-IsSound s final_sync v = ground arith
before_event-IsSound s select v = (v, refl)

-- One turn of a stopping loop uses up the final sync if it starts one.
turn_stopping :
    (cfg : Config) (finish : Option Error) (e : Event) (s t : Loop) {acts : List Action}
    → IsSound s
    → s.stopping ≡ true
    → enabled (before_event s (head finish s)) e ≡ true
    → turn cfg finish e s ≡ running t acts
    → IsSound t × (t.stopping ≡ true) × (starts acts + final_left t ≤ final_left s)
turn_stopping cfg finish e s t {acts} v st en r =
    let b : Loop = before_event s (head finish s) in
    let (w, k) = before_event-IsSound s (head finish s) v in
    let bst : b.stopping ≡ true = k ∙ st in
    let q = turn_running cfg finish e s t r in
    let a = turn_actions cfg finish e s t {acts = acts} r in
    let left : final_left (handle cfg e b).0 ≤ final_left b =
      ground (arith, handle-stopping cfg e b bst) in
    let none_started : starts (handle cfg e b).1 ≡ 0 = ground (arith, handle-starts cfg e b w en) in
    rw (q, a)
      (
        handle-IsSound cfg e b w,
        (handle-stopping cfg e b bst).0,
        omega (
          arith,
          left,
          none_started,
          before_event_left finish s,
          starts-append (before_actions s (head finish s)) (handle cfg e b).1,
        ),
      )

-- Once a sound loop is stopping it starts one more sync at most, and none if the final one has been
-- tried: whatever the events are, as long as the channels can deliver them.
pub final_sync_once :
    (cfg : Config) (finish : Option Error) (es : List Event) (s : Loop)
    → IsSound s
    → s.stopping ≡ true
    → all_enabled cfg finish es s ≡ true
    → started cfg finish es s ≤ (if s.final_attempted then 0 else 1)
unfolding started all_enabled
final_sync_once cfg finish [] s v st en = omega arith
final_sync_once cfg finish (e ∷ es) s v st en = elim (Turn-cases (turn cfg finish e s)) [
  | inl (code, q) ↦ ground (arith, q)
  | inr (t, acts, q) ↦
      let (w, still, left) = turn_stopping cfg finish e s t {acts = acts} v st (ground arith) q in
      ground (arith, q, left, final_sync_once cfg finish es t w still)
]
