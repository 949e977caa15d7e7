-- ===== src/Main/Delivered.antt =====
-- What a run still owes to the remote when it exits.
use rclonewatch.Prelude.{
  ◌≡◌, ◌≢◌, ◌⊎◌, ℕ, Bool, true, false, not, ◌&&◌, ◌||◌, Option, some, Text, List, [], ◌∷◌, is_some,
  text_eq,
}
use rclonewatch.Effect.{Error, Env, Settings, Machine}
use rclonewatch.Watch.Batch.{Batch, is_exact}
use rclonewatch.Watch.State.{Config, Event, Loop, item}
use rclonewatch.Watch.Loop.{head, leave, Head, handle, start}
use rclonewatch.Watch.Delivery.{holds, delivered_by}
use rclonewatch.Main.Run.{Input, finish, perform, loop_config, delivered_event, head_started}

-- Whether the loop receives a change of the path that it is to upload.
abbrev pub received : Config → Text → Event → Bool
received cfg p (item c) = text_eq c.path p && not (is_exact cfg.state c.path)
received cfg p _ = false

-- Whether a change of the path is owed behind an event: it was, or it comes in, and the event is not
-- the success of a sync of the path with no later change of it queued.
abbrev pub owed_behind : Config → Text → Event → Loop → Bool → Bool
owed_behind cfg p e s b = (b || received cfg p e) && not (delivered_by p e s)

abbrev Keeps : Text → Bool → Loop → Type 0
Keeps p b s = b ≡ true → (holds p s ≡ true) ⊎ (is_some s.lock_err ≡ true)

abbrev pub owed_after : Bool → Head → Bool → Bool
owed_after b (leave _) rest = b
owed_after b _ rest = rest

module _ (E : Env) (c : Settings) (tracked : Bool) (interval : ℕ) (p : Text) where
  -- Whether a change of the path is owed at the end of the loop; it is so at its beginning if the flag is
  -- set.
  unfoldable pub owed : List Input → Bool → Loop → Option Error × Machine E → Bool
  unfolding finish perform head start handle
  owed [] b s o = b
  owed (i ∷ is) b s (o, h) =
      let (f, g) = finish E c tracked s h in
      let (t, acts) = head_started (head f s) s in
      let (out, k) = perform E c tracked i acts (o, g) in
      let e = delivered_event out i.event in
      let (u, more) = handle (loop_config E c tracked interval) e t in
      owed_after b (head f s) (
        owed is (owed_behind (loop_config E c tracked interval) p e t b) u
          (perform E c tracked i more (out, k)))

  OwesNothing : Option ℕ × Machine E → Bool → Type 0
  OwesNothing o b = (code : ℕ) → o.0 ≡ some code → code ≢ 1 → b ≡ false
