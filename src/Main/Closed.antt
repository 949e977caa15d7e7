-- ===== src/Main/Closed.antt =====
-- What the exit status of a run says about its session.
use rclonewatch.Prelude.{
  ◌≡◌, ◌⊎◌, refl, inl, inr, ℕ, true, false, Option, none, some, List, [], ◌∷◌, arith,
}
use rclonewatch.Effect.{Error, Env, Settings, Machine, Result, ok, err, Result-cases}
use rclonewatch.Acquire.Loop.{acquire}
use rclonewatch.Session.Close.{close, finish_session}
use rclonewatch.Session.Release.{IsReleased, close_done}
use rclonewatch.Session.Open.{IsOpen}
use rclonewatch.Acquire.Open.{acquire-IsOpen}
use rclonewatch.Main.Open.{watch-IsOpen}
use rclonewatch.Watch.State.{Loop}
use rclonewatch.Watch.Loop.{handle, head, leave, Head, final_sync, select}
use rclonewatch.Main.Run.{
  Course, Input, finish, finished, finishes, perform, run_loop, watch, close_behind, behind_acquire,
  run_session, loop_config, delivered_event, after_head, head_started,
}

module _ (E : Env) (c : Settings) where
  -- How a run has closed its session: `Close` has failed, and the exit status is 1, or it has let go of
  -- the lock.
  abbrev pub HasClosed : ℕ → Machine E → Machine E → Type 0
  HasClosed code g i =
      (i ≡ (close E c g).1)
      × (((e : Error) × ((close E c g).0 ≡ err e) × (code ≡ 1))
          ⊎ (((close E c g).0 ≡ ok tt) × IsReleased E c g i))

  close_behind-HasClosed :
      (o : Option ℕ × Machine E) (code : ℕ)
      → IsOpen o.1.state
      → (close_behind E c o).0 ≡ some code
      → HasClosed code o.1 (close_behind E c o).1
  unfolding close_behind
  close_behind-HasClosed (none, h) code k e = absurd cc
  close_behind-HasClosed (some x, h) code k e = elim (Result-cases (close E c h).0) [
    | inl (_, q) ↦ (refl, inr (q, close_done E c h k.0 k.1 q))
    | inr (f, q) ↦ (refl, inl (f, q, ground (arith, q)))
  ]

  behind_acquire-HasClosed :
      (interval : ℕ) (k : Course) (r : Result (Option (Unit {0})) × Machine E) (code : ℕ)
      → IsOpen r.1.state
      → r.0 ≡ ok (some tt)
      → (behind_acquire E c interval k r).0 ≡ some code
      → HasClosed code (watch E c true interval k r.1).1 (behind_acquire E c interval k r).1
  behind_acquire-HasClosed interval k (err e, h) code o a p = absurd cc
  behind_acquire-HasClosed interval k (ok none, h) code o a p = absurd (ground arith)
  behind_acquire-HasClosed interval k (ok (some _), h) code o a p =
      close_behind-HasClosed (watch E c true interval k h) code (watch-IsOpen E c interval k h o) p

  -- A run whose session is not closed yet and that has acquired the lock calls `Close` on every way to
  -- its exit, behind all that it has watched: whether the watcher does not start, the startup fails
  -- or is interrupted, the lock or the watcher fails, or the loop comes to its end. Either `Close`
  -- fails, and the exit status is 1; or it has given the lock up by a verified write, unless the lock
  -- is to persist.
  pub run_session_closed :
      (fuel interval : ℕ) (k : Course) (h : Machine E) (code : ℕ)
      → h.state.closed ≡ false
      → (acquire E c fuel h).0 ≡ ok (some tt)
      → (run_session E c fuel interval k h).0 ≡ some code
      → HasClosed code
          (watch E c true interval k (acquire E c fuel h).1).1
          (run_session E c fuel interval k h).1
  unfolding run_session
  run_session_closed fuel interval k h code n a p =
      behind_acquire-HasClosed interval k (acquire E c fuel h) code (acquire-IsOpen E c fuel h n a)
        a p

  finished_leaves :
      (s : Loop) (r : Result (Unit {0}) × Machine E) (h : Machine E) (code : ℕ)
      → head (finished (finishes E c true s) r h).0 s ≡ leave code
      → (code ≡ 1) ⊎ (r ≡ (ok tt, (finished (finishes E c true s) r h).1))
  unfolding head
  finished_leaves s (ok _, g) h code e = ground arith
  finished_leaves s (err x, g) h code e = ground arith

  finish_leaves :
      (s : Loop) (h : Machine E) (code : ℕ)
      → head (finish E c true s h).0 s ≡ leave code
      → (code ≡ 1) ⊎ (finish_session E c h ≡ (ok tt, (finish E c true s h).1))
  unfolding finish
  finish_leaves s h code e = finished_leaves s (finish_session E c h) h code e

  -- An exit status is 1, or the session has just been finished.
  unfoldable pub IsFinished : Option ℕ × Machine E → Type 0
  IsFinished o =
      (code : ℕ)
      → o.0 ≡ some code
      → (code ≡ 1) ⊎ ((g : Machine E) × (finish_session E c g ≡ (ok tt, o.1)))

  head-IsFinished :
      (s : Loop) (h : Machine E) (code : ℕ)
      → head (finish E c true s h).0 s ≡ leave code
      → IsFinished (some code, (finish E c true s h).1)
  unfolding IsFinished
  head-IsFinished s h code e x p = elim (finish_leaves s h code e) [
    | inl q ↦ inl cc
    | inr q ↦ inr (h, q)
  ]

  after_head-IsFinished :
      (s : Loop) (h : Machine E) (a : Head) (rest : Option ℕ × Machine E)
      → head (finish E c true s h).0 s ≡ a
      → IsFinished rest
      → IsFinished (after_head a (finish E c true s h).1 rest)
  after_head-IsFinished s h (leave code) rest e k = head-IsFinished s h code e
  after_head-IsFinished s h final_sync rest e k = k
  after_head-IsFinished s h select rest e k = k

  none-IsFinished : (h : Machine E) → IsFinished (none, h)
  unfolding IsFinished
  none-IsFinished h code p = absurd cc

  pub run_loop-IsFinished :
      (interval : ℕ) (is : List Input) (s : Loop) (o : Option Error × Machine E)
      → IsFinished (run_loop E c true interval is s o)
  unfolding run_loop
  run_loop-IsFinished interval [] s (o, h) =
      after_head-IsFinished s h (head (finish E c true s h).0 s) (none, h) refl (none-IsFinished h)
  run_loop-IsFinished interval (i ∷ is) s (o, h) =
      let f = finish E c true s h in
      let t = head_started (head f.0 s) s in
      let r = perform E c true i t.1 (o, f.1) in
      let u = handle (loop_config E c true interval) (delivered_event r.0 i.event) t.0 in
      after_head-IsFinished s h (head f.0 s)
        (run_loop E c true interval is u.0 (perform E c true i u.1 r)) refl
        (run_loop-IsFinished interval is u.0 (perform E c true i u.1 r))
