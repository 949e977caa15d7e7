-- ===== src/Acquire/Ends.antt =====
-- The two loops of `Acquire` with a deadline, over a clock that goes on.
use rclonewatch.Prelude.{ℕ, zero, suc, ◌+◌, ◌-◌, ◌≤◌, ◌<◌, none, ◌≡◌, ◌≢◌, inl, inr, arith, min}
use rclonewatch.SyncFile.{RemoteSyncFile}
use rclonewatch.Effect.{
  Command, cat, Env, Settings, ok, Machine, Result-cases, run_command, now, wait_until,
}
use rclonewatch.Remote.Read.{read_remote, remote_state_exists}
use rclonewatch.Acquire.Wait.{
  Observed, observe, poll, wake_at, expiry, wait_loop, verify_acquired_lock,
}

-- The time of a world. `time.Now()` reads it, a timer fires no earlier than it is set to, and no
-- command turns it back.
pub record HasClock (E : Env) : Type 0 where
  pub time : E.World → ℕ
  pub now_reads : (w : E.World) → (time w ≤ (E.now w).0) × ((E.now w).0 ≤ time (E.now w).1)
  pub wait_reaches :
      (t : ℕ) (w : E.World)
      → (E.wait_until t w).0 ≡ none
      → (t ≤ time (E.wait_until t w).1) × (time w ≤ time (E.wait_until t w).1)
  pub run_keeps : (b : _) (cmd : Command) (w : E.World) → time w ≤ time (E.run b cmd w).1

module _ (E : Env) (k : HasClock E) (c : Settings) where
  remote_state_exists-time :
      (h : Machine E) → k.time h.world ≤ k.time (remote_state_exists E c h).1.world
  unfolding remote_state_exists run_command
  remote_state_exists-time h = grind (arith, k.run_keeps)

  read_remote-time : (h : Machine E) → k.time h.world ≤ k.time (read_remote E c h).1.world
  unfolding read_remote run_command
  read_remote-time h =
      let r = run_command E (cat c.paths.remote c.consistent_writes) h in
      ground (
        arith,
        k.run_keeps h.state.releasing (cat c.paths.remote c.consistent_writes) h.world,
        remote_state_exists-time r.1,
      )

  observe-time :
      (remote : RemoteSyncFile) (seen : Observed) (h : Machine E)
      → k.time h.world ≤ k.time (observe E c remote seen h).1.world
  unfolding observe now
  observe-time remote seen h = ground (arith, k.now_reads h.world)

  -- A poll that does not end the wait takes a nanosecond or more.
  poll-time :
      (expires deadline t : ℕ) (h : Machine E) {r : RemoteSyncFile}
      → 1 ≤ c.poll_interval
      → t < expires
      → t ≤ k.time h.world
      → deadline ≢ 0
      → (poll E c expires deadline h).0 ≡ ok r
      → (t < k.time (poll E c expires deadline h).1.world) × (t < deadline)
  unfolding poll
  poll-time expires deadline t h p x y d q =
      let a = E.now h.world in
      let u = E.now a.1 in
      let w = E.wait_until (wake_at E c u.0 expires deadline) u.1 in
      ground (
        arith,
        k.now_reads h.world,
        k.now_reads a.1,
        k.wait_reaches (wake_at E c u.0 expires deadline) u.1,
        read_remote-time (record h { world = w.1 }),
      )

  -- The wait for a lock that has a deadline ends: with a fuel of one more than the nanoseconds that
  -- are left it does not run out, over a clock that goes on and with a positive poll interval.
  pub wait_loop_ends :
      (n deadline : ℕ) (remote : RemoteSyncFile) (seen : Observed) (h : Machine E)
      → 1 ≤ c.poll_interval
      → deadline ≢ 0
      → deadline ≤ k.time h.world + n
      → (wait_loop E c (suc n) deadline remote seen h).0 ≢ ok none
  unfolding wait_loop now
  wait_loop_ends zero deadline remote seen h p d b =
      let o = observe E c remote seen h in
      elim (Result-cases o.0) [
        | inr (f, e) ↦ ground (arith, e)
        | inl (s, e) ↦
            let t = E.now o.1.world in
            let g : Machine E = record o.1 { world = t.1 } in
            let q = poll E c (expiry E c remote s) deadline g in
            elim (Result-cases q.0) [
              | inr (f, x) ↦ ground (arith, e, x)
              | inl (r, x) ↦ ground (
                arith,
                e,
                x,
                observe-time remote seen h,
                k.now_reads o.1.world,
                poll-time (expiry E c remote s) deadline t.0 g {r = r} p,
              )
            ]
      ]
  wait_loop_ends (suc n) deadline remote seen h p d b =
      let o = observe E c remote seen h in
      elim (Result-cases o.0) [
        | inr (f, e) ↦ ground (arith, e)
        | inl (s, e) ↦
            let t = E.now o.1.world in
            let g : Machine E = record o.1 { world = t.1 } in
            let q = poll E c (expiry E c remote s) deadline g in
            elim (Result-cases q.0) [
              | inr (f, x) ↦ ground (arith, e, x)
              | inl (r, x) ↦ ground (
                arith,
                e,
                x,
                observe-time remote seen h,
                k.now_reads o.1.world,
                poll-time (expiry E c remote s) deadline t.0 g {r = r} p,
                wait_loop_ends n deadline r s q.1 p d,
              )
            ]
      ]

  -- The verification of the lock ends likewise, at its deadline.
  pub verify_acquired_lock_ends :
      (n deadline : ℕ) (h : Machine E)
      → 1 ≤ c.poll_interval
      → deadline ≤ k.time h.world + n
      → (verify_acquired_lock E c (suc n) deadline h).0 ≢ ok none
  unfolding verify_acquired_lock now wait_until
  verify_acquired_lock_ends zero deadline h p b =
      let r = read_remote E c h in
      elim (Result-cases r.0) [
        | inl (a, e) ↦ ground (arith, e)
        | inr (f, e) ↦ ground (arith, e, read_remote-time h, k.now_reads r.1.world)
      ]
  verify_acquired_lock_ends (suc n) deadline h p b =
      let r = read_remote E c h in
      elim (Result-cases r.0) [
        | inl (a, e) ↦ ground (arith, e)
        | inr (f, e) ↦
            let t = E.now r.1.world in
            let wake = t.0 + min c.poll_interval (deadline - t.0) in
            let w = E.wait_until wake t.1 in
            ground (
              arith,
              e,
              read_remote-time h,
              k.now_reads r.1.world,
              k.wait_reaches wake t.1,
              verify_acquired_lock_ends n deadline (record r.1 { world = w.1 }) p,
            )
      ]
