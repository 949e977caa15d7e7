-- ===== src/Acquire/Waiting.antt =====
-- How `Acquire` waits for a lock that another process holds.
use rclonewatch.Prelude.{
  ℕ, zero, suc, ◌≤◌, true, some, ◌≡◌, ◌⊎◌, refl, sym, ◌∙◌, inl, inr, arith, subst, is_none,
  Bool-cases, leb,
}
use rclonewatch.SyncFile.{RemoteSyncFile, lock_identity, identity_eq}
use rclonewatch.SyncFile.Same.{identity_eq_iff}
use rclonewatch.Effect.{Env, Settings, ok, Machine, now, Result-cases}
use rclonewatch.Remote.Read.{read_remote}
use rclonewatch.Remote.Conditional.{uploads, uploads-read_remote}
use rclonewatch.Acquire.Wait.{
  Observed, observe, poll, wake_at, expiry, wait_loop, default_wait, is_observed,
}

module _ (E : Env) (c : Settings) where
  uploads-poll :
      (expires deadline : ℕ) (h : Machine E)
      → uploads (poll E c expires deadline h).1.trace ≡ uploads h.trace
  unfolding poll
  uploads-poll expires deadline h =
      let t = E.now h.world in
      let u = E.now t.1 in
      let w = E.wait_until (wake_at E c u.0 expires deadline) u.1 in
      ground (arith, uploads-read_remote E c (record h { world = w.1 }))

  uploads-observe :
      (remote : RemoteSyncFile) (seen : Observed) (h : Machine E)
      → uploads (observe E c remote seen h).1.trace ≡ uploads h.trace
  unfolding now observe
  uploads-observe remote seen h = ground arith

  -- While it waits for a lock, nothing is uploaded.
  uploads-wait_loop :
      (fuel deadline : ℕ) (remote : RemoteSyncFile) (seen : Observed) (h : Machine E)
      → uploads (wait_loop E c fuel deadline remote seen h).1.trace ≡ uploads h.trace
  unfolding wait_loop now
  uploads-wait_loop zero deadline remote seen h = refl
  uploads-wait_loop (suc fuel) deadline remote seen h =
      let o = observe E c remote seen h in
      elim (Result-cases o.0) [
        | inr (f, e) ↦ ground (arith, e, uploads-observe remote seen h)
        | inl (s, e) ↦
            let t : Machine E = record o.1 { world = (E.now o.1.world).1 } in
            let p = poll E c (expiry E c remote s) deadline t in
            elim (Result-cases p.0) [
              | inr (f, d) ↦ ground (
                arith,
                e,
                d,
                uploads-observe remote seen h,
                uploads-poll (expiry E c remote s) deadline t,
              )
              | inl (r, d) ↦ ground (
                arith,
                e,
                d,
                uploads-observe remote seen h,
                uploads-poll (expiry E c remote s) deadline t,
                uploads-wait_loop fuel deadline r s p.1,
              )
            ]
      ]

  observe_done :
      (remote : RemoteSyncFile) (seen s : Observed) (h : Machine E)
      → (observe E c remote seen h).0 ≡ ok s
      → (s.identity ≡ lock_identity remote)
        × (default_wait E c ≡ true → is_observed seen.identity ≡ true → s.identity ≡ seen.identity)
  unfolding observe now
  observe_done remote seen s h e =
      ground (arith, identity_eq_iff seen.identity (lock_identity remote))

  -- Where the instant stands from which the TTL of a lock is counted: it is the one that the wait has
  -- started with, for that lock; or the clock has been read for it right behind the sight of a file
  -- with that lock, the file that the wait has started with or one that a read has returned since.
  abbrev pub FirstSeen : Observed → RemoteSyncFile → Machine E → Observed → Type 0
  FirstSeen seen remote h s =
      (s ≡ seen)
      ⊎ ((o : RemoteSyncFile) × (m : Machine E) × (s.identity ≡ lock_identity o)
          × (s.at ≡ (E.now m.world).0)
          × (((o ≡ remote) × (m ≡ h)) ⊎ ((b : Machine E) × (read_remote E c b ≡ (ok o, m)))))

  observe-FirstSeen :
      (remote : RemoteSyncFile) (seen s : Observed) (h : Machine E)
      → (observe E c remote seen h).0 ≡ ok s
      → ((s ≡ seen) × ((observe E c remote seen h).1 ≡ h))
        ⊎ ((s.identity ≡ lock_identity remote) × (s.at ≡ (E.now h.world).0))
  unfolding observe now
  observe-FirstSeen remote seen s h e =
      elim (Bool-cases (identity_eq seen.identity (lock_identity remote))) [
        | inl same ↦ inl (ground (arith, same))
        | inr fresh ↦ inr (ground (arith, fresh))
      ]

  poll-read :
      (expires deadline : ℕ) (h : Machine E) {r : RemoteSyncFile}
      → (poll E c expires deadline h).0 ≡ ok r
      → (b : Machine E) × (read_remote E c b ≡ (ok r, (poll E c expires deadline h).1))
  unfolding poll
  poll-read expires deadline h e =
      let t = E.now h.world in
      let u = E.now t.1 in
      let w = E.wait_until (wake_at E c u.0 expires deadline) u.1 in
      let b : Machine E = record h { world = w.1 } in (b, ground arith)

  observed-FirstSeen :
      (remote : RemoteSyncFile) (seen u : Observed) (h : Machine E)
      → (observe E c remote seen h).0 ≡ ok u
      → FirstSeen seen remote h u
  observed-FirstSeen remote seen u h e = elim (observe-FirstSeen remote seen u h e) [
    | inl (same, _) ↦ inl same
    | inr (i, t) ↦ inr (remote, h, i, t, inl (refl, refl))
  ]

  -- Behind a poll.
  polled-FirstSeen :
      (remote again : RemoteSyncFile) (seen u s : Observed) (h b i : Machine E)
      → FirstSeen seen remote h u
      → read_remote E c b ≡ (ok again, i)
      → FirstSeen u again i s
      → FirstSeen seen remote h s
  polled-FirstSeen remote again seen u s h b i first e (inl same) =
      subst (λ x. FirstSeen seen remote h x) (sym same) first
  polled-FirstSeen remote again seen u s h b i first e (inr (o, m, x, t, inr r)) =
      inr (o, m, x, t, inr r)
  polled-FirstSeen remote again seen u s h b i first e (inr (o, m, x, t, inl (p, q))) =
      inr (o, m, x, t, inr (b, e ∙ cc))

  -- A lock may be taken if there is none, or if the clock has reached the end of the TTL that the
  -- lock states, counted from when this process saw that very lock.
  abbrev pub MayTake :
      Observed → RemoteSyncFile → Machine E → RemoteSyncFile → Observed → Machine E → Type 0
  MayTake seen remote h r s i =
      (is_none r.contents.lock ≡ true)
      ⊎ (FirstSeen seen remote h s
          × (s.identity ≡ lock_identity r)
          × ((m : Machine E) × (expiry E c r s ≤ (E.now m.world).0)
              × (i ≡ record m { world = (E.now m.world).1 })))

  polled-MayTake :
      (remote again : RemoteSyncFile) (seen u : Observed) (h b i : Machine E)
      → FirstSeen seen remote h u
      → read_remote E c b ≡ (ok again, i)
      → (r : RemoteSyncFile) (s : Observed) (j : Machine E) → MayTake u again i r s j
      → MayTake seen remote h r s j
  polled-MayTake remote again seen u h b i first e r s j (inl free) = inl free
  polled-MayTake remote again seen u h b i first e r s j (inr (f, x, y)) =
      inr (polled-FirstSeen remote again seen u s h b i first e f, x, y)

  wait_loop-MayTake :
      (fuel deadline : ℕ) (remote : RemoteSyncFile) (seen : Observed) (h : Machine E)
      {r : RemoteSyncFile} {s : Observed}
      → (wait_loop E c fuel deadline remote seen h).0 ≡ ok (some (r, s))
      → MayTake seen remote h r s (wait_loop E c fuel deadline remote seen h).1
  unfolding wait_loop now
  wait_loop-MayTake zero deadline remote seen h p = cc
  wait_loop-MayTake (suc fuel) deadline remote seen h {r} {s} p =
      elim (Bool-cases (is_none remote.contents.lock)) [
        | inl free ↦ inl (ground (arith, free))
        | inr taken ↦
            let o = observe E c remote seen h in
            elim (Result-cases o.0) [
              | inr (f, e) ↦ ground (arith, taken, e)
              | inl (u, e) ↦
                  let n = E.now o.1.world in
                  let t : Machine E = record o.1 { world = n.1 } in
                  elim (Bool-cases (leb (expiry E c remote u) n.0)) [
                    | inl late ↦
                        let k : wait_loop E c (suc fuel) deadline remote seen h
                            ≡ (ok (some (remote, u)), t) =
                          ground (arith, taken, e, late) in
                        let j : ◌≡◌ {A = RemoteSyncFile × Observed} (remote, u) (r, s) =
                          cc (rw k at p) in
                        let i : u.identity ≡ lock_identity remote =
                          (observe_done remote seen u h e).0 in
                        rw k (
                          subst (λ (x : RemoteSyncFile × Observed). MayTake seen remote h x.0 x.1 t)
                            j
                            (inr (
                              observed-FirstSeen remote seen u h e,
                              i,
                              (o.1, ground (arith, late), refl),
                            )))
                    | inr early ↦
                        let q = poll E c (expiry E c remote u) deadline t in
                        elim (Result-cases q.0) [
                          | inr (f, d) ↦ ground (arith, taken, e, early, d)
                          | inl (again, d) ↦
                              let k : wait_loop E c (suc fuel) deadline remote seen h
                                  ≡ wait_loop E c fuel deadline again u q.1 =
                                ground (arith, taken, e, early, d) in
                              let b = poll-read (expiry E c remote u) deadline t d in
                              rw k (
                                polled-MayTake remote again seen u h b.0 q.1
                                  (observed-FirstSeen remote seen u h e) b.1 r s _
                                  (wait_loop-MayTake fuel deadline again u q.1 {r = r} {s = s}
                                    (rw k at p)))
                        ]
                  ]
            ]
      ]

  -- Where the wait for another process's lock ends without an error it has uploaded nothing, and the
  -- file it returns carries no lock, or one that has outlived its TTL by the clock. The TTL is counted
  -- from the instant that the wait has started with, if that was for this very lock; or else from a
  -- clock reading made right behind the sight of a file with this very lock.
  pub wait_loop_done :
      (fuel deadline : ℕ) (remote : RemoteSyncFile) (seen : Observed) (h : Machine E)
      {r : RemoteSyncFile} {s : Observed}
      → (wait_loop E c fuel deadline remote seen h).0 ≡ ok (some (r, s))
      → (uploads (wait_loop E c fuel deadline remote seen h).1.trace ≡ uploads h.trace)
        × MayTake seen remote h r s (wait_loop E c fuel deadline remote seen h).1
  wait_loop_done fuel deadline remote seen h p = (
    uploads-wait_loop fuel deadline remote seen h,
    wait_loop-MayTake fuel deadline remote seen h p,
  )
