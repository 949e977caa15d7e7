-- ===== src/Watch/Stall.antt =====
-- What a change of protected metadata does to an interval that has passed.
use rclonewatch.Prelude.{ℕ, ◌+◌, true, false, some, none, List, [], ◌∷◌, ◌≡◌, refl, arith}
use rclonewatch.Effect.{Settings}
use rclonewatch.Watch.Batch.{Change, is_exact, queue_change}
use rclonewatch.Watch.State.{Config, Loop, item}
use rclonewatch.Watch.Loop.{start, on_item, handle}
use rclonewatch.Watch.Shutdown.{starts}

-- The loop after a row of changes, and how many syncs they have started.
abbrev pub after_items : Config → List Change → Loop → Loop × ℕ
after_items cfg [] s = (s, 0)
after_items cfg (c ∷ cs) s =
    let rest = after_items cfg cs (handle cfg (item c) s).0 in
    (rest.0, starts (handle cfg (item c) s).1 + rest.1)

after_items_stalled :
    (cfg : Config) (cs : List Change) (s : Loop)
    → s.sync_ready ≡ false
    → s.timer_armed ≡ false
    → ((after_items cfg cs s).1 ≡ 0)
      × ((after_items cfg cs s).0.sync_ready ≡ false)
      × ((after_items cfg cs s).0.timer_armed ≡ false)
unfolding handle on_item queue_change
after_items_stalled cfg [] s r t = (refl, r, t)
after_items_stalled cfg (c ∷ cs) s r t =
    ground (arith, after_items_stalled cfg cs (handle cfg (item c) s).0)

-- Once the interval has passed with nothing queued (the timer is off and a change would be synced at
-- once), a change of protected metadata ends that state without a sync and without setting the
-- timer: after it no change starts a sync, however many come, and no timer is there to do so.
pub after_items-protected :
    (cfg : Config) (c : Settings) (protected : Change) (cs : List Change) (s : Loop)
    → cfg.state ≡ some c
    → is_exact (some c) protected.path ≡ true
    → s.pending ≡ []
    → s.flight ≡ none
    → s.stopping ≡ false
    → s.sync_ready ≡ true
    → s.timer_armed ≡ false
    → ((after_items cfg (protected ∷ cs) s).1 ≡ 0)
      × ((after_items cfg (protected ∷ cs) s).0.sync_ready ≡ false)
      × ((after_items cfg (protected ∷ cs) s).0.timer_armed ≡ false)
unfolding handle on_item queue_change start
after_items-protected cfg c protected cs s a e p f n r t =
    ground
      (arith, a, e, p, f, n, r, t, after_items_stalled cfg cs (handle cfg (item protected) s).0)
