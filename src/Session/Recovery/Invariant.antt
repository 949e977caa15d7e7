-- ===== src/Session/Recovery/Invariant.antt =====
-- How the two state files and the view of the process stand to one another, whatever happens.
use rclonewatch.Prelude.{◌+◌, ◌≤◌, true, false, ◌≡◌, ◌≢◌, ◌⊎◌, arith, str_eq, str_eq_iff}
use rclonewatch.SyncFile.{SyncFileData, max_generation, needs_sync_from_remote}
use rclonewatch.Session.Recovery.{
  IsBetween, while_running, while_published, while_transferred, Durable, Phase, stopped, cleared,
  Step, mark_active, start, start_fetch, change, advance_local, publish, publish_unverified,
  publish_lost, transfer, clear_remote, clear_remote_unverified, clear_remote_lost, clear_local,
  refresh, refresh_unverified, refresh_lost, fail_over, finish, crash, Reach, here, next,
  first_state,
}

-- Two records of one upload.
abbrev pub Agree : SyncFileData → SyncFileData → Type 0
Agree a b = (a.generation ≡ b.generation) × (a.sync_id ≡ b.sync_id)

-- The first is one upload ahead of the second, and says that it has not ended.
abbrev pub IsAhead : SyncFileData → SyncFileData → Type 0
IsAhead a b = (a.syncing ≡ true) × (a.generation ≡ b.generation + 1)

-- Both name an upload of one generation that has not ended.
abbrev pub Clash : SyncFileData → SyncFileData → Type 0
Clash a b = (a.generation ≡ b.generation) × (a.syncing ≡ true) × (b.syncing ≡ true)

-- What holds of the view while a process runs.
pub record IsViewed (d : Durable) : Type 0 where
  pub active : d.local.active ≡ true
  pub initialized : d.view.generation ≢ 0
  pub bounded : d.view.generation ≤ max_generation
  pub named : str_eq d.view.sync_id "" ≡ false
  pub local : Agree d.local d.view ⊎ IsAhead d.local d.view
  pub remote :
      Agree d.remote d.view
      ⊎ (IsAhead d.remote d.view
          × (d.local.generation ≡ d.view.generation + 1)
          × (d.local.syncing ≡ true))
  pub settled : d.phase ≡ cleared → d.remote ≡ d.view

pub record IsRecoverable (d : Durable) : Type 0 where
  pub viewed : d.phase ≢ stopped → IsViewed d
  pub marked : d.dirty ≡ true → d.local.active ≡ true
  pub initialized : d.remote.generation ≢ 0
  pub bounded : (d.local.generation ≤ max_generation) × (d.remote.generation ≤ max_generation)
  pub named : (str_eq d.local.sync_id "" ≡ false) × (str_eq d.remote.sync_id "" ≡ false)
  pub linked : Agree d.local d.remote ⊎ IsAhead d.local d.remote ⊎ Clash d.local d.remote

between_lem : {p : Phase} → IsBetween p → (p ≢ stopped) × (p ≢ cleared)
between_lem while_running = (λ h. cc, λ h. cc)
between_lem while_published = (λ h. cc, λ h. cc)
between_lem while_transferred = (λ h. cc, λ h. cc)

Step-IsRecoverable : {d e : Durable} → Step d e → IsRecoverable d → IsRecoverable e
unfolding needs_sync_from_remote
Step-IsRecoverable (mark_active h) v = ground arith
Step-IsRecoverable {d} (start n h) v = ground (arith, str_eq_iff d.local.sync_id d.remote.sync_id)
Step-IsRecoverable (start_fetch n h) v = ground arith
Step-IsRecoverable (change h) v = ground arith
Step-IsRecoverable (advance_local i h n z m) v = ground arith
Step-IsRecoverable (publish i h e m a) v = ground arith
Step-IsRecoverable (publish_unverified i h e m a) v = ground arith
Step-IsRecoverable (publish_lost i h e a) v = ground arith
Step-IsRecoverable (transfer b h) v = ground arith
Step-IsRecoverable (clear_remote h a) v = ground arith
Step-IsRecoverable (clear_remote_unverified h a) v = ground arith
Step-IsRecoverable (clear_remote_lost h a) v = ground arith
Step-IsRecoverable (clear_local h) v = ground arith
Step-IsRecoverable (refresh h a) v = ground (arith, between_lem h)
Step-IsRecoverable (refresh_unverified h a) v = ground (arith, between_lem h)
Step-IsRecoverable (refresh_lost h a) v = ground (arith, between_lem h)
Step-IsRecoverable (fail_over h) v = ground arith
Step-IsRecoverable (finish h e) v = ground arith
Step-IsRecoverable crash v = ground arith

pub Reach-IsRecoverable : {d e : Durable} → IsRecoverable d → Reach d e → IsRecoverable e
Reach-IsRecoverable v here = v
Reach-IsRecoverable v (next r s) = Step-IsRecoverable s (Reach-IsRecoverable v r)

pub first_state-IsRecoverable :
    (r : SyncFileData)
    → r.generation ≡ 1
    → str_eq r.sync_id "" ≡ false
    → IsRecoverable (first_state r)
first_state-IsRecoverable r g n = ground arith
