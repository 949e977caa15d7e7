-- ===== src/Sync/Outcome.antt =====
-- What a sync leaves behind.
use rclonewatch.Prelude.{◌+◌, Bool, true, false, none, Text, List, [], ◌∷◌, ◌≡◌, ◌≢◌, refl, arith}
use rclonewatch.Effect.{Env, Settings, Result, ok, err, Machine, run_command, disk}
use rclonewatch.Payload.Scopes.{Stat}
use rclonewatch.Remote.ReadBack.{published}
use rclonewatch.Session.Advance.{IsPublished}
use rclonewatch.Sync.{
  partition_scopes, run_sync, full_sync, sync_scope_group, sync_groups, sync_scopes, transfer,
}

module _ (E : Env) (c : Settings) (tracked : Bool) where
  sync_scope_group-state :
      (scopes : List Text) (create : Bool) (h : Machine E)
      → (sync_scope_group E c tracked scopes create h).1.state ≡ h.state
  unfolding sync_scope_group run_sync run_command disk
  sync_scope_group-state scopes create h = ground arith

  full_sync-state : (h : Machine E) → (full_sync E c tracked h).1.state ≡ h.state
  unfolding full_sync run_sync run_command
  full_sync-state h = ground arith

  sync_groups-state :
      (r : Result (List Text × List Text)) (h : Machine E)
      → (sync_groups E c tracked r h).1.state ≡ h.state
  sync_groups-state (err e) h = refl
  sync_groups-state (ok ([], [])) h = refl
  sync_groups-state (ok (p ∷ ps, [])) h = sync_scope_group-state (p ∷ ps) true h
  sync_groups-state (ok ([], d ∷ ds)) h = ground (arith, sync_scope_group-state (d ∷ ds) false h)
  sync_groups-state (ok (p ∷ ps, d ∷ ds)) h = ground (
    arith,
    sync_scope_group-state (d ∷ ds) false h,
    sync_scope_group-state (p ∷ ps) true (sync_scope_group E c tracked (d ∷ ds) false h).1,
  )

  pub transfer-state :
      (lstat : Text → Stat) (scopes : List Text) (h : Machine E)
      → (transfer E c tracked lstat scopes h).1.state ≡ h.state
  unfolding sync_scopes
  transfer-state lstat [] h = refl
  transfer-state lstat (p ∷ ps) h =
      ground (arith, full_sync-state h, sync_groups-state (partition_scopes lstat (p ∷ ps)) h)

module _ (E : Env) (c : Settings) where
  -- What a sync that has touched the remote leaves of the generation: the state file of the next
  -- generation has been uploaded and read back twice, first marked as syncing, and then no longer.
  pub record IsAdvanced (h i : Machine E) : Type 0 where
    pub initialized : h.state.remote.contents.generation ≢ 0
    pub generation : i.state.remote.contents.generation ≡ h.state.remote.contents.generation + 1
    pub ended : i.state.remote.contents.syncing ≡ false
    pub repository : i.state.remote.contents.repository_id ≡ h.state.remote.contents.repository_id
    pub nothing_pending : i.state.pending ≡ none
    pub started : Machine E
    pub transferred : Machine E
    pub published_start : IsPublished E c (h.state.remote.contents.generation + 1) true h started
    pub between : published transferred.trace ≡ published started.trace
    pub published_end : IsPublished E c (h.state.remote.contents.generation + 1) false transferred i
