-- ===== src/SyncFile/Same.antt =====
-- The tests on sync-state files decide what they are named for.
use rclonewatch.Prelude.{
  Bool, true, false, Option, none, some, ◌≡◌, ◌≢◌, ◌↔◌, ◌⊎◌, ◌<◌, refl, arith, str_eq_iff, ==_iff,
}
use rclonewatch.Prelude.Int.{ℤ, pos, negsuc, int_eq}
use rclonewatch.SyncFile.{
  LockIdentity, held, unlocked, SyncFileLock, SyncFileData, same_lock, same_sync_file_data, bool_eq,
  identity_of, identity_eq, needs_sync_from_remote,
}

pub int_eq_iff : (a b : ℤ) → (int_eq a b ≡ true) ↔ (a ≡ b)
int_eq_iff (pos a) (pos b) = ground (arith, ==_iff a b)
int_eq_iff (negsuc a) (negsuc b) = ground (arith, ==_iff a b)
int_eq_iff (pos a) (negsuc b) = (λ h. cc, λ h. cc)
int_eq_iff (negsuc a) (pos b) = (λ h. cc, λ h. cc)

pub bool_eq_iff : (a b : Bool) → (bool_eq a b ≡ true) ↔ (a ≡ b)
unfolding bool_eq
bool_eq_iff true b = ground arith
bool_eq_iff false b = ground arith

-- Two locks are the same exactly when they are equal.
pub same_lock_iff : (l r : Option SyncFileLock) → (same_lock l r ≡ true) ↔ (l ≡ r)
unfolding same_lock
same_lock_iff none none = (λ _. refl, λ _. refl)
same_lock_iff none (some r) = (λ h. cc, λ h. cc)
same_lock_iff (some l) none = (λ h. cc, λ h. cc)
same_lock_iff (some l) (some r) = ground (arith, str_eq_iff l.owner r.owner, int_eq_iff l.ttl r.ttl)

-- Two files are the same exactly when they agree on all fields but `active`.
pub same_sync_file_data_iff :
    (l r : SyncFileData)
    → (same_sync_file_data l r ≡ true) ↔ (
        (l.repository_id ≡ r.repository_id)
        × (l.generation ≡ r.generation)
        × (l.sync_id ≡ r.sync_id)
        × (l.syncing ≡ r.syncing)
        × (l.lock ≡ r.lock))
unfolding same_sync_file_data
same_sync_file_data_iff l r = ground (
  arith,
  str_eq_iff l.repository_id r.repository_id,
  str_eq_iff l.sync_id r.sync_id,
  bool_eq_iff l.syncing r.syncing,
  same_lock_iff l.lock r.lock,
)

-- The identities of two locks agree exactly when the locks do.
pub identity_eq-identity_of :
    (l r : Option SyncFileLock) → (identity_eq (identity_of l) (identity_of r) ≡ true) ↔ (l ≡ r)
unfolding identity_eq identity_of
identity_eq-identity_of none none = (λ _. refl, λ _. refl)
identity_eq-identity_of none (some r) = (λ h. cc, λ h. cc)
identity_eq-identity_of (some l) none = (λ h. cc, λ h. cc)
identity_eq-identity_of (some l) (some r) =
    ground (arith, str_eq_iff l.owner r.owner, int_eq_iff l.ttl r.ttl)

-- The local side is downloaded over exactly when the remote is initialized and the local state is
-- absent, behind, or of the same generation under another sync ID.
pub needs_sync_from_remote_iff :
    (local : SyncFileData) (local_exists : Bool) (remote : SyncFileData)
    → (needs_sync_from_remote local local_exists remote ≡ true) ↔ (
        (remote.generation ≢ 0)
        × ((local_exists ≡ false)
            ⊎ (local.generation < remote.generation)
            ⊎ ((local.generation ≡ remote.generation) × (local.sync_id ≢ remote.sync_id))))
unfolding needs_sync_from_remote
needs_sync_from_remote_iff local local_exists remote =
    ground (arith, str_eq_iff local.sync_id remote.sync_id)

pub identity_eq_iff : (a b : LockIdentity) → (identity_eq a b ≡ true) ↔ (a ≡ b)
unfolding identity_eq
identity_eq_iff unlocked unlocked = (λ _. refl, λ _. refl)
identity_eq_iff unlocked (held _ _ _) = (λ h. cc, λ h. cc)
identity_eq_iff (held _ _ _) unlocked = (λ h. cc, λ h. cc)
identity_eq_iff (held o s x) (held p t y) = ground (arith, str_eq_iff o p, int_eq_iff x y)
