-- ===== src/SyncFile.antt =====
-- src/syncstate.go: the sync-state file, its lock, and the tests on them.
pub mod Same
use rclonewatch.Prelude.{
  ℕ, zero, suc, String, Bool, true, false, not, ◌&&◌, ◌||◌, Option, none, some, Text, [], ltb, ◌==◌,
  if◌then◌else◌, str_eq,
}
use rclonewatch.Prelude.Int.{ℤ, pos, negsuc, int_eq}

-- Instants are nanoseconds since Go's zero time, so `IsZero` is a test against 0. Lock instants
-- are in UTC.
pub record SyncFileLock : Type 0 where
  pub owner : String
  pub timestamp : ℕ
  pub ttl : ℤ

pub record SyncFileData : Type 0 where
  pub repository_id : String
  pub generation : ℕ  -- uint64
  pub sync_id : String
  pub syncing : Bool
  pub active : Bool
  pub lock : Option SyncFileLock

pub record RemoteSyncFile : Type 0 where
  pub contents : SyncFileData
  pub etag : Text
  pub exists : Bool

-- `syncFileData{}` and `remoteSyncFile{}`
abbrev pub no_data : SyncFileData
no_data = record {
  repository_id = "";
  generation = 0;
  sync_id = "";
  syncing = false;
  active = false;
  lock = none;
}

abbrev pub no_remote : RemoteSyncFile
no_remote = record { contents = no_data; etag = []; exists = false }

-- `2^64 - 1`
abbrev pub max_generation : ℕ
max_generation = 18446744073709551615

-- `(*syncFileLock).ttl`
abbrev positive_or : ℕ → ℤ → ℕ
positive_or fallback (pos zero) = fallback
positive_or fallback (pos (suc n)) = suc n
positive_or fallback (negsuc _) = fallback

unfoldable pub ttl_or : Option SyncFileLock → ℕ → ℕ
ttl_or none fallback = fallback
ttl_or (some l) fallback = positive_or fallback l.ttl

-- `remoteSyncFile.lockTTL`
unfoldable pub lock_ttl : RemoteSyncFile → ℕ → ℕ
unfolding ttl_or
lock_ttl r = ttl_or r.contents.lock

abbrev owner_is : String → Option SyncFileLock → Bool
owner_is owner none = false
owner_is owner (some l) = str_eq l.owner owner

-- `remoteSyncFile.ownedBy`
unfoldable pub owned_by : RemoteSyncFile → String → Bool
owned_by r owner = r.exists && owner_is owner r.contents.lock

-- `remoteSyncFile.lockIdentity`: the source prints the three fields into one text, which is empty
-- where there is no lock.
pub data LockIdentity : Type 0 where
  unlocked : LockIdentity
  held : String → ℕ → ℤ → LockIdentity

unfoldable pub identity_of : Option SyncFileLock → LockIdentity
identity_of none = unlocked
identity_of (some l) = held l.owner l.timestamp l.ttl

unfoldable pub lock_identity : RemoteSyncFile → LockIdentity
unfolding identity_of
lock_identity r = identity_of r.contents.lock

unfoldable pub identity_eq : LockIdentity → LockIdentity → Bool
identity_eq unlocked unlocked = true
identity_eq (held a s x) (held b t y) = str_eq a b && s == t && int_eq x y
identity_eq _ _ = false

unfoldable pub same_lock : Option SyncFileLock → Option SyncFileLock → Bool
same_lock none none = true
same_lock (some l) (some r) =
    str_eq l.owner r.owner && l.timestamp == r.timestamp && int_eq l.ttl r.ttl
same_lock _ _ = false

unfoldable pub bool_eq : Bool → Bool → Bool
bool_eq true b = b
bool_eq false b = not b

-- The marker `active` is not compared.
unfoldable pub same_sync_file_data : SyncFileData → SyncFileData → Bool
unfolding same_lock bool_eq
same_sync_file_data left right =
    str_eq left.repository_id right.repository_id
    && left.generation == right.generation
    && str_eq left.sync_id right.sync_id
    && bool_eq left.syncing right.syncing
    && same_lock left.lock right.lock

unfoldable pub needs_sync_from_remote : SyncFileData → Bool → SyncFileData → Bool
needs_sync_from_remote local local_exists remote =
    if remote.generation == 0
    then false
    else (not local_exists
        || ltb local.generation remote.generation
        || (local.generation == remote.generation && not (str_eq local.sync_id remote.sync_id)))
