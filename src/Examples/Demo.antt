-- ===== src/Examples/Demo.antt =====
-- A world of one process: a remote object, a local file and a clock. State files are encoded by
-- three numbers, over one repository, one owner and one sync ID.
use rclonewatch.Prelude.{
  ℕ, ◌+◌, Bool, true, false, Option, none, some, Text, [], ◌∷◌, codes, if◌then◌else◌, ◌==◌, max,
}
use rclonewatch.Prelude.Int.{pos}
use rclonewatch.SyncFile.{SyncFileLock, SyncFileData, RemoteSyncFile}
use rclonewatch.Effect.{
  Command, cat, copyto, lsjson, payload, Status, success, exit, Reply, FileRead, absent, contents,
  DiskOp, write, rename, Env, Settings, SyncState, Machine,
}

pub record Place : Type 0 where
  pub object : Option Text
  pub local : Option Text
  pub spooled : Text
  pub clock : ℕ

abbrev encode_lock : Option SyncFileLock → ℕ
encode_lock none = 0
encode_lock (some l) = l.timestamp

abbrev encode : SyncFileData → Option Text
encode d = some (d.generation ∷ (if d.syncing then 1 else 0) ∷ encode_lock d.lock ∷ [])

abbrev demo_lock : ℕ → Option SyncFileLock
demo_lock t = if t == 0 then none else some (record { owner = "me"; timestamp = t; ttl = pos 100 })

abbrev decode : Text → Option SyncFileData
decode (g ∷ s ∷ t ∷ _) = some (record {
  repository_id = "repo";
  generation = g;
  sync_id = "id";
  syncing = s == 1;
  active = false;
  lock = demo_lock t;
})
decode _ = none

abbrev reply : Status → Text → Reply
reply s out = record { status = s; stdout = out; stderr = codes "ETag: \"v1\"" }

abbrev read_object : Option Text → Reply
read_object none = reply (exit 3) []
read_object (some t) = reply success t

abbrev pub demo_run : Bool → Command → Place → Reply × Place
demo_run _ (cat _ _) w = (read_object w.object, w)
demo_run _ (copyto t _ _) w = (reply success [], record w { object = some t })
demo_run _ (lsjson _ _) w = (reply success [], w)
demo_run _ (payload _) w = (reply success [], w)

abbrev demo_disk : DiskOp → Place → Bool × Place
demo_disk (write t) w = (true, record w { spooled = t })
demo_disk (rename _) w = (true, record w { local = some w.spooled })
demo_disk _ w = (true, w)

abbrev read_place : Option Text → FileRead
read_place none = absent
read_place (some t) = contents t

abbrev pub demo : Env
demo = record {
  World = Place;
  run = demo_run;
  now = λ w. (w.clock, record w { clock = w.clock + 1 });
  wait_until = λ t w. (none, record w { clock = max w.clock t });
  timer_fired = λ t w. (false, w);
  random_text = λ w. ("id", w);
  read_file = λ p w. (read_place w.local, w);
  disk = demo_disk;
  marshal = encode;
  marshal_local = encode;
  unmarshal = decode;
  unmarshal_listing = λ t. some [];
}

abbrev pub demo_settings : Settings
demo_settings = record {
  paths = record {
    local = codes "/src/.rcw-state";
    remote = codes "s3:b/.rcw-state";
    local_filter = codes ".rcw-state";
    remote_filter = codes ".rcw-state";
  };
  source = codes "/src";
  dest = codes "s3:b";
  timeout = 100;
  lock_wait = record { duration = 0; infinite = false; explicit = false };
  poll_interval = 10;
  consistent_writes = true;
  fail_on_incomplete = false;
  logs = false;
  owner = "me";
  repository_id = "repo";
  persistent = false;
  excludes = [];
  force_delete_untracked_remote = false;
}

abbrev pub demo_data : ℕ → ℕ → SyncFileData
demo_data g t = record {
  repository_id = "repo";
  generation = g;
  sync_id = "id";
  syncing = false;
  active = false;
  lock = demo_lock t;
}

abbrev pub demo_remote : ℕ → ℕ → RemoteSyncFile
demo_remote g t = record { contents = demo_data g t; etag = codes "v1"; exists = true }

abbrev pub demo_state : RemoteSyncFile → SyncState
demo_state r = record {
  remote = r;
  lock_expiry = 105;
  pending = none;
  pending_expiry = 0;
  releasing = false;
  closed = false;
  release_err = none;
}

-- A machine at generation g on both sides, whose lock was taken at instant t, 0 for none.
abbrev pub demo_machine : ℕ → ℕ → Machine demo
demo_machine g t = record {
  state = demo_state (demo_remote g t);
  world = record {
    object = some (g ∷ 0 ∷ t ∷ []);
    local = some (g ∷ 0 ∷ 0 ∷ []);
    spooled = [];
    clock = 7;
  };
  trace = [];
}
