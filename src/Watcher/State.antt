-- ===== src/Watcher/State.antt =====
-- src/watcher_linux.go: the kernel's side of the watcher, its fields, and what it sends. The system
-- calls, and a walk of the directory tree, are steps of an unknown world.
use rclonewatch.Prelude.{ℕ, Bool, true, Option, none, some, Text, List, ◌∷◌}
use rclonewatch.Effect.{Error}
use rclonewatch.Path.Clean.{rel}
use rclonewatch.Watch.Batch.{Change}

-- What `filepath.WalkDir` hands to its callback: an entry and whether it is a directory, or an error
-- that says that something is gone, or another one.
pub data Visit : Type 0 where
  entry : Text → Bool → Visit
  gone : Visit
  unreadable : Visit

-- The result of `inotify_add_watch`.
pub data Added : Type 0 where
  watching : ℕ → Added
  missing : Added
  refused : Added

pub record Kernel : Type 1 where
  pub World : Type 0
  -- `inotify_init1`; a new instance has a new number
  pub init : World → Option ℕ × World
  pub add_watch : ℕ → Text → World → Added × World
  pub rm_watch : ℕ → ℕ → World → World
  pub walk : Text → World → List Visit × World

-- An instance of inotify with its watches. `fd` numbers the instance.
pub record Watches : Type 0 where
  pub root : Text
  pub fd : ℕ
  pub by_descriptor : List (ℕ × Text)
  pub by_path : List (Text × ℕ)

module _ (K : Kernel) where
  open K use {World}

  -- The watcher. `sent` holds the changes sent so far and `failures` the errors offered to the error
  -- channel, both the latest first; the channel drops an error while it holds another one.
  pub record Watcher : Type 0 where
    pub watches : Watches
    pub closed : Bool
    pub sent : List Change
    pub failures : List Error
    pub world : World

module _ {K : Kernel} where
  abbrev pub send : Change → Watcher K → Watcher K
  send item w = record w { sent = item ∷ w.sent }

  abbrev pub fail_with : Error → Watcher K → Watcher K
  fail_with e w = record w { failures = e ∷ w.failures }

  -- `Close`: the reader's deadline has passed.
  abbrev pub close_watcher : Watcher K → Watcher K
  close_watcher w = record w { closed = true }

abbrev relative_or : Text → Option Text → Text
relative_or path none = path
relative_or path (some p) = p

-- `relative`
unfoldable pub relative : Text → Text → Text
unfolding rel
relative root path = relative_or path (rel root path)
