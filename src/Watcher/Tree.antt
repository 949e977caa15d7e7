-- ===== src/Watcher/Tree.antt =====
-- src/watcher_linux.go: watching a directory tree, and no longer watching it.
use rclonewatch.Prelude.{
  ℕ, Bool, true, false, not, ◌&&◌, ◌||◌, Option, none, some, Text, List, [], ◌∷◌, ◌++◌,
  if◌then◌else◌, text_eq, has_prefix, is_some,
}
use rclonewatch.Effect.{Error, text}
use rclonewatch.Path.Clean.{slash}
use rclonewatch.Watcher.Maps.{descriptor_key, path_key, find, put, delete}
use rclonewatch.Watcher.State.{
  Visit, entry, gone, unreadable, Added, watching, missing, refused, Kernel, Watches, Watcher, send,
  relative,
}

-- The errors that a walk can end with; none of them is `os.ErrNotExist`, which it passes over.
abbrev watch_refused : Error
watch_refused = text "watch"

abbrev walk_failed : Error
walk_failed = text "walk"

abbrev pub record_watch : Text → Added → Watches → Watches
record_watch path (watching d) m = record m {
  by_descriptor = put d path m.by_descriptor;
  by_path = put path d m.by_path;
}
record_watch path _ m = m

-- Whether a watched path is the given one or lies below it.
unfoldable pub is_within : Text → Text → Bool
unfolding text_eq has_prefix
is_within path watched = text_eq watched path || has_prefix watched (path ++ (slash ∷ []))

abbrev empty_watches : Text → ℕ → Watches
empty_watches root fd = record { root = root; fd = fd; by_descriptor = []; by_path = [] }

module _ {K : Kernel} where
  -- `add`: nothing is asked of the kernel for a path that is watched.
  unfoldable pub add : Text → Watcher K → Added × Watcher K
  unfolding find put
  add path w = elim (find path w.watches.by_path) [
    | some d ↦ (watching d, w)
    | none ↦
        let r = K.add_watch w.watches.fd path w.world in
        (r.0, record w { watches = record_watch path r.0 w.watches; world = r.1 })
  ]

  abbrev emit_entry : Bool → Text → Bool → Watcher K → Watcher K
  emit_entry emit path is_dir w =
      if emit && not (text_eq path w.watches.root)
      then send (record { path = relative w.watches.root path; is_dir = is_dir; removed = false }) w
      else w

  abbrev after_add : Bool → Text → Added × Watcher K → Option Error × Watcher K
  after_add emit path (refused, w) = (some watch_refused, w)
  after_add emit path (watching d, w) = (none, emit_entry emit path true w)
  after_add emit path (missing, w) = (none, emit_entry emit path true w)

  -- The callback of the walk, and whether it ends the walk.
  unfoldable pub visit : Bool → Visit → Watcher K → Option Error × Watcher K
  unfolding add relative text_eq
  visit emit gone w = (none, w)
  visit emit unreadable w = (some walk_failed, w)
  visit emit (entry path true) w = after_add emit path (add path w)
  visit emit (entry path false) w = (none, emit_entry emit path false w)

  abbrev pub unless_failed :
      (Watcher K → Option Error × Watcher K) → Option Error × Watcher K → Option Error × Watcher K
  unless_failed rest (some e, w) = (some e, w)
  unless_failed rest (none, w) = rest w

  unfoldable pub visit_all : Bool → List Visit → Watcher K → Option Error × Watcher K
  unfolding visit
  visit_all emit [] w = (none, w)
  visit_all emit (v ∷ vs) w = unless_failed (λ u. visit_all emit vs u) (visit emit v w)

  -- `addTree`
  unfoldable pub add_tree : Text → Bool → Watcher K → Option Error × Watcher K
  unfolding visit_all
  add_tree path emit w =
      let r = K.walk path w.world in visit_all emit r.0 (record w { world = r.1 })

  unfoldable pub remove_watches : Text → List (Text × ℕ) → Watcher K → Watcher K
  unfolding is_within delete
  remove_watches path [] w = w
  remove_watches path ((watched, d) ∷ m) w = remove_watches path m (
      if is_within path watched
      then record w {
        watches = record w.watches {
          by_descriptor = delete d w.watches.by_descriptor;
          by_path = delete watched w.watches.by_path;
        };
        world = K.rm_watch w.watches.fd d w.world;
      }
      else w)

  -- `removeTree`: the loop over `byPath`, of which it deletes entries.
  unfoldable pub remove_tree : Text → Watcher K → Watcher K
  unfolding remove_watches
  remove_tree path w = remove_watches path w.watches.by_path w

  -- What `rebuild` does with the tree of the new instance: the new maps are taken over only if the
  -- root is watched. `old` are the maps that are kept otherwise.
  abbrev pub replaced : Watches → Option Error × Watcher K → Option Error × Watcher K
  replaced old (some e, w) = (some e, record w { watches = old })
  replaced old (none, w) =
      if is_some (find w.watches.root w.watches.by_path)
      then (none, w)
      else (some (text "source folder is no longer a directory"), record w { watches = old })

  abbrev pub rebuild_in : Option ℕ → Watcher K → Option Error × Watcher K
  rebuild_in none w = (some (text "initialize inotify"), w)
  rebuild_in (some fd) w =
      replaced w.watches
        (add_tree w.watches.root false (record w { watches = empty_watches w.watches.root fd }))

  -- `rebuild`
  unfoldable pub rebuild : Watcher K → Option Error × Watcher K
  unfolding add_tree find
  rebuild w = let r = K.init w.world in rebuild_in r.0 (record w { world = r.1 })

  -- `newWatcher`, of a root whose symbolic links have been resolved. The descriptor -1 stands for no
  -- instance yet.
  unfoldable pub new_watcher : Text → K.World → Option Error × Watcher K
  unfolding rebuild
  new_watcher root world = rebuild (record {
    watches = empty_watches root 4294967295;
    closed = false;
    sent = [];
    failures = [];
    world = world;
  })
