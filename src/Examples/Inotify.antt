-- ===== src/Examples/Inotify.antt =====
-- The watcher over a kernel with a counter for its world, at concrete inputs.
use rclonewatch.Prelude.{
  ℕ, suc, true, false, none, some, List, [], ◌∷◌, codes, ◌≡◌, All, refl, arith,
}
use rclonewatch.Watcher.Maps.{path_key, descriptor_key, find, put}
use rclonewatch.Watcher.State.{Kernel, Watcher, entry, gone, watching}
use rclonewatch.Watcher.Tree.{add, add_tree, remove_tree, is_within, visit, visit_all}
use rclonewatch.Watcher.Handle.{handle, in_create, in_modify}
use rclonewatch.Watcher.Buffer.{process, deadline, drained, read_loop}
use rclonewatch.Watcher.Events.{Event, IsEvent, encode_all, deliver, process-encode_all}
use rclonewatch.Watcher.Closing.{Queued, reads_of, deliver_queued, read_loop_closed}
use rclonewatch.Watcher.Alias.{remove_tree_alias}
use rclonewatch.Watcher.Reports.{IsReported, add_tree-IsReported}

-- A kernel in which a new directory has the descriptor 7, as a moved one has, and in which a walk finds
-- a directory with one file, and an entry that is gone.
abbrev demo_kernel : Kernel
demo_kernel = record {
  World = ℕ;
  init = λ n. (some n, suc n);
  add_watch = λ fd path n. (watching 7, suc n);
  rm_watch = λ fd d n. suc n;
  walk = λ path n. (entry (codes "/s/d") true ∷ gone ∷ entry (codes "/s/d/f") false ∷ [], suc n);
}

abbrev demo_watcher : Watcher demo_kernel
demo_watcher = record {
  watches = record {
    root = codes "/s";
    fd = 3;
    by_descriptor = (7, codes "/s/a") ∷ (1, codes "/s") ∷ [];
    by_path = (codes "/s/a", 7) ∷ (codes "/s", 1) ∷ [];
  };
  closed = false;
  sent = [];
  failures = [];
  world = 0;
}

-- A file of the root is written, and a file of another directory made.
abbrev demo_events : List Event
demo_events =
    record { descriptor = 1; mask = in_modify; cookie = 0; name = codes "f"; padding = 15 }
    ∷ record { descriptor = 7; mask = in_create; cookie = 0; name = codes "g"; padding = 15 }
    ∷ []

demo_IsEvents : All IsEvent demo_events
demo_IsEvents = (
  record {
    descriptor_fits = omega arith;
    mask_fits = omega arith;
    size_fits = omega arith;
    name_bytes = (λ h. omega (arith, h), tt);
  },
  (
    record {
      descriptor_fits = omega arith;
      mask_fits = omega arith;
      size_fits = omega arith;
      name_bytes = (λ h. omega (arith, h), tt);
    },
    tt,
  ),
)

process-encode_all_example :
    process (encode_all demo_events) demo_watcher ≡ (true, deliver demo_events demo_watcher)
process-encode_all_example = process-encode_all demo_events demo_watcher demo_IsEvents

abbrev demo_queued : Queued
demo_queued = some demo_events ∷ none ∷ []

read_loop_closed_example :
    read_loop (deadline ∷ reads_of demo_queued (drained ∷ [])) demo_watcher
    ≡ (true, deliver_queued demo_queued demo_watcher)
read_loop_closed_example = read_loop_closed demo_queued [] demo_watcher (demo_IsEvents, (tt, tt))

remove_tree_alias_example :
    let u = remove_tree (codes "/s/a") (add (codes "/s/d/a") demo_watcher).1 in
    (find (codes "/s/d/a") u.watches.by_path ≡ some 7)
    × (add (codes "/s/d/a") u ≡ (watching 7, u))
    × (handle 7 in_modify (codes "f") u ≡ u)
unfolding find is_within
remove_tree_alias_example =
    remove_tree_alias (codes "/s/a") (codes "/s/d/a") 7 in_modify (codes "f") demo_watcher 1 refl
      refl refl refl refl

add_tree-IsReported_example :
    All
      (IsReported (codes "/s") (add_tree (codes "/s/d") true demo_watcher).1.sent)
      (entry (codes "/s/d") true ∷ gone ∷ entry (codes "/s/d/f") false ∷ [])
unfolding add_tree visit_all visit add find put
add_tree-IsReported_example = add_tree-IsReported (codes "/s/d") demo_watcher refl
