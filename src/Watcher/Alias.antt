-- ===== src/Watcher/Alias.antt =====
-- A directory that the kernel knows by the descriptor of another path, as it does a directory that
-- has been moved and is met under its new name first.
use rclonewatch.Prelude.{
  ℕ, false, none, some, Text, List, [], ◌∷◌, ◌≡◌, refl, arith, text_eq_iff, ◌∙◌,
}
use rclonewatch.Watcher.Maps.{descriptor_key, path_key, find, put, delete, find-delete, find-put}
use rclonewatch.Watcher.State.{Kernel, Watcher, watching}
use rclonewatch.Watcher.Tree.{add, is_within, remove_watches, remove_tree}
use rclonewatch.Watcher.Handle.{handle, has, in_q_overflow}

module _ {K : Kernel} where
  -- The watcher without one of its watches.
  abbrev without : Text → ℕ → Watcher K → Watcher K
  without watched d w = record w {
    watches = record w.watches {
      by_descriptor = delete d w.watches.by_descriptor;
      by_path = delete watched w.watches.by_path;
    };
    world = K.rm_watch w.watches.fd d w.world;
  }

  remove_watches-descriptor :
      (path : Text) (m : List (Text × ℕ)) (w : Watcher K) (d : ℕ)
      → find d w.watches.by_descriptor ≡ none
      → find d (remove_watches path m w).watches.by_descriptor ≡ none
  unfolding remove_watches
  remove_watches-descriptor path [] w d h = h
  remove_watches-descriptor path ((x, e) ∷ m) w d h = ground (
    arith,
    remove_watches-descriptor path m (without x e w) d,
    remove_watches-descriptor path m w d,
    find-delete e d w.watches.by_descriptor,
  )

  remove_watches_watched :
      (path : Text) (m : List (Text × ℕ)) (w : Watcher K) (d : ℕ)
      → find path m ≡ some d
      → find d (remove_watches path m w).watches.by_descriptor ≡ none
  unfolding remove_watches find is_within
  remove_watches_watched path [] w d h = cc
  remove_watches_watched path ((x, e) ∷ m) w d h = ground (
    arith,
    text_eq_iff x path,
    remove_watches-descriptor path m (without x e w) d,
    remove_watches_watched path m (without x e w) d,
    remove_watches_watched path m w d,
    find-delete e d w.watches.by_descriptor,
  )

  remove_watches-path :
      (path other : Text) (m : List (Text × ℕ)) (w : Watcher K)
      → is_within path other ≡ false
      → find other (remove_watches path m w).watches.by_path ≡ find other w.watches.by_path
  unfolding remove_watches
  remove_watches-path path other [] w h = refl
  remove_watches-path path other ((x, e) ∷ m) w h = ground (
    arith,
    text_eq_iff x other,
    remove_watches-path path other m (without x e w),
    remove_watches-path path other m w,
    find-delete x other w.watches.by_path,
  )

  add_watched :
      (path : Text) (d : ℕ) (w : Watcher K)
      → find path w.watches.by_path ≡ some d
      → add path w ≡ (watching d, w)
  unfolding add
  add_watched path d w h = rw (h, add)

  add_new :
      (path : Text) (d : ℕ) (w : Watcher K) (world : K.World)
      → find path w.watches.by_path ≡ none
      → K.add_watch w.watches.fd path w.world ≡ (watching d, world)
      → (add path w).1.watches.by_path ≡ put path d w.watches.by_path
  unfolding add
  add_new path d w world h k = rw (h, k, add)

  handle_unknown :
      (d mask : ℕ) (name : Text) (w : Watcher K)
      → has in_q_overflow mask ≡ false
      → find d w.watches.by_descriptor ≡ none
      → handle d mask name w ≡ w
  unfolding handle
  handle_unknown d mask name w o h = rw (o, h)

  -- Where the kernel gives a directory the descriptor of another watched path, the removal of that
  -- path leaves the directory deaf: it stands in the map of the watched paths, so that adding it
  -- again asks nothing of the kernel, while its descriptor is forgotten, so that no event of it but
  -- an overflow does anything.
  pub remove_tree_alias :
      (a b : Text) (d mask : ℕ) (name : Text) (w : Watcher K) (world : K.World)
      → find a w.watches.by_path ≡ some d
      → find b w.watches.by_path ≡ none
      → K.add_watch w.watches.fd b w.world ≡ (watching d, world)
      → is_within a b ≡ false
      → has in_q_overflow mask ≡ false
      → let u = remove_tree a (add b w).1 in
        (find b u.watches.by_path ≡ some d)
        × (add b u ≡ (watching d, u))
        × (handle d mask name u ≡ u)
  unfolding remove_tree
  remove_tree_alias a b d mask name w world p q k n o =
      let v = (add b w).1 in
      let u = remove_tree a v in
      let m : v.watches.by_path ≡ put b d w.watches.by_path = add_new b d w world q k in
      let fa : find a v.watches.by_path ≡ some d =
        rw m (ground (arith, find-put b a d w.watches.by_path)) in
      let fb : find b v.watches.by_path ≡ some d =
        rw m (ground (arith, find-put b b d w.watches.by_path, text_eq_iff b b)) in
      let ub : find b u.watches.by_path ≡ some d =
        remove_watches-path a b v.watches.by_path v n ∙ fb in
      let ud = remove_watches_watched a v.watches.by_path v d fa in
      (ub, add_watched b d u ub, handle_unknown d mask name u o ud)
