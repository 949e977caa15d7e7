-- ===== src/Watcher/Reports.antt =====
-- What the loop learns of a directory that arrives.
use rclonewatch.Prelude.{
  ℕ, Bool, true, false, ◌||◌, Option, none, some, Text, List, [], ◌∷◌, ◌≡◌, ◌⊎◌, inl, inr, refl,
  arith, text_eq, text_eq_iff, is_some, All, Option-cases, sym, ap, subst, ◌∙◌,
}
use rclonewatch.Effect.{Error}
use rclonewatch.Watch.Batch.{Change}
use rclonewatch.Watcher.Maps.{path_key, find}
use rclonewatch.Watcher.State.{Kernel, Watcher, Watches, Visit, entry, gone, unreadable, relative}
use rclonewatch.Watcher.Tree.{
  add, visit, visit_all, add_tree, unless_failed, replaced, rebuild_in, rebuild,
}

-- Whether a change of the path has been sent.
abbrev pub reports : Text → List Change → Bool
reports p [] = false
reports p (item ∷ items) = text_eq item.path p || reports p items

abbrev pub IsReported : Text → List Change → Visit → Type 0
IsReported root sent (entry path is_dir) =
    (text_eq path root ≡ true) ⊎ (reports (relative root path) sent ≡ true)
IsReported root sent gone = Unit
IsReported root sent unreadable = ⊥

module _ {K : Kernel} where
  add-sent :
      (path : Text) (w : Watcher K)
      → ((add path w).1.sent ≡ w.sent) × ((add path w).1.watches.root ≡ w.watches.root)
  unfolding add
  add-sent path w = ground (arith, K.add_watch w.watches.fd path w.world)

  visit-root : (v : Visit) (w : Watcher K) → (visit true v w).1.watches.root ≡ w.watches.root
  unfolding visit
  visit-root gone w = refl
  visit-root unreadable w = refl
  visit-root (entry path true) w = ground (arith, add-sent path w)
  visit-root (entry path false) w = ground arith

  visit_keeps :
      (p : Text) (v : Visit) (w : Watcher K)
      → reports p w.sent ≡ true
      → reports p (visit true v w).1.sent ≡ true
  unfolding visit
  visit_keeps p gone w h = h
  visit_keeps p unreadable w h = h
  visit_keeps p (entry path true) w h = ground (arith, add-sent path w)
  visit_keeps p (entry path false) w h = ground arith

  visit-IsReported :
      (v : Visit) (w : Watcher K)
      → (visit true v w).0 ≡ none
      → IsReported w.watches.root (visit true v w).1.sent v
  unfolding visit
  visit-IsReported gone w h = tt
  visit-IsReported unreadable w h = cc
  visit-IsReported (entry path true) w h = ground (
    arith,
    add-sent path w,
    text_eq_iff (relative w.watches.root path) (relative w.watches.root path),
  )
  visit-IsReported (entry path false) w h =
      ground (arith, text_eq_iff (relative w.watches.root path) (relative w.watches.root path))

  visit_all_keeps :
      (p : Text) (vs : List Visit) (w : Watcher K)
      → reports p w.sent ≡ true
      → reports p (visit_all true vs w).1.sent ≡ true
  unfolding visit_all
  visit_all_keeps p [] w h = h
  visit_all_keeps p (v ∷ vs) w h =
      ground (arith, visit_keeps p v w, visit_all_keeps p vs (visit true v w).1)

  IsReported-keeps :
      (root : Text) (v : Visit) (vs : List Visit) (w : Watcher K)
      → IsReported root w.sent v
      → IsReported root (visit_all true vs w).1.sent v
  IsReported-keeps root gone vs w h = tt
  IsReported-keeps root unreadable vs w h = h
  IsReported-keeps root (entry path d) vs w h =
      ground (arith, visit_all_keeps (relative root path) vs w)

  unless_failed-none :
      (rest : Watcher K → Option Error × Watcher K) (r : Option Error × Watcher K)
      → r.0 ≡ none
      → unless_failed rest r ≡ rest r.1
  unless_failed-none rest (none, w) h = refl
  unless_failed-none rest (some e, w) h = cc

  visit_all-IsReported :
      (vs : List Visit) (root : Text) (w : Watcher K)
      → w.watches.root ≡ root
      → (visit_all true vs w).0 ≡ none
      → All (IsReported root (visit_all true vs w).1.sent) vs
  unfolding visit_all
  visit_all-IsReported [] root w r h = tt
  visit_all-IsReported (v ∷ vs) root w r h = elim (Option-cases (visit true v w).0) [
    | inr (e, x) ↦ ground (arith, x)
    | inl x ↦
        let u = (visit true v w).1 in
        let k : visit_all true (v ∷ vs) w ≡ visit_all true vs u =
          unless_failed-none (λ z. visit_all true vs z) (visit true v w) x in
        let g : (visit_all true vs u).0 ≡ none =
          sym (ap (λ (z : Option Error × Watcher K). z.0) k) ∙ h in
        subst (λ (z : Option Error × Watcher K). All (IsReported root z.1.sent) (v ∷ vs)) (sym k)
          (
            IsReported-keeps root v vs u
                (subst (λ (z : Text). IsReported z u.sent v) r (visit-IsReported v w x)),
            visit_all-IsReported vs root u (visit-root v w ∙ r) g,
          )
  ]

  -- Where a directory that arrives is read to its end without an error, every entry of it is
  -- reported to the loop: a change under its path has been sent, unless it is the root itself.
  pub add_tree-IsReported :
      (path : Text) (w : Watcher K)
      → (add_tree path true w).0 ≡ none
      → All (IsReported w.watches.root (add_tree path true w).1.sent) (K.walk path w.world).0
  unfolding add_tree
  add_tree-IsReported path w h =
      visit_all-IsReported (K.walk path w.world).0 w.watches.root
        (record w { world = (K.walk path w.world).1 }) refl h

  replaced_watches :
      (old : Watches) (r : Option Error × Watcher K)
      → (replaced old r).0 ≡ none
      → is_some (find (replaced old r).1.watches.root (replaced old r).1.watches.by_path) ≡ true
  replaced_watches old (some e, w) h = absurd cc
  replaced_watches old (none, w) h = ground arith

  rebuild_in_watches :
      (fd : Option ℕ) (w : Watcher K)
      → (rebuild_in fd w).0 ≡ none
      → is_some (find (rebuild_in fd w).1.watches.root (rebuild_in fd w).1.watches.by_path) ≡ true
  rebuild_in_watches none w h = absurd cc
  rebuild_in_watches (some fd) w h = replaced_watches w.watches _ h

  -- A watcher that starts, or that is rebuilt without an error, watches its root.
  pub rebuild_watches :
      (w : Watcher K)
      → (rebuild w).0 ≡ none
      → is_some (find (rebuild w).1.watches.root (rebuild w).1.watches.by_path) ≡ true
  unfolding rebuild
  rebuild_watches w h =
      rebuild_in_watches (K.init w.world).0 (record w { world = (K.init w.world).1 }) h
