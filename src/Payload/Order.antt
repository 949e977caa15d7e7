-- ===== src/Payload/Order.antt =====
-- The scopes of a batch do not depend on the order of its paths, in which Go iterates over a map.
use mathlib.Core.List.{Permᴰ}
use rclonewatch.Prelude.{
  Bool, true, false, ◌||◌, Option, none, some, Text, List, [], ◌∷◌, ◌≡◌, ◌⊎◌, refl, sym, ap, ◌∙◌,
  inl, inr, arith, text_le,
}
use rclonewatch.Effect.{Settings, Result, ok, err, Result-cases}
use rclonewatch.Path.Clean.{dot}
use rclonewatch.Payload.Scopes.{
  Stat, Normal, whole, skip, scope, normalize, normalize_all, keep, insert, sort, select,
  reconciliation_scopes,
}

pub text_le_total : (s t : Text) → (text_le s t ≡ true) ⊎ (text_le t s ≡ true)
unfolding text_le
text_le_total [] t = inl refl
text_le_total (a ∷ s) [] = inr refl
text_le_total (a ∷ s) (b ∷ t) = ground (arith, text_le_total s t)

pub text_le_antisym : (s t : Text) → text_le s t ≡ true → text_le t s ≡ true → s ≡ t
unfolding text_le
text_le_antisym [] [] h k = refl
text_le_antisym [] (b ∷ t) h k = absurd cc
text_le_antisym (a ∷ s) [] h k = absurd cc
text_le_antisym (a ∷ s) (b ∷ t) h k =
    let e : a ≡ b = ground arith in
    let r : s ≡ t = text_le_antisym s t (ground (arith, e)) (ground (arith, e)) in rw (e, r) refl

pub text_le_trans : (s t u : Text) → text_le s t ≡ true → text_le t u ≡ true → text_le s u ≡ true
unfolding text_le
text_le_trans [] t u h k = refl
text_le_trans (a ∷ s) [] u h k = absurd cc
text_le_trans (a ∷ s) (b ∷ t) [] h k = absurd cc
text_le_trans (a ∷ s) (b ∷ t) (c ∷ u) h k = ground (arith, text_le_trans s t u)

insert-swap : (p q : Text) (l : List Text) → insert p (insert q l) ≡ insert q (insert p l)
unfolding insert
insert-swap p q [] = ground (arith, text_le_total p q, text_le_antisym p q)
insert-swap p q (r ∷ l) = ground (
  arith,
  text_le_total p q,
  text_le_antisym p q,
  text_le_total p r,
  text_le_total q r,
  text_le_trans p q r,
  text_le_trans q p r,
  insert-swap p q l,
)

module _ (lstat : Text → Stat) (state : Option Settings) where
  abbrev add_scope : Result Normal → List Text → List Text
  add_scope (ok (scope p)) ps = p ∷ ps
  add_scope _ ps = ps

  scopes_of : List Text → List Text
  scopes_of [] = []
  scopes_of (p ∷ ps) = add_scope (normalize lstat state p) (scopes_of ps)

  abbrev is_whole : Result Normal → Bool
  is_whole (ok whole) = true
  is_whole _ = false

  any_whole : List Text → Bool
  any_whole [] = false
  any_whole (p ∷ ps) = is_whole (normalize lstat state p) || any_whole ps

  abbrev insert_scope : Result Normal → List Text → List Text
  unfolding insert
  insert_scope (ok (scope p)) ps = insert p ps
  insert_scope _ ps = ps

  sort-add_scope :
      (r : Result Normal) (ps : List Text) → sort (add_scope r ps) ≡ insert_scope r (sort ps)
  unfolding sort insert_scope
  sort-add_scope (err e) ps = refl
  sort-add_scope (ok whole) ps = refl
  sort-add_scope (ok skip) ps = refl
  sort-add_scope (ok (scope p)) ps = refl

  insert_scope-swap :
      (r s : Result Normal) (ps : List Text)
      → insert_scope r (insert_scope s ps) ≡ insert_scope s (insert_scope r ps)
  unfolding insert_scope
  insert_scope-swap (ok (scope p)) (ok (scope q)) ps = insert-swap p q ps
  insert_scope-swap (ok (scope p)) (ok whole) ps = refl
  insert_scope-swap (ok (scope p)) (ok skip) ps = refl
  insert_scope-swap (ok (scope p)) (err e) ps = refl
  insert_scope-swap (ok whole) s ps = refl
  insert_scope-swap (ok skip) s ps = refl
  insert_scope-swap (err e) s ps = refl

  sort_two :
      (r s : Result Normal) (ps : List Text)
      → sort (add_scope r (add_scope s ps)) ≡ insert_scope r (insert_scope s (sort ps))
  sort_two r s ps = sort-add_scope r (add_scope s ps) ∙ ap (insert_scope r) (sort-add_scope s ps)

  or_swap : (a b w : Bool) → (a || (b || w)) ≡ (b || (a || w))
  or_swap a b w = ground arith

  -- The sorted scopes, and whether one path asks for the whole root, in another order of the paths.
  sort_reordered :
      {ps qs : List Text}
      → Permᴰ ps qs
      → (sort (scopes_of ps) ≡ sort (scopes_of qs)) × (any_whole ps ≡ any_whole qs)
  unfolding scopes_of any_whole
  sort_reordered Permᴰ.nil = (refl, refl)
  sort_reordered (Permᴰ.cons {a = a} {b = b} {l₁ = ps} {l₂ = qs} e d) =
      let h = sort_reordered d in
      let r = normalize lstat state b in
      rw e (
        sort-add_scope r (scopes_of ps)
            ∙ ap (insert_scope r) h.0
            ∙ sym (sort-add_scope r (scopes_of qs)),
        ap (λ (w : Bool). is_whole r || w) h.1,
      )
  sort_reordered (Permᴰ.swap {a = a} {b = b} {a' = a'} {b' = b'} {l = l} e f) =
      let r = normalize lstat state a in
      let s = normalize lstat state b in
      rw (sym e, sym f)
        (
          sort_two r s (scopes_of l)
              ∙ insert_scope-swap r s (sort (scopes_of l))
              ∙ sym (sort_two s r (scopes_of l)),
          or_swap (is_whole r) (is_whole s) (any_whole l),
        )
  sort_reordered (Permᴰ.trans d e) =
      let h = sort_reordered d in let k = sort_reordered e in (h.0 ∙ k.0, h.1 ∙ k.1)

  abbrev Keeps : List Text → Bool → Option (List Text) → Type 0
  Keeps ps w x = ((x ≡ none) × (w ≡ true)) ⊎ ((x ≡ some ps) × (w ≡ false))

  keep-Keeps :
      (r : Result Normal) (rest : Result (Option (List Text))) (ps : List Text) (w : Bool)
      (x : Option (List Text))
      → (elim r [ err e ↦ err e | ok n ↦ keep n rest ]) ≡ ok x
      → ((y : Option (List Text)) → rest ≡ ok y → Keeps ps w y)
      → Keeps (add_scope r ps) (is_whole r || w) x
  keep-Keeps (err e) rest ps w x h k = absurd cc
  keep-Keeps (ok whole) rest ps w x h k = inl (cc, refl)
  keep-Keeps (ok skip) rest ps w x h k = k x h
  keep-Keeps (ok (scope p)) (err e) ps w x h k = absurd cc
  keep-Keeps (ok (scope p)) (ok none) ps w x h k = elim (k none refl) [
    | inl q ↦ inl (cc, q.1)
    | inr q ↦ absurd cc
  ]
  keep-Keeps (ok (scope p)) (ok (some qs)) ps w x h k = elim (k (some qs) refl) [
    | inl q ↦ absurd cc
    | inr q ↦ inr (cc, q.1)
  ]

  normalize_all-Keeps :
      (ps : List Text) (x : Option (List Text))
      → normalize_all lstat state ps ≡ ok x
      → Keeps (scopes_of ps) (any_whole ps) x
  unfolding normalize_all scopes_of any_whole
  normalize_all-Keeps [] x h = inr (cc, refl)
  normalize_all-Keeps (p ∷ ps) x h =
      keep-Keeps (normalize lstat state p) (normalize_all lstat state ps) (scopes_of ps)
        (any_whole ps) x h (normalize_all-Keeps ps)

  abbrev final_scopes : Option (List Text) → List Text
  unfolding select sort
  final_scopes none = dot ∷ []
  final_scopes (some ps) = select [] (sort ps)

  reconciliation_scopes_ok :
      (ps s : List Text)
      → reconciliation_scopes lstat state ps ≡ ok s
      → (x : Option (List Text)) × (normalize_all lstat state ps ≡ ok x) × (s ≡ final_scopes x)
  unfolding reconciliation_scopes final_scopes
  reconciliation_scopes_ok ps s h = elim (Result-cases (normalize_all lstat state ps)) [
    | inr (e, q) ↦ absurd (ground (arith, q))
    | inl (none, q) ↦ (none, q, ground (arith, q))
    | inl (some qs, q) ↦ (some qs, q, ground (arith, q))
  ]

  -- Where a batch gives scopes in two orders of its paths, they are the same scopes: the order in which
  -- the map of the pending changes is gone through does not matter.
  pub reconciliation_scopes_reordered :
      (ps qs s t : List Text)
      → Permᴰ ps qs
      → reconciliation_scopes lstat state ps ≡ ok s
      → reconciliation_scopes lstat state qs ≡ ok t
      → s ≡ t
  unfolding final_scopes
  reconciliation_scopes_reordered ps qs s t d g h =
      let (x, p, e) = reconciliation_scopes_ok ps s g in
      let (y, q, f) = reconciliation_scopes_ok qs t h in
      let (same, w) = sort_reordered d in
      elim (normalize_all-Keeps ps x p) [
        | inl k ↦ elim (normalize_all-Keeps qs y q) [ inl l ↦ cc | inr l ↦ absurd cc ]
        | inr k ↦ elim (normalize_all-Keeps qs y q) [
          | inl l ↦ absurd cc
          | inr l ↦
              e
              ∙ ap final_scopes k.0
              ∙ ap (λ (u : List Text). select [] u) same
              ∙ sym (f ∙ ap final_scopes l.0)
        ]
      ]
