-- ===== src/Payload/Apart.antt =====
-- The scopes of a sync do not overlap: src/payload.go sorts the paths, so that an ancestor comes
-- before what lies below it, and passes over what a chosen scope covers.
use rclonewatch.Prelude.{
  ◌≡◌, ◌⊎◌, refl, inl, inr, arith, true, false, Bool-cases, Option, none, some, Text, List, [], ◌∷◌,
  ◌++◌, text_eq, text_eq_iff, mem_text, text_le, ◌==◌,
}
use rclonewatch.Effect.{Settings, ok, Result-cases}
use rclonewatch.Path.Clean.{slash, dot}
use rclonewatch.Payload.Scopes.{
  Stat, parents_loop, parents, normalize_all, insert, sort, mem_any, covered, select,
  reconciliation_scopes,
}
use rclonewatch.Payload.Order.{text_le_total, text_le_antisym, text_le_trans}
use rclonewatch.Payload.Coverage.{
  Within, covered-Within, covered_self, mem-cons_text, not-mem_text-nil, mem-insert,
}

text_le-append : (s t : Text) → text_le s (s ++ t) ≡ true
unfolding text_le
text_le-append [] t = refl
text_le-append (a ∷ s) t = ground (arith, text_le-append s t)

append_step : (s : Text) (a : _) (t : Text) → (s ++ (a ∷ [])) ++ t ≡ s ++ (a ∷ t)
append_step [] a t = refl
append_step (b ∷ s) a t = rw (append_step s a t)

parents_loop-le :
    (front : Text) (found : List Text) (p q : Text)
    → mem_text q (parents_loop front found p) ≡ true
    → (mem_text q found ≡ true) ⊎ (text_le q (front ++ p) ≡ true)
unfolding parents_loop
parents_loop-le front found [] q m = inl m
parents_loop-le front found (a ∷ p) q m = elim (Bool-cases (a == slash)) [
  | inr other ↦ elim (parents_loop-le (front ++ (a ∷ [])) found p q (rw other at m)) [
    | inl x ↦ inl x
    | inr x ↦ inr (rw append_step at x)
  ]
  | inl same ↦ elim (parents_loop-le (front ++ (a ∷ [])) (front ∷ found) p q (rw same at m)) [
    | inr x ↦ inr (rw append_step at x)
    | inl x ↦ elim (mem-cons_text q front found x) [
      | inl e ↦ inr (rw (← e) (text_le-append front (a ∷ p)))
      | inr old ↦ inl old
    ]
  ]
]

-- An ancestor sorts before what lies below it.
parents-le : (p q : Text) → mem_text q (parents p) ≡ true → text_le q p ≡ true
unfolding parents
parents-le p q m = elim (parents_loop-le [] [] p q m) [
  | inl x ↦ absurd (not-mem_text-nil q x)
  | inr x ↦ x
]

abbrev AllAbove : Text → List Text → Type 0
AllAbove p ps = (q : Text) → mem_text q ps ≡ true → text_le p q ≡ true

abbrev IsSorted : List Text → Type 0
IsSorted [] = Unit
IsSorted (p ∷ ps) = AllAbove p ps × IsSorted ps

le-insert :
    (p q r : Text) (ps : List Text)
    → text_le r p ≡ true
    → AllAbove r ps
    → mem_text q (insert p ps) ≡ true
    → text_le r q ≡ true
le-insert p q r ps h k m = ground (arith, mem-insert q p ps, text_eq_iff p q, k q)

insert-IsSorted : (p : Text) (ps : List Text) → IsSorted ps → IsSorted (insert p ps)
unfolding insert
insert-IsSorted p [] s = (λ q m. absurd (not-mem_text-nil q m), tt)
insert-IsSorted p (r ∷ ps) s = elim (Bool-cases (text_le p r)) [
  | inl small ↦ rw small (
    λ q m. elim (mem-cons_text q r ps m) [
      | inl e ↦ rw (← e) small
      | inr x ↦ text_le_trans p r q small (s.0 q x)
    ],
    s,
  )
  | inr big ↦ rw big (
    λ q m. le-insert p q r ps (ground (arith, big, text_le_total p r)) (s.0) m,
    insert-IsSorted p ps s.1,
  )
]

sort-IsSorted : (ps : List Text) → IsSorted (sort ps)
unfolding sort
sort-IsSorted [] = tt
sort-IsSorted (p ∷ ps) = insert-IsSorted p (sort ps) (sort-IsSorted ps)

covered-Within-false :
    (s t : List Text) (p : Text) → Within s t → covered t p ≡ false → covered s p ≡ false
covered-Within-false s t p w h = elim (Bool-cases (covered s p)) [
  | inr x ↦ x
  | inl x ↦ absurd (cc (covered-Within s t p w x))
]

Within-cons : (p : Text) (s : List Text) → Within s (p ∷ s)
unfolding mem_text
Within-cons p s q m = ground arith

Within-single : (p : Text) (s : List Text) → Within (p ∷ []) (p ∷ s)
unfolding mem_text
Within-single p s q m = ground arith

-- What is chosen stands in the list, and nothing chosen before covers it.
mem-select :
    (selected ps : List Text) (q : Text)
    → mem_text q (select selected ps) ≡ true
    → (mem_text q ps ≡ true) × (covered selected q ≡ false)
unfolding select mem_text
mem-select selected [] q m = cc
mem-select selected (p ∷ ps) q m = elim (Bool-cases (covered selected p)) [
  | inl old ↦ let r = mem-select selected ps q (ground (arith, old)) in (ground (arith, r.0), r.1)
  | inr new ↦ elim (mem-cons_text q p (select (p ∷ selected) ps) (ground (arith, new))) [
    | inl e ↦ (ground (arith, text_eq_iff p q), rw (← e) new)
    | inr x ↦
        let r = mem-select (p ∷ selected) ps q x in
        (
          ground (arith, r.0),
          covered-Within-false selected (p ∷ selected) q (Within-cons p selected) r.1,
        )
  ]
]

mem_any-single : (q : Text) (ps : List Text) → mem_any ps (q ∷ []) ≡ true → mem_text q ps ≡ true
unfolding mem_any mem_text
mem_any-single q [] h = cc
mem_any-single q (p ∷ ps) h = ground (arith, mem_any-single q ps, text_eq_iff q p, text_eq_iff p q)

covered-single : (p q : Text) → covered (q ∷ []) p ≡ true → text_le q p ≡ true
unfolding covered mem_text
covered-single p q h = elim (Bool-cases (text_eq q p)) [
  | inl e ↦ ground (arith, e, text_eq_iff q p, text_le_total p p)
  | inr n ↦ parents-le p q (mem_any-single q (parents p) (ground (arith, n)))
]

-- Neither of the two is the other or an ancestor of it.
abbrev pub IsApart : Text → Text → Type 0
IsApart p q = (covered (p ∷ []) q ≡ false) × (covered (q ∷ []) p ≡ false)

abbrev pub PairwiseApart : List Text → Type 0
PairwiseApart [] = Unit
PairwiseApart (p ∷ ps) = ((q : Text) → mem_text q ps ≡ true → IsApart p q) × PairwiseApart ps

IsApart-later : (p q : Text) → text_le p q ≡ true → covered (p ∷ []) q ≡ false → IsApart p q
IsApart-later p q le new = elim (Bool-cases (covered (q ∷ []) p)) [
  | inr x ↦ (new, x)
  | inl x ↦
      let e : p ≡ q = text_le_antisym p q le (covered-single p q x) in
      let c : covered (p ∷ []) q ≡ true = rw (← e) (covered_self p []) in
      absurd (ground (arith, new, c))
]

select-PairwiseApart : (selected ps : List Text) → IsSorted ps → PairwiseApart (select selected ps)
unfolding select
select-PairwiseApart selected [] s = tt
select-PairwiseApart selected (p ∷ ps) s = elim (Bool-cases (covered selected p)) [
  | inl old ↦ rw old (select-PairwiseApart selected ps s.1)
  | inr new ↦ rw new (
    λ q m.
        let r = mem-select (p ∷ selected) ps q m in
        IsApart-later p q (s.0 q r.0)
          (covered-Within-false (p ∷ []) (p ∷ selected) q (Within-single p selected) r.1),
    select-PairwiseApart (p ∷ selected) ps s.1,
  )
]

-- No two scopes of a sync overlap: of any two of them, neither is the other or an ancestor of it,
-- whichever comes first.
pub reconciliation_scopes-PairwiseApart :
    (lstat : Text → Stat) (state : Option Settings) (paths : List Text) {scopes : List Text}
    → reconciliation_scopes lstat state paths ≡ ok scopes
    → PairwiseApart scopes
unfolding reconciliation_scopes
reconciliation_scopes-PairwiseApart lstat state paths {scopes} e =
    elim (Result-cases (normalize_all lstat state paths)) [
      | inr (f, k) ↦ absurd (ground (arith, k))
      | inl (none, k) ↦
          let shape : scopes ≡ dot ∷ [] = ground (arith, k) in
          rw shape (λ q m. absurd (not-mem_text-nil q m), tt)
      | inl (some ns, k) ↦
          let shape : scopes ≡ select [] (sort ns) = ground (arith, k) in
          rw shape (select-PairwiseApart [] (sort ns) (sort-IsSorted ns))
    ]
