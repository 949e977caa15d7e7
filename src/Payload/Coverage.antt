-- ===== src/Payload/Coverage.antt =====
-- The scopes of a sync cover the changes of the batch.
use rclonewatch.Prelude.{
  true, ◌||◌, Option, none, some, Text, List, [], ◌∷◌, ◌++◌, ◌≡◌, ◌≢◌, ◌⊎◌, refl, ◌∙◌, inl, inr,
  arith, text_eq, text_eq_iff, text_eq_refl, mem_text, Bool-cases,
}
use rclonewatch.Effect.{Settings, Result, ok, err, Result-cases}
use rclonewatch.Path.Clean.{dot}
use rclonewatch.Payload.Scopes.{
  Stat, parents, Normal, whole, skip, scope, normalize, normalize_all, keep, insert, sort, mem_any,
  covered, select, reconciliation_scopes,
}
use rclonewatch.Payload.Metadata.{IsPromoted, IsMetadata, normalize-scope, normalize-IsSkipped}

-- All of the first texts are among the second.
abbrev pub Within : List Text → List Text → Type 0
Within s t = (p : Text) → mem_text p s ≡ true → mem_text p t ≡ true

mem_any-Within : (ps s t : List Text) → Within s t → mem_any ps s ≡ true → mem_any ps t ≡ true
unfolding mem_any
mem_any-Within [] s t w h = h
mem_any-Within (p ∷ ps) s t w h = ground (arith, w p, mem_any-Within ps s t w)

pub covered-Within :
    (s t : List Text) (p : Text) → Within s t → covered s p ≡ true → covered t p ≡ true
unfolding covered
covered-Within s t p w h = ground (arith, w p, mem_any-Within (parents p) s t w)

pub covered_self : (p : Text) (s : List Text) → covered (p ∷ s) p ≡ true
unfolding covered mem_text
covered_self p s = ground (arith, text_eq_refl p)

pub mem-append_right :
    (p : Text) (s t : List Text) → mem_text p t ≡ true → mem_text p (s ++ t) ≡ true
unfolding mem_text
mem-append_right p [] t h = h
mem-append_right p (q ∷ s) t h = ground (arith, mem-append_right p s t h)

mem_text-swap :
    (p q : Text) (s t : List Text)
    → mem_text p (s ++ (q ∷ t)) ≡ (text_eq q p || mem_text p (s ++ t))
unfolding mem_text
mem_text-swap p q [] t = refl
mem_text-swap p q (r ∷ s) t = ground (arith, mem_text-swap p q s t)

cons_of_swap :
    (p q : Text) (s t : List Text)
    → mem_text p (s ++ (q ∷ t)) ≡ true
    → mem_text p (q ∷ (s ++ t)) ≡ true
unfolding mem_text
cons_of_swap p q s t h = ground (arith, mem_text-swap p q s t)

pub not-mem_text-nil : (p : Text) → mem_text p [] ≢ true
unfolding mem_text
not-mem_text-nil p h = cc

pub mem-cons_text :
    (p q : Text) (ps : List Text) → mem_text p (q ∷ ps) ≡ true → (q ≡ p) ⊎ (mem_text p ps ≡ true)
unfolding mem_text
mem-cons_text p q ps h = ground (arith, text_eq_iff q p)

-- What `select` passes over or takes is covered in the end.
select-covers :
    (selected ps : List Text) (p : Text)
    → mem_text p ps ≡ true
    → covered (select selected ps ++ selected) p ≡ true
unfolding select
select-covers selected [] p h = absurd (not-mem_text-nil p h)
select-covers selected (q ∷ ps) p h = elim (Bool-cases (covered selected q)) [
  | inl old ↦ rw old (elim (mem-cons_text p q ps h) [
    | inr m ↦ select-covers selected ps p m
    | inl e ↦
        covered-Within selected (select selected ps ++ selected) p
          (λ r. mem-append_right r (select selected ps) selected) (rw (← e) old)
  ])
  | inr new ↦ rw new (elim (mem-cons_text p q ps h) [
    | inl e ↦ rw (← e) (covered_self q (select (q ∷ selected) ps ++ selected))
    | inr m ↦
        covered-Within (select (q ∷ selected) ps ++ (q ∷ selected))
          (q ∷ (select (q ∷ selected) ps ++ selected)) p
          (λ r k. cons_of_swap r q (select (q ∷ selected) ps) selected k)
          (select-covers (q ∷ selected) ps p m)
  ])
]

pub append-nil_text : (s : List Text) → s ++ [] ≡ s
append-nil_text [] = refl
append-nil_text (_ ∷ s) = rw (append-nil_text s)

-- Sorting keeps every path.
pub mem-insert :
    (p q : Text) (ps : List Text) → mem_text p (insert q ps) ≡ (text_eq q p || mem_text p ps)
unfolding insert mem_text
mem-insert p q [] = refl
mem-insert p q (r ∷ ps) = ground (arith, mem-insert p q ps)

pub mem-sort : (p : Text) (ps : List Text) → mem_text p (sort ps) ≡ mem_text p ps
unfolding sort mem_text
mem-sort p [] = refl
mem-sort p (q ∷ ps) = mem-insert p q (sort ps) ∙ rw (mem-sort p ps)

-- What the loop over the batch has made of a path of it.
abbrev Handled : (Text → Stat) → Option Settings → Text → List Text → Type 0
Handled lstat state p ns =
    (normalize lstat state p ≡ ok skip)
    ⊎ ((r : Text) × (normalize lstat state p ≡ ok (scope r)) × (mem_text r ns ≡ true))

Handled-cons :
    (lstat : Text → Stat) (state : Option Settings) (p q : Text) (ns : List Text)
    → Handled lstat state p ns
    → Handled lstat state p (q ∷ ns)
unfolding mem_text
Handled-cons lstat state p q ns (inl h) = inl h
Handled-cons lstat state p q ns (inr (r, e, m)) = inr (r, e, ground arith)

keep-some :
    (n : Normal) (rest : Result (Option (List Text))) {ns : List Text}
    → keep n rest ≡ ok (some ns)
    → ((n ≡ skip) × (rest ≡ ok (some ns)))
      ⊎ ((r : Text) × (ms : List Text) × (n ≡ scope r) × (rest ≡ ok (some ms)) × (ns ≡ r ∷ ms))
keep-some whole rest h = cc
keep-some skip rest h = inl (refl, h)
keep-some (scope r) (ok (some ms)) h = inr (r, ms, refl, refl, ground arith)
keep-some (scope r) (ok none) h = cc
keep-some (scope r) (err e) h = cc

normalize_all-Handled :
    (lstat : Text → Stat) (state : Option Settings) (paths : List Text) (p : Text) {ns : List Text}
    → normalize_all lstat state paths ≡ ok (some ns)
    → mem_text p paths ≡ true
    → Handled lstat state p ns
unfolding normalize_all mem_text
normalize_all-Handled lstat state [] p e m = cc
normalize_all-Handled lstat state (q ∷ paths) p {ns} e m =
    elim (Result-cases (normalize lstat state q)) [
      | inr (f, k) ↦ absurd (ground (arith, k))
      | inl (n, k) ↦
          elim (keep-some n (normalize_all lstat state paths) {ns = ns} (ground (arith, k))) [
            | inl (sk, rest) ↦ elim (mem-cons_text p q paths m) [
              | inl same ↦ inl (cc)
              | inr old ↦ normalize_all-Handled lstat state paths p {ns = ns} rest old
            ]
            | inr (r, ms, sc, rest, shape) ↦ elim (mem-cons_text p q paths m) [
              | inl same ↦ inr (r, (cc), ground (arith, text_eq_refl r))
              | inr old ↦ rw shape (
                  Handled-cons lstat state p r ms
                    (normalize_all-Handled lstat state paths p {ns = ms} rest old))
            ]
          ]
    ]

-- Each path of the batch is accounted for. The sync visits the whole root; or the path is promoted to a
-- state file, or to a temporary file of the local one; or it is promoted to a path that is one of
-- the scopes or lies below one.
pub reconciliation_scopes_cover :
    (lstat : Text → Stat) (state : Option Settings) (paths : List Text) (p : Text)
    {scopes : List Text}
    → reconciliation_scopes lstat state paths ≡ ok scopes
    → mem_text p paths ≡ true
    → (scopes ≡ dot ∷ [])
      ⊎ ((c : Settings) × (r : Text) × (state ≡ some c) × IsPromoted lstat p r × IsMetadata c r)
      ⊎ ((r : Text) × IsPromoted lstat p r × (covered scopes r ≡ true))
unfolding reconciliation_scopes
reconciliation_scopes_cover lstat state paths p {scopes} e m =
    elim (Result-cases (normalize_all lstat state paths)) [
      | inr (f, k) ↦ absurd (ground (arith, k))
      | inl (none, k) ↦ inl (ground (arith, k))
      | inl (some ns, k) ↦
          let shape : scopes ≡ select [] (sort ns) = ground (arith, k) in
          elim (normalize_all-Handled lstat state paths p {ns = ns} k m) [
            | inl sk ↦ inr (inl (normalize-IsSkipped lstat state p sk))
            | inr (r, n, mem) ↦
                let c = select-covers [] (sort ns) r (mem-sort r ns ∙ mem) in
                inr (
                  inr (
                    r,
                    normalize-scope lstat state p r n,
                    rw (shape, ← append-nil_text (select [] (sort ns))) c,
                  ))
          ]
    ]
