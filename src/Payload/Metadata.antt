-- ===== src/Payload/Metadata.antt =====
-- src/payload.go: what a path of the batch is promoted to, and when it is left out as metadata.
use rclonewatch.Prelude.{
  true, false, not, ◌&&◌, has_prefix, has_prefix_iff, is_empty, Option, none, some, Text, ◌∷◌, ◌++◌,
  ◌≡◌, ◌≢◌, ◌⊎◌, refl, inl, inr, arith, text_eq_iff, Bool-cases,
}
use rclonewatch.Effect.{Settings, ok, Result-cases}
use rclonewatch.Remote.Run.{protects, local_state_temp_prefix}
use rclonewatch.Payload.Scopes.{Stat, parents, skip, scope, first_valid, promote, normalize}

Option-cases : (o : Option Text) → (o ≡ none) ⊎ ((t : Text) × (o ≡ some t))
Option-cases none = inl refl
Option-cases (some t) = inr (t, refl)

-- The path that one of the batch is promoted to: from the nearest path that can be named, up to where
-- its parent is a directory.
abbrev pub IsPromoted : (Text → Stat) → Text → Text → Type 0
IsPromoted lstat p r =
    (q : Text) × (first_valid (p ∷ parents p) ≡ some q) × (promote lstat q (parents q) ≡ ok r)

-- A state file, or a temporary file of the local one.
abbrev pub IsMetadata : Settings → Text → Type 0
IsMetadata c r =
    ((rest : Text) × (is_empty c.paths.local_filter ≡ false)
      × (r ≡ (c.paths.local_filter ++ local_state_temp_prefix) ++ rest))
    ⊎ ((is_empty r ≡ false) × ((r ≡ c.paths.local_filter) ⊎ (r ≡ c.paths.remote_filter)))

protects-IsMetadata : (c : Settings) (r : Text) → (protects c r).0 ≡ true → IsMetadata c r
unfolding protects
protects-IsMetadata c r h =
    elim (Bool-cases (
      not (is_empty c.paths.local_filter)
      && has_prefix r (c.paths.local_filter ++ local_state_temp_prefix))) [
        | inl temporary ↦
            let x =
              (has_prefix_iff r (c.paths.local_filter ++ local_state_temp_prefix)).0
                (ground (arith, temporary)) in
            inl (x.0, ground (arith, temporary), x.1)
        | inr not_temporary ↦ inr (
            ground (
              arith,
              not_temporary,
              text_eq_iff r c.paths.local_filter,
              text_eq_iff r c.paths.remote_filter,
            ))
      ]

pub normalize-scope :
    (lstat : Text → Stat) (state : Option Settings) (p r : Text)
    → normalize lstat state p ≡ ok (scope r)
    → IsPromoted lstat p r
unfolding normalize
normalize-scope lstat state p r h = elim (Option-cases (first_valid (p ∷ parents p))) [
  | inl e ↦ absurd (ground (arith, e))
  | inr (q, e) ↦ elim (Result-cases (promote lstat q (parents q))) [
    | inr (x, k) ↦ absurd (ground (arith, e, k))
    | inl (s, k) ↦ let same : s ≡ r = ground (arith, e, k) in (q, e, rw (← same) k)
  ]
]

normalize-skip :
    (lstat : Text → Stat) (c : Settings) (p : Text)
    → normalize lstat (some c) p ≡ ok skip
    → (r : Text) × IsPromoted lstat p r × IsMetadata c r
unfolding normalize
normalize-skip lstat c p h = elim (Option-cases (first_valid (p ∷ parents p))) [
  | inl e ↦ absurd (ground (arith, e))
  | inr (q, e) ↦ elim (Result-cases (promote lstat q (parents q))) [
    | inr (x, k) ↦ absurd (ground (arith, e, k))
    | inl (r, k) ↦ (r, (q, e, k), protects-IsMetadata c r (ground (arith, e, k)))
  ]
]

normalize-none : (lstat : Text → Stat) (p : Text) → normalize lstat none p ≢ ok skip
unfolding normalize
normalize-none lstat p h = elim (Option-cases (first_valid (p ∷ parents p))) [
  | inl e ↦ absurd (ground (arith, e))
  | inr (q, e) ↦ elim (Result-cases (promote lstat q (parents q))) [
    | inr (x, k) ↦ absurd (ground (arith, e, k))
    | inl (r, k) ↦ absurd (ground (arith, e, k))
  ]
]

abbrev pub IsSkipped : (Text → Stat) → Option Settings → Text → Type 0
IsSkipped lstat state p =
    (c : Settings) × (r : Text) × (state ≡ some c) × IsPromoted lstat p r × IsMetadata c r

pub normalize-IsSkipped :
    (lstat : Text → Stat) (state : Option Settings) (p : Text)
    → normalize lstat state p ≡ ok skip
    → IsSkipped lstat state p
normalize-IsSkipped lstat none p h = absurd (normalize-none lstat p h)
normalize-IsSkipped lstat (some c) p h =
    let (r, k, m) = normalize-skip lstat c p h in (c, r, refl, k, m)
