-- ===== src/Backend/Version.antt =====
-- Which versions of rclone the check accepts.
use mathlib.Core.List.{append_assoc, append-nil}
use rclonewatch.Prelude.{
  ℕ, suc, ◌+◌, ◌≤◌, ◌<◌, true, false, some, Text, List, [], ◌∷◌, ◌++◌, ◌≡◌, ◌↔◌, ◌⊎◌, refl, sym, ap,
  ◌∙◌, arith, codes, is_space, split, split_loop, ◌==◌, All, All-append, All-map, zero,
}
use rclonewatch.Prelude.Int.{pos}
use rclonewatch.Prelude.Decimal.{decimal, decimal-All, atoi, atoi-decimal, max_int}
use rclonewatch.Effect.{ok}
use rclonewatch.Backend.{
  fields_loop, fields, before, check_numbers, check_parts, check_fields, check_version,
}

before-append :
    (sep : ℕ) (s t : Text)
    → All (λ c. (c == sep) ≡ false) s
    → before sep (s ++ t) ≡ s ++ before sep t
before-append sep [] t h = refl
before-append sep (c ∷ s) t h = rw (h.0, before-append sep s t h.1)

fields_loop-append :
    (acc s t : Text)
    → All (λ c. is_space c ≡ false) s
    → fields_loop acc (s ++ t) ≡ fields_loop (acc ++ s) t
unfolding fields_loop
fields_loop-append acc [] t h = rw append-nil
fields_loop-append acc (c ∷ s) t h =
    rw (h.0) (fields_loop-append (acc ++ (c ∷ [])) s t h.1 ∙ rw append_assoc)

split_loop-append :
    (sep : ℕ) (acc s t : Text)
    → All (λ c. (c == sep) ≡ false) s
    → split_loop sep acc (s ++ (sep ∷ t)) ≡ (acc ++ s) ∷ split_loop sep [] t
unfolding split_loop
split_loop-append sep acc [] t h = let e : (sep == sep) ≡ true = ground arith in rw (e, append-nil)
split_loop-append sep acc (c ∷ s) t h =
    rw (h.0) (split_loop-append sep (acc ++ (c ∷ [])) s t h.1 ∙ rw append_assoc)

-- The first line of `rclone version`, and what follows it.
abbrev pub version_tag : ℕ → ℕ → Text → Text
version_tag major minor tail = b'v' ∷ (decimal major ++ (b'.' ∷ (decimal minor ++ (b'.' ∷ tail))))

abbrev pub version_output : ℕ → ℕ → Text → Text → Text
version_output major minor tail rest =
    codes "rclone " ++ (version_tag major minor tail ++ (10 ∷ rest))

is_recent_iff :
    (major minor : ℕ)
    → (check_numbers (some (pos major)) (some (pos minor)) ≡ ok tt)
      ↔ ((1 < major) ⊎ ((major ≡ 1) × (73 ≤ minor)))
is_recent_iff zero minor = ground arith
is_recent_iff (suc zero) minor = ground arith
is_recent_iff (suc (suc n)) minor = ground arith

module _ (major minor : ℕ) (tail rest : Text) (h : All (λ c. is_space c ≡ false) tail) where
  tag_All :
      (P : ℕ → Type 0) → ((c : ℕ) → is_space c ≡ false → P c) → All P (version_tag major minor tail)
  tag_All P f = (
    f b'v' refl,
    All-append P (decimal major) (b'.' ∷ (decimal minor ++ (b'.' ∷ tail)))
        (decimal-All P major λ d b. f (48 + d) (ground arith))
        (
          f b'.' refl,
          All-append P (decimal minor) (b'.' ∷ tail)
              (decimal-All P minor λ d b. f (48 + d) (ground arith))
              (f b'.' refl, All-map (λ c. is_space c ≡ false) P tail f h),
        ),
  )

  line_eq :
      before 10 (version_output major minor tail rest)
      ≡ codes "rclone " ++ version_tag major minor tail
  line_eq =
      ap (λ (u : Text). codes "rclone " ++ u)
        (before-append 10 (version_tag major minor tail) (10 ∷ rest)
            (tag_All (λ c. (c == 10) ≡ false) (λ c p. ground (arith, p)))
          ∙ append-nil (version_tag major minor tail))

  fields_eq :
      fields (codes "rclone " ++ version_tag major minor tail)
      ≡ codes "rclone" ∷ version_tag major minor tail ∷ []
  unfolding fields
  fields_eq =
      ap (λ (u : List Text). codes "rclone" ∷ u)
        (ap (fields_loop []) (sym (append-nil (version_tag major minor tail)))
          ∙ fields_loop-append [] (version_tag major minor tail) []
              (tag_All (λ c. is_space c ≡ false) (λ c p. p))
          ∙ one_field)
    where
      one_field : fields_loop (version_tag major minor tail) [] ≡ version_tag major minor tail ∷ []
      one_field = refl

  parts_eq :
      split b'.' (before b'-' (decimal major ++ (b'.' ∷ (decimal minor ++ (b'.' ∷ tail)))))
      ≡ decimal major ∷ decimal minor ∷ split b'.' (before b'-' tail)
  unfolding split
  parts_eq =
      rw
        (
          before-append b'-' (decimal major) (b'.' ∷ (decimal minor ++ (b'.' ∷ tail)))
              (decimal-All (λ c. (c == b'-') ≡ false) major (λ d b. ground arith)),
          before-append b'-' (decimal minor) (b'.' ∷ tail)
              (decimal-All (λ c. (c == b'-') ≡ false) minor (λ d b. ground arith)),
        )
        (split_loop-append b'.' [] (decimal major) (decimal minor ++ (b'.' ∷ before b'-' tail))
            (decimal-All (λ c. (c == b'.') ≡ false) major (λ d b. ground arith))
          ∙ ap (λ (u : List Text). decimal major ∷ u)
              (split_loop-append b'.' [] (decimal minor) (before b'-' tail)
                (decimal-All (λ c. (c == b'.') ≡ false) minor (λ d b. ground arith))))

  check_version_eq :
      check_version (version_output major minor tail rest)
      ≡ check_numbers (atoi (decimal major)) (atoi (decimal minor))
  unfolding check_version
  check_version_eq =
      ap (λ (u : Text). check_fields (fields u)) line_eq
      ∙ ap check_fields fields_eq
      ∙ ap check_parts parts_eq

  -- A release of rclone, whatever stands behind its minor version and on the later lines, is accepted
  -- exactly from 1.73 on.
  pub check_version_iff :
      major ≤ max_int
      → minor ≤ max_int
      → (check_version (version_output major minor tail rest) ≡ ok tt)
        ↔ ((1 < major) ⊎ ((major ≡ 1) × (73 ≤ minor)))
  check_version_iff a b =
      rw (check_version_eq, atoi-decimal major a, atoi-decimal minor b) (is_recent_iff major minor)
