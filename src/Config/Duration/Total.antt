-- ===== src/Config/Duration/Total.antt =====
-- The fuel of the loop over the parts is enough.
use rclonewatch.Prelude.{
  ◌≡◌, refl, inl, inr, ℕ, zero, suc, ◌+◌, ◌-◌, ◌*◌, ◌≤◌, ◌<◌, Bool, true, false, not, Option, none,
  some, Text, [], ◌∷◌, length, Bool-cases, arith, ◌==◌,
}
use rclonewatch.Config.Duration.{
  leading_int, leading_fraction, unit_of, Number, number_of, at_point, with_whole, with_unit,
  with_number, one_part, parts_loop, after_part, wrap_u64, is_number_part,
}

leading_int-length :
    (x : ℕ) (s : Text) (n : ℕ) (rest : Text)
    → leading_int x s ≡ some (n, rest)
    → length rest ≤ length s
unfolding leading_int
leading_int-length x [] n rest e = let p : rest ≡ [] = cc in rw p (omega arith)
leading_int-length x (c ∷ s) n rest e =
    ground (arith, leading_int-length (x * 10 + (c - 48)) s n rest)

leading_fraction-length :
    (x scale : ℕ) (over : Bool) (s : Text) → length (leading_fraction x scale over s).2 ≤ length s
unfolding leading_fraction
leading_fraction-length x scale over [] = omega arith
leading_fraction-length x scale over (c ∷ s) = ground (
  arith,
  leading_fraction-length x scale true s,
  leading_fraction-length (x * 10 + (c - 48)) (scale * 10) false s,
)

unit_of-length : (s : Text) → length (unit_of s).0 + length (unit_of s).1 ≡ length s
unfolding unit_of
unit_of-length [] = refl
unit_of-length (c ∷ s) = ground (arith, unit_of-length s)

at_point-length : (v : ℕ) (pre : Bool) (s : Text) → length (at_point v pre s).rest ≤ length s
at_point-length v pre [] = omega arith
at_point-length v pre (c ∷ s) = ground (arith, leading_fraction-length 0 1 false s)

with_whole-length :
    (s : Text) (o : Option (ℕ × Text)) (n : Number)
    → ((v : ℕ) (rest : Text) → o ≡ some (v, rest) → length rest ≤ length s)
    → with_whole s o ≡ some n
    → length n.rest ≤ length s
with_whole-length s none n h e = absurd cc
with_whole-length s (some (v, rest)) n h e =
    let pre = not (length s == length rest) in
    let p : n ≡ at_point v pre rest = cc in
    let a = at_point-length v pre rest in let b = h v rest refl in rw p (omega arith)

number_of-length : (s : Text) (n : Number) → number_of s ≡ some n → length n.rest ≤ length s
unfolding number_of
number_of-length [] n e = absurd cc
number_of-length (c ∷ s) n e = elim (Bool-cases (is_number_part c)) [
  | inl p ↦
      let q : with_whole (c ∷ s) (leading_int 0 (c ∷ s)) ≡ some n = ground arith in
      with_whole-length (c ∷ s) (leading_int 0 (c ∷ s)) n
        (λ v rest k. leading_int-length 0 (c ∷ s) v rest k) q
  | inr p ↦ absurd (ground arith)
]

module _ (fraction_of : ℕ → ℕ → ℕ → ℕ) where
  with_unit-length :
      (n : Number) (u rest : Text) (v : ℕ) (r : Text)
      → with_unit fraction_of n (u, rest) ≡ some (v, r)
      → (r ≡ rest) × (0 < length u)
  with_unit-length n [] rest v r e = absurd (ground arith)
  with_unit-length n (c ∷ u) rest v r e = (ground arith, omega arith)

  with_number-length :
      (s : Text) (o : Option Number) (v : ℕ) (r : Text)
      → ((n : Number) → o ≡ some n → length n.rest ≤ length s)
      → with_number fraction_of o ≡ some (v, r)
      → length r < length s
  unfolding with_number
  with_number-length s none v r h e = absurd cc
  with_number-length s (some n) v r h e =
      let (p, q) = with_unit-length n (unit_of n.rest).0 (unit_of n.rest).1 v r e in
      let a = unit_of-length n.rest in let b = h n refl in rw p (omega arith)

  one_part-length :
      (s : Text) (v : ℕ) (rest : Text)
      → one_part fraction_of s ≡ some (v, rest)
      → length rest < length s
  unfolding one_part
  one_part-length s v rest e = with_number-length s (number_of s) v rest (number_of-length s) e

  after_part-ext :
      (d : ℕ) (f g : ℕ → Text → Option ℕ) (o : Option (ℕ × Text))
      → ((v : ℕ) (rest : Text) → o ≡ some (v, rest) → (k : ℕ) → f k rest ≡ g k rest)
      → after_part d f o ≡ after_part d g o
  after_part-ext d f g none h = refl
  after_part-ext d f g (some (v, rest)) h = rw (h v rest refl (wrap_u64 (d + v))) refl

  -- From a fuel above the length of the text on, the loop over the parts of a duration no longer
  -- depends on the fuel: it ends by itself.
  pub parts_loop_total :
      (fuel d : ℕ) (s : Text)
      → length s < fuel
      → parts_loop fraction_of fuel d s ≡ parts_loop fraction_of (suc fuel) d s
  unfolding parts_loop
  parts_loop_total zero d s h = absurd (omega arith)
  parts_loop_total (suc fuel) d [] h = refl
  parts_loop_total (suc fuel) d (c ∷ s) h =
      after_part-ext d (parts_loop fraction_of fuel) (parts_loop fraction_of (suc fuel))
        (one_part fraction_of (c ∷ s))
        (λ v rest e k.
          let b = one_part-length (c ∷ s) v rest e in parts_loop_total fuel k rest (omega arith))
