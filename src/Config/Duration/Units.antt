-- ===== src/Config/Duration/Units.antt =====
-- A whole number with its unit is read as the duration that it stands for.
use rclonewatch.Prelude.{
  ◌≡◌, ◌≢◌, refl, ap, ◌∙◌, ℕ, suc, ◌+◌, ◌-◌, ◌*◌, ◌/◌, ◌≤◌, true, false, some, Text, [], ◌∷◌, ◌++◌,
  ltb, length, length-append, text_eq, codes, All, arith, ◌==◌,
}
use rclonewatch.Prelude.Decimal.{
  is_digit, IsDigit, decimal, decimal-All, decimal_nonempty, digits_loop, digits_loop-decimal,
  max_int,
}
use rclonewatch.Prelude.Int.{pos}
use rclonewatch.Config.Duration.{
  leading_int, unit_of, Number, number_of, with_whole, with_number, one_part, parts_loop,
  after_part, is_number_part, unsigned_duration, positive, parse_duration, two_63, wrap_u64,
}

-- The units that `--lock-wait` takes.
pub data Unit3 : Type 0 where
  seconds : Unit3
  minutes : Unit3
  hours : Unit3

abbrev pub unit_code : Unit3 → ℕ
unit_code seconds = b's'
unit_code minutes = b'm'
unit_code hours = b'h'

abbrev pub nanoseconds : Unit3 → ℕ
nanoseconds seconds = 1000000000
nanoseconds minutes = 60000000000
nanoseconds hours = 3600000000000

digits_loop_above : (x : ℕ) (s : Text) (n : ℕ) → digits_loop x s ≡ some n → x ≤ n
unfolding digits_loop
digits_loop_above x [] n e = let p : x ≡ n = cc in omega arith
digits_loop_above x (c ∷ s) n e = ground (arith, digits_loop_above (x * 10 + (c - 48)) s n)

leading_int-digits :
    (x : ℕ) (s : Text) (n u : ℕ)
    → All IsDigit s
    → digits_loop x s ≡ some n
    → n ≤ max_int
    → is_digit u ≡ false
    → leading_int x (s ++ (u ∷ [])) ≡ some (n, u ∷ [])
unfolding leading_int digits_loop
leading_int-digits x [] n u d e b h = let p : x ≡ n = cc in rw (h, p) refl
leading_int-digits x (c ∷ s) n u d e b h =
    let p : is_digit c ≡ true = ground (arith, d.0) in
    let q : digits_loop (x * 10 + (c - 48)) s ≡ some n = ground arith in
    let a = digits_loop_above (x * 10 + (c - 48)) s n q in
    let l : ltb (two_63 / 10) x ≡ false = ground (arith, a, b) in
    let m : ltb two_63 (x * 10 + (c - 48)) ≡ false = ground (arith, a, b) in
    rw (p, l, m) (leading_int-digits (x * 10 + (c - 48)) s n u d.1 q b h)

abbrev read_number : ℕ → Unit3 → Number
read_number n k = record { whole = n; fraction = 0; scale = 1; any = true; rest = unit_code k ∷ [] }

more_digits : (c : ℕ) (ds : Text) (u : ℕ) → (length (c ∷ (ds ++ (u ∷ []))) == 1) ≡ false
more_digits c ds u = let p = length-append ds (u ∷ []) in ground (arith, p)

longer_text : (c : ℕ) (ds : Text) (u : ℕ) → text_eq (c ∷ (ds ++ (u ∷ []))) (codes "0") ≡ false
unfolding text_eq
longer_text c [] u = ground arith
longer_text c (d ∷ ds) u = ground arith

unit_is_no_digit :
    (k : Unit3) → (is_digit (unit_code k) ≡ false) × (is_number_part (unit_code k) ≡ false)
unit_is_no_digit seconds = (refl, refl)
unit_is_no_digit minutes = (refl, refl)
unit_is_no_digit hours = (refl, refl)

with_whole_eq :
    (s : Text) (n : ℕ) (k : Unit3)
    → (length s == 1) ≡ false
    → with_whole s (some (n, unit_code k ∷ [])) ≡ some (read_number n k)
with_whole_eq s n seconds h = rw h refl
with_whole_eq s n minutes h = rw h refl
with_whole_eq s n hours h = rw h refl

small : (n : ℕ) (k : Unit3) → n * nanoseconds k ≤ max_int → n ≤ max_int
small n seconds b = omega arith
small n minutes b = omega arith
small n hours b = omega arith

module _ (fraction_of : ℕ → ℕ → ℕ → ℕ) where
  with_number_eq :
      (n : ℕ) (k : Unit3)
      → n * nanoseconds k ≤ max_int
      → with_number fraction_of (some (read_number n k)) ≡ some (n * nanoseconds k, [])
  unfolding with_number text_eq unit_of
  with_number_eq n seconds h =
      let p : ltb (two_63 / 1000000000) n ≡ false = ground arith in rw p refl
  with_number_eq n minutes h =
      let p : ltb (two_63 / 60000000000) n ≡ false = ground arith in rw p refl
  with_number_eq n hours h =
      let p : ltb (two_63 / 3600000000000) n ≡ false = ground arith in rw p refl

  positive_eq : (v : ℕ) → v ≤ max_int → positive fraction_of (some v) ≡ some (pos v)
  positive_eq v h = let r : ltb max_int v ≡ false = ground arith in rw r refl

  sum_eq :
      (fuel v : ℕ)
      → v ≤ max_int
      → after_part 0 (parts_loop fraction_of (suc fuel)) (some (v, [])) ≡ some v
  unfolding parts_loop
  sum_eq fuel v h =
      let p : wrap_u64 (0 + v) ≡ v = omega arith in
      let q : ltb two_63 v ≡ false = ground arith in rw p (rw q refl)

  module _ (c : ℕ) (ds : Text) (n : ℕ) (k : Unit3) (d : All IsDigit (c ∷ ds))
      (e : digits_loop 0 (c ∷ ds) ≡ some n) (b : n * nanoseconds k ≤ max_int) where
    number_of_eq : number_of (c ∷ (ds ++ (unit_code k ∷ []))) ≡ some (read_number n k)
    unfolding number_of
    number_of_eq =
        let p : is_number_part c ≡ true = ground (arith, d.0) in
        let h = small n k b in
        rw p (
          ap (with_whole (c ∷ (ds ++ (unit_code k ∷ []))))
            (leading_int-digits 0 (c ∷ ds) n (unit_code k) d e h (unit_is_no_digit k).0)
          ∙ with_whole_eq (c ∷ (ds ++ (unit_code k ∷ []))) n k (more_digits c ds (unit_code k)))

    one_part_eq :
        one_part fraction_of (c ∷ (ds ++ (unit_code k ∷ []))) ≡ some (n * nanoseconds k, [])
    unfolding one_part
    one_part_eq = ap (with_number fraction_of) number_of_eq ∙ with_number_eq n k b

    parts_loop_eq :
        (fuel : ℕ)
        → parts_loop fraction_of (suc (suc fuel)) 0 (c ∷ (ds ++ (unit_code k ∷ [])))
          ≡ some (n * nanoseconds k)
    unfolding parts_loop
    parts_loop_eq fuel =
        ap (after_part 0 (parts_loop fraction_of (suc fuel))) one_part_eq
        ∙ sum_eq fuel (n * nanoseconds k) b

    unsigned_eq :
        unsigned_duration fraction_of (c ∷ (ds ++ (unit_code k ∷ []))) ≡ some (n * nanoseconds k)
    unfolding text_eq
    unsigned_eq =
        let h : text_eq (c ∷ (ds ++ (unit_code k ∷ []))) (codes "0") ≡ false =
          longer_text c ds (unit_code k) in
        rw h (parts_loop_eq (length (ds ++ (unit_code k ∷ []))))

    parse_eq :
        parse_duration fraction_of (c ∷ (ds ++ (unit_code k ∷ []))) ≡ some (pos (n * nanoseconds k))
    unfolding parse_duration
    parse_eq =
        let p : (c == b'-') ≡ false = ground (arith, d.0) in
        let q : (c == b'+') ≡ false = ground (arith, d.0) in
        rw (p, q) (ap (positive fraction_of) unsigned_eq ∙ positive_eq (n * nanoseconds k) b)

  -- A whole number with one of the units is read as the duration that it stands for, if that is less
  -- than 2 ^ 63 nanoseconds.
  pub parse_duration-decimal :
      (n : ℕ) (k : Unit3)
      → n * nanoseconds k ≤ max_int
      → parse_duration fraction_of (decimal n ++ (unit_code k ∷ []))
        ≡ some (pos (n * nanoseconds k))
  parse_duration-decimal n k b =
      go (decimal n) (decimal-All IsDigit n (λ d b. (omega arith, omega arith)))
        (digits_loop-decimal n (small n k b)) (decimal_nonempty n)
    where
      go :
          (s : Text)
          → All IsDigit s
          → digits_loop 0 s ≡ some n
          → s ≢ []
          → parse_duration fraction_of (s ++ (unit_code k ∷ [])) ≡ some (pos (n * nanoseconds k))
      go [] d e h = absurd (h refl)
      go (c ∷ ds) d e h = parse_eq c ds n k d e b
