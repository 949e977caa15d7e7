-- ===== src/Prelude/Decimal.antt =====
-- `strconv.Atoi`, for 64-bit integers, and decimal printing.
use Prim.Native.Nat.{ℕ, zero, suc, ◌+◌, ◌-◌, ◌*◌, ◌/◌, ◌%◌, ◌^◌, ◌≤◌, ◌<◌}
use mathlib.Core.Path.{◌≡◌, refl, ap, ◌∙◌}
use mathlib.Core.Bool.{Bool, true, false, ◌&&◌}
use mathlib.Core.Option.{Option, none, some}
use mathlib.Core.List.{[], ◌∷◌}
use mathlib.Core.Logic.{◌≢◌, inl, inr}
use native.Mathlib.Omega.{arith}
use rclonewatch.Prelude.Tests.{◌==◌, leb, ltb, Bool-cases, if◌then◌else◌}
use rclonewatch.Prelude.Lists.{All}
use rclonewatch.Prelude.Texts.{Text}
use rclonewatch.Prelude.Int.{ℤ, pos, negsuc}

abbrev pub is_digit : ℕ → Bool
is_digit c = leb 48 c && leb c 57

-- The number that digits stand for, behind the ones that have been read.
unfoldable pub digits_loop : ℕ → Text → Option ℕ
digits_loop acc [] = some acc
digits_loop acc (c ∷ s) =
    let rest = digits_loop (acc * 10 + (c - 48)) s in if is_digit c then rest else none

unfoldable pub digits_value : Text → Option ℕ
unfolding digits_loop
digits_value [] = none
digits_value (c ∷ s) = digits_loop 0 (c ∷ s)

abbrev pub max_int : ℕ
max_int = 9223372036854775807

abbrev signed : Bool → Option ℕ → Option ℤ
signed neg none = none
signed true (some zero) = some (pos 0)
signed true (some (suc n)) = if leb n max_int then some (negsuc n) else none
signed false (some n) = if leb n max_int then some (pos n) else none

-- `strconv.Atoi`, with `none` for its errors.
unfoldable pub atoi : Text → Option ℤ
unfolding digits_value
atoi [] = none
atoi (c ∷ s) =
    if c == 45
    then signed true (digits_value s)
    else (if c == 43 then signed false (digits_value s) else signed false (digits_value (c ∷ s)))

-- The decimal digits of a number below 10 ^ k, in front of what follows.
unfoldable pub decimal_loop : ℕ → ℕ → Text → Text
decimal_loop zero n s = s
decimal_loop (suc k) n s =
    let more = decimal_loop k (n / 10) ((48 + n % 10) ∷ s) in
    if ltb n 10 then (48 + n) ∷ s else more

-- A number of up to 20 digits in decimal.
unfoldable pub decimal : ℕ → Text
unfolding decimal_loop
decimal n = decimal_loop 20 n []

digit_step :
    (acc d : ℕ) (s : Text) → d < 10 → digits_loop acc ((48 + d) ∷ s) ≡ digits_loop (acc * 10 + d) s
unfolding digits_loop
digit_step acc d s h =
    let e : 48 + d - 48 ≡ d = omega arith in
    let t : is_digit (48 + d) ≡ true = ground arith in rw (e, t)

more_than_one : (k m : ℕ) → m < 10 ^ k → 1 ≤ m → 0 < k
more_than_one zero m h b = absurd (omega arith)
more_than_one (suc k) m h b = omega arith

digits_loop-decimal_loop :
    (k n : ℕ) (s : Text) → n < 10 ^ k → 0 < k → digits_loop 0 (decimal_loop k n s) ≡ digits_loop n s
unfolding decimal_loop
digits_loop-decimal_loop zero n s h p = absurd (omega arith)
digits_loop-decimal_loop (suc k) n s h p = elim (Bool-cases (ltb n 10)) [
  | inl e ↦ rw e (digit_step 0 n s (ground arith) ∙ ap (λ (m : ℕ). digits_loop m s) (omega arith))
  | inr e ↦
      let big : 10 ≤ n = ground arith in
      let small : n / 10 < 10 ^ k = omega arith in
      let later : 0 < k = more_than_one k (n / 10) small (omega (arith, big)) in
      rw e (
        digits_loop-decimal_loop k (n / 10) ((48 + n % 10) ∷ s) small later
        ∙ digit_step (n / 10) (n % 10) s (omega arith)
        ∙ ap (λ (m : ℕ). digits_loop m s) (omega arith))
]

-- A character of a decimal number is a digit.
abbrev pub IsDigit : ℕ → Type 0
IsDigit c = (48 ≤ c) × (c ≤ 57)

decimal_loop-All {κ} :
    (P : ℕ → Type κ) (k n : ℕ) (s : Text)
    → ((d : ℕ) → d < 10 → P (48 + d))
    → All P s
    → All P (decimal_loop k n s)
unfolding decimal_loop
decimal_loop-All P zero n s d h = h
decimal_loop-All P (suc k) n s d h = elim (Bool-cases (ltb n 10)) [
  | inl e ↦ rw e (d n (ground arith), h)
  | inr e ↦ rw e (decimal_loop-All P k (n / 10) ((48 + n % 10) ∷ s) d (d (n % 10) (omega arith), h))
]

pub decimal-All {κ} : (P : ℕ → Type κ) (n : ℕ) → ((d : ℕ) → d < 10 → P (48 + d)) → All P (decimal n)
unfolding decimal
decimal-All P n d = decimal_loop-All P 20 n [] d tt

unsigned :
    (s : Text) (n : ℕ)
    → All IsDigit s
    → digits_loop 0 s ≡ some n
    → n ≤ max_int
    → s ≢ []
    → atoi s ≡ some (pos n)
unfolding atoi digits_value
unsigned [] n d h b e = absurd (e refl)
unsigned (c ∷ s) n d h b e =
    let m : (c == 45) ≡ false = ground (arith, d.0) in
    let p : (c == 43) ≡ false = ground (arith, d.0) in
    let t : leb n max_int ≡ true = ground (arith, b) in rw (m, p, h, t)

decimal_loop_nonempty : (k n c : ℕ) (s : Text) → decimal_loop k n (c ∷ s) ≢ []
unfolding decimal_loop
decimal_loop_nonempty zero n c s e = cc
decimal_loop_nonempty (suc k) n c s e =
    ground (arith, decimal_loop_nonempty k (n / 10) (48 + n % 10) (c ∷ s))

pub decimal_nonempty : (n : ℕ) → decimal n ≢ []
unfolding decimal decimal_loop
decimal_nonempty n = ground (arith, decimal_loop_nonempty 19 (n / 10) (48 + n % 10) [])

pub digits_loop-decimal : (n : ℕ) → n ≤ max_int → digits_loop 0 (decimal n) ≡ some n
unfolding decimal digits_loop
digits_loop-decimal n h = digits_loop-decimal_loop 20 n [] (omega arith) (omega arith)

-- A number that fits is read back from its decimal digits.
pub atoi-decimal : (n : ℕ) → n ≤ max_int → atoi (decimal n) ≡ some (pos n)
unfolding decimal digits_loop
atoi-decimal n h =
    unsigned (decimal n) n (decimal-All IsDigit n (λ d b. (omega arith, omega arith)))
      (digits_loop-decimal_loop 20 n [] (omega arith) (omega arith)) h (decimal_nonempty n)
