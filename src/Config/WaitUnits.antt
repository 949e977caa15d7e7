-- ===== src/Config/WaitUnits.antt =====
-- A wait that is written as a whole number with a unit is the one that `--lock-wait` sets.
use rclonewatch.Prelude.{
  ◌≡◌, ◌≢◌, refl, ap, ◌∙◌, ℕ, zero, suc, ◌*◌, ◌≤◌, ◌<◌, true, false, some, Text, [], ◌∷◌, ◌++◌,
  codes, text_eq, has_prefix, All, arith, ◌==◌,
}
use rclonewatch.Prelude.Decimal.{IsDigit, decimal, decimal-All, decimal_nonempty, max_int}
use rclonewatch.Prelude.Int.{pos}
use rclonewatch.Effect.{LockWait, ok}
use rclonewatch.Config.Duration.{parse_duration}
use rclonewatch.Config.Duration.Units.{
  Unit3, seconds, minutes, hours, unit_code, nanoseconds, parse_duration-decimal,
}
use rclonewatch.Config.LockWaitFlag.{all_wait_characters, contains_ms, positive_wait, set_lock_wait}

all_wait_characters_digits :
    (s : Text) (k : Unit3) → All IsDigit s → all_wait_characters (s ++ (unit_code k ∷ [])) ≡ true
unfolding all_wait_characters
all_wait_characters_digits [] seconds d = refl
all_wait_characters_digits [] minutes d = refl
all_wait_characters_digits [] hours d = refl
all_wait_characters_digits (c ∷ s) k d = ground (arith, d.0, all_wait_characters_digits s k d.1)

contains_ms_digits :
    (s : Text) (k : Unit3) → All IsDigit s → contains_ms (s ++ (unit_code k ∷ [])) ≡ false
unfolding contains_ms has_prefix
contains_ms_digits [] seconds d = refl
contains_ms_digits [] minutes d = refl
contains_ms_digits [] hours d = refl
contains_ms_digits (c ∷ s) k d =
    let p : (c == b'm') ≡ false = ground (arith, d.0) in
    ground (arith, p, contains_ms_digits s k d.1)

no_keyword :
    (c : ℕ) (s : Text) (u : ℕ)
    → IsDigit c
    → (text_eq (c ∷ (s ++ (u ∷ []))) (codes "inf") ≡ false)
      × (text_eq (c ∷ (s ++ (u ∷ []))) (codes "0") ≡ false)
unfolding text_eq
no_keyword c [] u d = (ground (arith, d), ground arith)
no_keyword c (x ∷ s) u d = (ground (arith, d), ground arith)

positive_wait_eq :
    (w : LockWait) (v : ℕ)
    → 0 < v
    → positive_wait w (some (pos v)) ≡ ok (record w { duration = v; infinite = false })
positive_wait_eq w zero h = absurd (omega arith)
positive_wait_eq w (suc v) h = refl

module _ (fraction_of : ℕ → ℕ → ℕ → ℕ) where
  -- A whole number of seconds, minutes or hours above zero and below 2 ^ 63 nanoseconds, written in
  -- decimal with its unit, is the wait that `--lock-wait` sets; it is explicit and not infinite,
  -- whatever was set before.
  pub set_lock_wait-decimal :
      (n : ℕ) (k : Unit3) (old : LockWait)
      → 0 < n * nanoseconds k
      → n * nanoseconds k ≤ max_int
      → (set_lock_wait fraction_of (decimal n ++ (unit_code k ∷ [])) old).0
        ≡ ok (record { duration = n * nanoseconds k; infinite = false; explicit = true })
  unfolding set_lock_wait
  set_lock_wait-decimal n k old h b =
      go (decimal n) (decimal-All IsDigit n (λ d b. (omega arith, omega arith)))
        (decimal_nonempty n) (parse_duration-decimal fraction_of n k b)
    where
      go :
          (s : Text)
          → All IsDigit s
          → s ≢ []
          → parse_duration fraction_of (s ++ (unit_code k ∷ [])) ≡ some (pos (n * nanoseconds k))
          → (set_lock_wait fraction_of (s ++ (unit_code k ∷ [])) old).0
            ≡ ok (record { duration = n * nanoseconds k; infinite = false; explicit = true })
      go [] d e p = absurd (e refl)
      go (c ∷ s) d e p =
          let q = no_keyword c s (unit_code k) d.0 in
          let m = contains_ms_digits (c ∷ s) k d in
          let a = all_wait_characters_digits (c ∷ s) k d in
          rw (q.0, q.1, m, a)
            (ap (positive_wait (record old { explicit = true })) p
              ∙ positive_wait_eq (record old { explicit = true }) (n * nanoseconds k) h)
