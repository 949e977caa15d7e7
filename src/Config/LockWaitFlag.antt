-- ===== src/Config/LockWaitFlag.antt =====
-- src/options.go: the flags `--exclude` and `--lock-wait`.
use rclonewatch.Prelude.{
  ℕ, suc, Bool, true, false, not, ◌&&◌, ◌||◌, Option, some, Text, List, [], ◌∷◌, ◌++◌, codes,
  text_eq, has_prefix, if◌then◌else◌, is_empty, ◌==◌,
}
use rclonewatch.Prelude.Decimal.{is_digit}
use rclonewatch.Prelude.Int.{ℤ, pos}
use rclonewatch.Effect.{text, LockWait, Result, ok, err}
use rclonewatch.Config.Duration.{parse_duration}

-- `(*excludePatterns).Set`
unfoldable pub set_exclude : Text → List Text → Result (List Text)
set_exclude value patterns =
    if is_empty value
    then err (text "exclude pattern must not be empty")
    else ok (patterns ++ (value ∷ []))

-- `(*excludePatterns).String`
unfoldable pub exclude_string : List Text → Text
exclude_string [] = []
exclude_string (p ∷ []) = p
exclude_string (p ∷ q ∷ ps) = p ++ (b',' ∷ exclude_string (q ∷ ps))

abbrev pub is_wait_character : ℕ → Bool
is_wait_character c = is_digit c || c == b'.' || c == b's' || c == b'm' || c == b'h'

unfoldable pub all_wait_characters : Text → Bool
all_wait_characters [] = true
all_wait_characters (c ∷ s) = is_wait_character c && all_wait_characters s

-- `strings.Contains(value, "ms")`
unfoldable pub contains_ms : Text → Bool
unfolding has_prefix
contains_ms [] = false
contains_ms (c ∷ s) = has_prefix (c ∷ s) (codes "ms") || contains_ms s

abbrev pub positive_wait : LockWait → Option ℤ → Result LockWait
positive_wait w (some (pos (suc n))) = ok (record w { duration = suc n; infinite = false })
positive_wait w _ =
    err (text "invalid lock wait: use 0, a positive duration with s/m/h units, or inf")

module _ (fraction_of : ℕ → ℕ → ℕ → ℕ) where
  -- `(*lockWait).Set`, of which an error leaves `explicit` set.
  unfoldable pub set_lock_wait : Text → LockWait → Result LockWait × LockWait
  unfolding parse_duration all_wait_characters contains_ms text_eq
  set_lock_wait value old =
      let w : LockWait = record old { explicit = true } in
      (
        if text_eq value (codes "inf")
            then ok (record w { duration = 0; infinite = true })
            else (if text_eq value (codes "0")
                then ok (record w { duration = 0; infinite = false })
                else (if is_empty value
                    then err (text "lock wait must be 0, a duration, or inf")
                    else (if contains_ms value || not (all_wait_characters value)
                        then err (text "invalid lock wait: use only s, m, and h duration units")
                        else positive_wait w (parse_duration fraction_of value)))),
        w,
      )
