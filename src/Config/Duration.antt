-- ===== src/Config/Duration.antt =====
-- `time.ParseDuration`, by which the flags read durations in nanoseconds. What the digits behind a
-- point add is float64 arithmetic, and a parameter.
pub mod Total
pub mod Units
use rclonewatch.Prelude.{
  ℕ, zero, suc, ◌+◌, ◌-◌, ◌*◌, ◌/◌, ◌%◌, ◌^◌, Bool, true, false, not, ◌&&◌, ◌||◌, Option, none,
  some, Text, List, [], ◌∷◌, codes, text_eq, if◌then◌else◌, is_empty, ltb, leb, ◌==◌, length,
}
use rclonewatch.Prelude.Decimal.{is_digit, max_int}
use rclonewatch.Prelude.Int.{ℤ, pos, negsuc}

abbrev pub two_63 : ℕ
two_63 = 9223372036854775808

abbrev pub wrap_u64 : ℕ → ℕ
wrap_u64 n = n % 18446744073709551616

-- `leadingInt`: the number that the leading digits stand for, and the rest; `none` is an overflow.
unfoldable pub leading_int : ℕ → Text → Option (ℕ × Text)
leading_int x [] = some (x, [])
leading_int x (c ∷ s) =
    let y = x * 10 + (c - 48) in
    let rest = leading_int y s in
    if is_digit c
    then (if ltb (two_63 / 10) x || ltb two_63 y then none else rest)
    else some (x, c ∷ s)

-- `leadingFraction`: digits that overflow are dropped. The flag says that one has.
unfoldable pub leading_fraction : ℕ → ℕ → Bool → Text → ℕ × ℕ × Text
leading_fraction x scale over [] = (x, scale, [])
leading_fraction x scale over (c ∷ s) =
    let y = x * 10 + (c - 48) in
    let skip = leading_fraction x scale true s in
    let take = leading_fraction y (scale * 10) false s in
    if is_digit c
    then (if over || ltb (max_int / 10) x || ltb two_63 y then skip else take)
    else (x, scale, c ∷ s)

abbrev pub is_number_part : ℕ → Bool
is_number_part c = c == b'.' || is_digit c

-- The unit: what stands before the next number.
unfoldable pub unit_of : Text → Text × Text
unit_of [] = ([], [])
unit_of (c ∷ s) =
    let (u, rest) = unit_of s in if is_number_part c then ([], c ∷ s) else (c ∷ u, rest)

abbrev pub unit_value : Text → Option ℕ
unit_value u =
    if text_eq u (codes "ns")
    then some 1
    else (if text_eq u (codes "us") || text_eq u (0xb5 ∷ b's' ∷ []) || text_eq u (0x3bc ∷ b's' ∷ [])
        then some 1000
        else (if text_eq u (codes "ms")
            then some 1000000
            else (if text_eq u (codes "s")
                then some 1000000000
                else (if text_eq u (codes "m")
                    then some 60000000000
                    else (if text_eq u (codes "h") then some 3600000000000 else none)))))

-- A number before its unit: the digits before the point, those behind it with their scale, whether
-- there are any, and the rest.
pub record Number : Type 0 where
  pub whole : ℕ
  pub fraction : ℕ
  pub scale : ℕ
  pub any : Bool
  pub rest : Text

abbrev pub behind_point : ℕ → Bool → Text → ℕ × ℕ × Text → Number
behind_point v pre s (f, scale, rest) = record {
  whole = v;
  fraction = f;
  scale = scale;
  any = pre || not (length s == length rest);
  rest = rest;
}

abbrev pub at_point : ℕ → Bool → Text → Number
at_point v pre [] = record { whole = v; fraction = 0; scale = 1; any = pre; rest = [] }
at_point v pre (c ∷ s) =
    if c == b'.'
    then behind_point v pre s (leading_fraction 0 1 false s)
    else record { whole = v; fraction = 0; scale = 1; any = pre; rest = c ∷ s }

abbrev pub with_whole : Text → Option (ℕ × Text) → Option Number
with_whole s none = none
with_whole s (some (v, rest)) = some (at_point v (not (length s == length rest)) rest)

unfoldable pub number_of : Text → Option Number
unfolding leading_int leading_fraction
number_of [] = none
number_of (c ∷ s) = if is_number_part c then with_whole (c ∷ s) (leading_int 0 (c ∷ s)) else none

-- What follows a part, by which the duration grows.
abbrev pub after_part : ℕ → (ℕ → Text → Option ℕ) → Option (ℕ × Text) → Option ℕ
after_part d next none = none
after_part d next (some (v, rest)) =
    let sum = wrap_u64 (d + v) in if ltb two_63 sum then none else next sum rest

module _ (fraction_of : ℕ → ℕ → ℕ → ℕ) where
  -- The value of a number with its unit, if it does not overflow.
  abbrev pub in_unit : Number → Option ℕ → Option ℕ
  in_unit n none = none
  in_unit n (some unit) =
      let whole = n.whole * unit in
      let v = wrap_u64 (whole + fraction_of n.fraction n.scale unit) in
      if ltb (two_63 / unit) n.whole
      then none
      else (if n.fraction == 0 then some whole else (if ltb two_63 v then none else some v))

  -- One number with its unit, and the rest.
  abbrev pub with_unit : Number → Text × Text → Option (ℕ × Text)
  with_unit n (u, rest) =
      if n.any && not (is_empty u)
      then (elim (in_unit n (unit_value u)) [ none ↦ none | some v ↦ some (v, rest) ])
      else none

  unfoldable pub with_number : Option Number → Option (ℕ × Text)
  unfolding unit_of
  with_number none = none
  with_number (some n) = with_unit n (unit_of n.rest)

  unfoldable pub one_part : Text → Option (ℕ × Text)
  unfolding number_of with_number text_eq
  one_part s = with_number (number_of s)

  -- The loop over the parts. The fuel is one more than the length of the text, since a part takes a
  -- character or more.
  unfoldable pub parts_loop : ℕ → ℕ → Text → Option ℕ
  unfolding one_part
  parts_loop zero d s = none
  parts_loop (suc fuel) d [] = some d
  parts_loop (suc fuel) d (c ∷ s) = after_part d (parts_loop fuel) (one_part (c ∷ s))

  abbrev pub unsigned_duration : Text → Option ℕ
  unsigned_duration s =
      if text_eq s (codes "0")
      then some 0
      else (if is_empty s then none else parts_loop (suc (length s)) 0 s)

  abbrev negated : Option ℕ → Option ℤ
  negated none = none
  negated (some zero) = some (pos 0)
  negated (some (suc n)) = some (negsuc n)

  abbrev pub positive : Option ℕ → Option ℤ
  positive none = none
  positive (some n) = if ltb max_int n then none else some (pos n)

  -- `time.ParseDuration`; `none` is an error.
  unfoldable pub parse_duration : Text → Option ℤ
  unfolding parts_loop text_eq
  parse_duration [] = none
  parse_duration (c ∷ s) =
      if c == b'-'
      then negated (unsigned_duration s)
      else positive (unsigned_duration (if c == b'+' then s else c ∷ s))
