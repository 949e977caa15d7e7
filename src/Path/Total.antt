-- ===== src/Path/Total.antt =====
-- `parseRemote` terminates: each option takes at least its comma.
use rclonewatch.Prelude.{
  ℕ, zero, suc, ◌+◌, ◌≤◌, ◌<◌, ◌≡◌, ◌≢◌, none, some, Text, List, [], ◌∷◌, ◌++◌, codes, ◌==◌, length,
  arith, Bool-cases, inl, inr,
}
use rclonewatch.Effect.{ok, Result-cases}
use rclonewatch.Path.Remote.{
  span_until, named, finish_remote, quoted, option_value, key_value, one_option, set_option,
  options_loop, parse_remote_fuel,
}

pub length-span_until :
    (stops s : Text) → length (span_until stops s).0 + length (span_until stops s).1 ≡ length s
unfolding span_until
length-span_until stops [] = omega arith
length-span_until stops (c ∷ s) = ground (arith, length-span_until stops s)

-- The rest behind a quoted value is no longer than the text that was read.
quoted-le :
    (q : ℕ) (acc s : Text) {r : Text × Text} → quoted q acc s ≡ some r → length r.1 ≤ length s
unfolding quoted
quoted-le q acc [] e = cc
quoted-le q acc (c ∷ []) e = ground arith
quoted-le q acc (c ∷ d ∷ s) {r} e =
    ground (
      arith,
      quoted-le q (acc ++ (d ∷ [])) s {r = r},
      quoted-le q (acc ++ (c ∷ [])) (d ∷ s) {r = r},
    )

option_value-le : (s : Text) {r : Text × Text} → option_value s ≡ ok r → length r.1 ≤ length s
unfolding option_value
option_value-le [] e = ground arith
option_value-le (c ∷ s) {r} e =
    ground (arith, quoted-le c [] s {r = r}, length-span_until (codes ",:") (c ∷ s))

key_value-le :
    (key s : Text) {r : Text × Text × Text} → key_value key s ≡ ok r → length r.2 ≤ length s
unfolding key_value
key_value-le key [] e = cc
key_value-le key (c ∷ s) {r} e = elim (Result-cases (option_value s)) [
  | inl v ↦ ground (arith, option_value-le s v.1, v.1)
  | inr f ↦ ground (arith, f.1)
]

one_option-le : (s : Text) {r : Text × Text × Text} → one_option s ≡ ok r → length r.2 ≤ length s
unfolding one_option
one_option-le s {r} e = omega (
  arith,
  length-span_until (codes "=,:") s,
  key_value-le (span_until (codes "=,:") s).0 (span_until (codes "=,:") s).1 {r = r} e,
)

pub options_loop_total :
    (fuel : ℕ) (os : List (Text × Text)) (rest : Text)
    → length rest < fuel
    → options_loop fuel os rest ≢ none
unfolding options_loop
options_loop_total zero os rest h = elim h [ ]
options_loop_total (suc fuel) os [] h = λ e. cc
options_loop_total (suc fuel) os (c ∷ s) h = elim (Bool-cases (c == b',')) [
  | inr e ↦ rw e (λ x. cc)
  | inl e ↦ rw e (elim (Result-cases (one_option s)) [
    | inr f ↦ rw f.1 (λ x. cc)
    | inl g ↦ rw g.1 (
        ground (
          arith,
          one_option-le s {r = g.0} g.1,
          options_loop_total fuel (set_option g.0.0 g.0.1 os) g.0.2,
        ))
  ])
]

named_total : (value name rest : Text) → length rest ≤ length value → named value name rest ≢ none
unfolding named finish_remote
named_total value name [] h = λ e. cc
named_total value name (c ∷ s) h =
    ground (arith, options_loop_total (suc (length value)) [] (c ∷ s))

-- The fuel of `parse_remote_fuel` is enough for every text.
pub parse_remote_total : (value : Text) → parse_remote_fuel value ≢ none
unfolding parse_remote_fuel
parse_remote_total [] = λ e. cc
parse_remote_total (c ∷ s) = ground (
  arith,
  length-span_until (codes ":,/\\") s,
  length-span_until (codes ":,/\\") (c ∷ s),
  named_total (c ∷ s) (c ∷ (span_until (codes ":,/\\") s).0) (span_until (codes ":,/\\") s).1,
  named_total (c ∷ s) (span_until (codes ":,/\\") (c ∷ s)).0 (span_until (codes ":,/\\") (c ∷ s)).1,
)
