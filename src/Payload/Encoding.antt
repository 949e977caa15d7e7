-- ===== src/Payload/Encoding.antt =====
-- src/payload.go: the paths of a filter file, in the names that rclone's filters see.
use rclonewatch.Prelude.{
  ℕ, zero, suc, ◌+◌, ◌-◌, ◌*◌, ◌/◌, ◌%◌, ◌^◌, ◌≤◌, ◌<◌, refl, Bool-cases, false, not, ◌&&◌, ◌||◌,
  Option, none, some, Text, List, [], ◌∷◌, ◌++◌, ◌≡◌, ◌⊎◌, inl, inr, arith, codes, mem_text,
  contains_rune, is_space, split, map, if◌then◌else◌, ltb, leb, ◌==◌, All, All-append,
}
use rclonewatch.Path.Clean.{slash, join_parts}
use rclonewatch.Payload.Filter.{glob_characters}
use rclonewatch.Payload.Utf8.{lead_byte}

-- The rune of a UTF-8 sequence, behind its first byte.
unfoldable pub continued : ℕ → ℕ → ℕ → ℕ → Text → Option ℕ
continued zero lo hi acc s = some acc
continued (suc n) lo hi acc [] = none
continued (suc n) lo hi acc (b ∷ s) =
    let rest = continued n 0x80 0xbf (acc * 64 + b % 64) s in
    if leb lo b && leb b hi then rest else none

abbrev or_error : ℕ → Option ℕ → ℕ × ℕ
or_error width none = (0xfffd, 1)
or_error width (some c) = (c, width)

-- The rune at the start of a text and its width; an invalid byte is U+FFFD.
unfoldable pub rune_at : ℕ → Text → ℕ × ℕ
unfolding lead_byte continued
rune_at b s = elim (lead_byte b) [
  | none ↦ (0xfffd, 1)
  | some (n, lo, hi) ↦
      or_error (n + 1) (continued n lo hi (if n == 0 then b else b % 2 ^ (6 - n)) s)
]

-- `range` over a string, with the number of bytes still to pass over.
unfoldable pub runes_loop : ℕ → Text → List ℕ
unfolding rune_at
runes_loop skip [] = []
runes_loop (suc skip) (b ∷ s) = runes_loop skip s
runes_loop zero (b ∷ s) = let (c, width) = rune_at b s in c ∷ runes_loop (width - 1) s

unfoldable pub runes : Text → List ℕ
unfolding runes_loop
runes = runes_loop 0

abbrev quote : ℕ
quote = 0x201b

abbrev repeat_quote : ℕ → List ℕ
repeat_quote zero = []
repeat_quote (suc n) = quote ∷ repeat_quote n

abbrev encode_rune : ℕ → List ℕ
encode_rune c =
    if ltb 0 c && ltb c 32
    then (0x2400 + c) ∷ []
    else (if c == 127
        then 0x2421 ∷ []
        else (if (ltb 0x2400 c && leb c 0x241f) || c == 0x2421 then quote ∷ c ∷ [] else c ∷ []))

-- The loop over one name, with the quotes that are still to be written.
unfoldable pub encode_name : ℕ → List ℕ → List ℕ
encode_name quotes [] = repeat_quote (quotes + quotes % 2)
encode_name quotes (c ∷ s) =
    let quoted = encode_name (quotes + 1) s in
    let rest = encode_name 0 s in
    let doubled = if not (c == 0x2400) && not (c == 0xff0f) then quotes + quotes % 2 else quotes in
    if c == quote then quoted else repeat_quote doubled ++ (encode_rune c ++ rest)

abbrev dot_encodings : List (List ℕ)
dot_encodings =
    (0xff0e ∷ [])
    ∷ (0xff0e ∷ 0xff0e ∷ [])
    ∷ (quote ∷ 0xff0e ∷ [])
    ∷ (quote ∷ 0xff0e ∷ quote ∷ 0xff0e ∷ [])
    ∷ []

abbrev standard_name : List ℕ → List ℕ
standard_name name = if mem_text name dot_encodings then name else encode_name 0 name

-- `standardLocalPath`
unfoldable pub standard_local_path : List ℕ → List ℕ
unfolding encode_name mem_text split join_parts
standard_local_path relative = join_parts (map standard_name (split slash relative))

abbrev hex_digit : ℕ → ℕ
hex_digit d = if ltb d 10 then 48 + d else 87 + d

-- One character of a pattern.
unfoldable pub escape_rune : ℕ → List ℕ
escape_rune c =
    if ltb c 128 && (is_space c || contains_rune glob_characters c)
    then b'\\' ∷ b'x' ∷ hex_digit (c / 16) ∷ hex_digit (c % 16) ∷ []
    else (if is_space c then b'[' ∷ c ∷ b']' ∷ [] else c ∷ [])

unfoldable pub escape_runes : List ℕ → List ℕ
unfolding escape_rune
escape_runes [] = []
escape_runes (c ∷ s) = escape_rune c ++ escape_runes s

-- `scopeFilterPath`
unfoldable pub scope_filter_path : Text → List ℕ
unfolding standard_local_path escape_runes runes
scope_filter_path relative = escape_runes (standard_local_path (runes relative))

-- A character that may stand in a line of a filter file: it is not ASCII, or it is neither white
-- space nor one of the glob's operators `*`, `?`, `{` and `}`.
abbrev pub IsPlain : ℕ → Type 0
IsPlain c = (128 ≤ c) ⊎ ((is_space c ≡ false) × (contains_rune (codes "*?{}") c ≡ false))

hex_digit-IsPlain : (d : ℕ) → d < 16 → IsPlain (hex_digit d)
hex_digit-IsPlain d b = ground arith

other-IsPlain :
    (c : ℕ) → (ltb c 128 && (is_space c || contains_rune glob_characters c)) ≡ false → IsPlain c
other-IsPlain c h = ground arith

escape_rune-IsPlain : (c : ℕ) → All IsPlain (escape_rune c)
unfolding escape_rune
escape_rune-IsPlain c =
    elim (Bool-cases (ltb c 128 && (is_space c || contains_rune glob_characters c))) [
      | inl e ↦ rw e (
        inr (refl, refl),
        (
          inr (refl, refl),
          (
            hex_digit-IsPlain (c / 16) (ground arith),
            (hex_digit-IsPlain (c % 16) (ground arith), tt),
          ),
        ),
      )
      | inr e ↦ elim (Bool-cases (is_space c)) [
        | inl w ↦ rw (e, w) (inr (refl, refl), (other-IsPlain c e, (inr (refl, refl), tt)))
        | inr w ↦ rw (e, w) (other-IsPlain c e, tt)
      ]
    ]

escape_runes-IsPlain : (s : List ℕ) → All IsPlain (escape_runes s)
unfolding escape_runes
escape_runes-IsPlain [] = tt
escape_runes-IsPlain (c ∷ s) =
    All-append IsPlain (escape_rune c) (escape_runes s) (escape_rune-IsPlain c)
      (escape_runes-IsPlain s)

-- Whatever bytes a path holds, its pattern in a filter file has no ASCII white space, so that it stands
-- on one line, and none of the glob's operators `*`, `?`, `{` and `}`.
pub scope_filter_path-IsPlain : (relative : Text) → All IsPlain (scope_filter_path relative)
unfolding scope_filter_path
scope_filter_path-IsPlain relative = escape_runes-IsPlain (standard_local_path (runes relative))
