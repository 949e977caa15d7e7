-- ===== src/Path/Quote.antt =====
-- Quoted option values of connection strings.
use rclonewatch.Prelude.{
  ℕ, suc, ◌-◌, ◌≡◌, refl, ◌∙◌, ◌⊎◌, ◌≢◌, true, false, some, Text, [], ◌∷◌, ◌++◌, codes,
  contains_rune, if◌then◌else◌, ◌==◌, length, arith, All, Bool-cases, inl, inr, ==_iff,
}
use mathlib.Core.List.{append_assoc, append-nil}
use rclonewatch.Effect.{Result, ok}
use rclonewatch.Path.Remote.{
  span_until, quoted, option_value, key_value, one_option, set_option, options_loop, named,
  RemoteSpec, finish_remote, parse_remote_fuel, parse_remote,
}

-- A value with its quotes doubled, as a connection string has it.
abbrev pub double_quotes : ℕ → Text → Text
double_quotes q [] = []
double_quotes q (c ∷ v) = if c == q then q ∷ q ∷ double_quotes q v else c ∷ double_quotes q v

abbrev pub NotAhead : ℕ → Text → Type 0
NotAhead q [] = Unit
NotAhead q (c ∷ _) = c ≢ q

quoted_close :
    (q : ℕ) (acc rest : Text) → NotAhead q rest → quoted q acc (q ∷ rest) ≡ some (acc, rest)
unfolding quoted
quoted_close q acc [] h = ground arith
quoted_close q acc (d ∷ rest) h = ground arith

quoted_pair :
    (q : ℕ) (acc rest : Text) → quoted q acc (q ∷ q ∷ rest) ≡ quoted q (acc ++ (q ∷ [])) rest
unfolding quoted
quoted_pair q acc rest = ground arith

quoted_plain :
    (q c d : ℕ) (acc rest : Text)
    → c ≢ q
    → quoted q acc (c ∷ d ∷ rest) ≡ quoted q (acc ++ (c ∷ [])) (d ∷ rest)
unfolding quoted
quoted_plain q c d acc rest h = ground arith

quoted_plain_any :
    (q c : ℕ) (acc w : Text)
    → c ≢ q
    → (d : ℕ) × (t : Text) × (w ≡ d ∷ t)
    → quoted q acc (c ∷ w) ≡ quoted q (acc ++ (c ∷ [])) w
quoted_plain_any q c acc w h (d, t, p) = rw p (quoted_plain q c d acc t h)

-- What follows a character of the value in the doubled text is never empty.
doubled_next :
    (q : ℕ) (v rest : Text) → (d : ℕ) × (t : Text) × (double_quotes q v ++ (q ∷ rest) ≡ d ∷ t)
doubled_next q [] rest = (q, rest, refl)
doubled_next q (c ∷ v) rest = elim (Bool-cases (c == q)) [
  | inl e ↦ (q, q ∷ double_quotes q v ++ (q ∷ rest), rw e)
  | inr e ↦ (c, double_quotes q v ++ (q ∷ rest), rw e)
]

-- Reading a doubled value up to its closing quote gives the value back.
pub quoted-double_quotes :
    (q : ℕ) (acc v rest : Text)
    → NotAhead q rest
    → quoted q acc (double_quotes q v ++ (q ∷ rest)) ≡ some (acc ++ v, rest)
quoted-double_quotes q acc [] rest h = rw append-nil (quoted_close q acc rest h)
quoted-double_quotes q acc (c ∷ v) rest h = elim (Bool-cases (c == q)) [
  | inl e ↦ rw e (
      quoted_pair q acc (double_quotes q v ++ (q ∷ rest))
      ∙ quoted-double_quotes q (acc ++ (q ∷ [])) v rest h
      ∙ rw append_assoc (cc ((==_iff c q).0 e)))
  | inr e ↦ rw e (
      quoted_plain_any q c acc (double_quotes q v ++ (q ∷ rest)) (ground arith)
        (doubled_next q v rest)
      ∙ quoted-double_quotes q (acc ++ (c ∷ [])) v rest h
      ∙ rw append_assoc)
]

abbrev pub Misses : Text → ℕ → Type 0
Misses stops c = contains_rune stops c ≡ false

span_until-append :
    (stops front rest : Text) (d : ℕ)
    → All (Misses stops) front
    → contains_rune stops d ≡ true
    → span_until stops (front ++ (d ∷ rest)) ≡ (front, d ∷ rest)
unfolding span_until
span_until-append stops [] rest d h e = ground (arith, e)
span_until-append stops (c ∷ front) rest d h e =
    ground (arith, h.0, span_until-append stops front rest d h.1 e)

-- `name,key='value':path`, with the quote character `q`.
abbrev pub connection : Text → Text → ℕ → Text → Text → Text
connection name key q v path =
    name ++ (b',' ∷ key ++ (b'=' ∷ q ∷ double_quotes q v ++ (q ∷ b':' ∷ path)))

one_option-connection :
    (key : Text) (q : ℕ) (v path : Text)
    → All (Misses (codes "=,:")) key
    → key ≢ []
    → (q ≡ 0x27) ⊎ (q ≡ b'"')
    → one_option (key ++ (b'=' ∷ q ∷ double_quotes q v ++ (q ∷ b':' ∷ path)))
      ≡ ok (key, v, b':' ∷ path)
unfolding one_option key_value option_value
one_option-connection key q v path hk ne hq =
    rw
      (span_until-append (codes "=,:") key (q ∷ double_quotes q v ++ (q ∷ b':' ∷ path)) b'=' hk
        refl)
      (value key ne)
  where
    ahead : NotAhead q (b':' ∷ path)
    ahead = ground arith

    value :
        (k : Text)
        → k ≢ []
        → key_value k (b'=' ∷ q ∷ double_quotes q v ++ (q ∷ b':' ∷ path)) ≡ ok (k, v, b':' ∷ path)
    value [] h = absurd (h refl)
    value (c ∷ k) h = ground (arith, quoted-double_quotes q [] v (b':' ∷ path) ahead)

contains_rune-append :
    (s t : Text) (c : ℕ) → contains_rune t c ≡ true → contains_rune (s ++ t) c ≡ true
contains_rune-append [] t c h = h
contains_rune-append (x ∷ s) t c h = ground (arith, contains_rune-append s t c h)

options_loop-connection :
    (fuel : ℕ) (s key v path : Text)
    → one_option s ≡ ok (key, v, b':' ∷ path)
    → options_loop (suc (suc fuel)) [] (b',' ∷ s) ≡ some (ok ((key, v) ∷ [], b':' ∷ path))
unfolding options_loop
options_loop-connection fuel s key v path e = rw e

parse_remote_fuel-plain :
    (c : ℕ) (s front rest : Text)
    → c ≢ b':'
    → contains_rune (c ∷ s) b':' ≡ true
    → span_until (codes ":,/\\") (c ∷ s) ≡ (front, rest)
    → parse_remote_fuel (c ∷ s) ≡ named (c ∷ s) front rest
unfolding parse_remote_fuel
parse_remote_fuel-plain c s front rest h k e = ground arith

named-connection :
    (x : ℕ) (value name s key v path : Text)
    → one_option s ≡ ok (key, v, b':' ∷ path)
    → named (x ∷ value) name (b',' ∷ s)
      ≡ some (
          ok (record {
            name = name;
            options = (key, v) ∷ [];
            colon = some (length (x ∷ value) - length (b':' ∷ path));
          }))
unfolding named finish_remote options_loop set_option
named-connection x value name s key v path e = rw e

parse_remote_of :
    (value : Text) (r : Result RemoteSpec)
    → parse_remote_fuel value ≡ some r
    → parse_remote value ≡ r
unfolding parse_remote
parse_remote_of value r e = rw (e, parse_remote)

-- A remote name with one quoted option is read back: the name, the option with its exact value,
-- whatever the value holds, and the colon that stands before the path.
pub parse_remote-connection :
    (c : ℕ) (name key : Text) (q : ℕ) (v path : Text)
    → All (Misses (codes ":,/\\")) (c ∷ name)
    → All (Misses (codes "=,:")) key
    → key ≢ []
    → (q ≡ 0x27) ⊎ (q ≡ b'"')
    → parse_remote (connection (c ∷ name) key q v path)
      ≡ ok (record {
        name = c ∷ name;
        options = (key, v) ∷ [];
        colon = some (length (connection (c ∷ name) key q v path) - length (b':' ∷ path));
      })
parse_remote-connection c name key q v path hn hk ne hq =
    let tail : Text = key ++ (b'=' ∷ q ∷ double_quotes q v ++ (q ∷ b':' ∷ path)) in
    let colon : contains_rune tail b':' ≡ true =
      contains_rune-append key (b'=' ∷ q ∷ double_quotes q v ++ (q ∷ b':' ∷ path)) b':'
        (ground (arith, contains_rune-append (double_quotes q v) (q ∷ b':' ∷ path) b':')) in
    parse_remote_of (connection (c ∷ name) key q v path) _ (
      parse_remote_fuel-plain c (name ++ (b',' ∷ tail)) (c ∷ name) (b',' ∷ tail) (ground arith)
        (ground (arith, contains_rune-append name (b',' ∷ tail) b':'))
        (span_until-append (codes ":,/\\") (c ∷ name) tail b',' hn refl)
      ∙ named-connection c (name ++ (b',' ∷ tail)) (c ∷ name) tail key v path
          (one_option-connection key q v path hk ne hq))
