-- ===== src/Payload/Filter.antt =====
-- src/payload.go: glob escapes and the arguments of a payload sync.
use rclonewatch.Prelude.{
  ℕ, false, ◌≡◌, ◌↔◌, refl, Text, List, [], ◌∷◌, ◌++◌, codes, contains_rune, if◌then◌else◌, arith,
  Bool-cases, inl, inr,
}
use rclonewatch.Path.Clean.{slash}

abbrev pub glob_characters : Text
glob_characters = codes "\\*?[]{}"

-- `literalFilterPath`
unfoldable pub literal_filter_path : Text → Text
literal_filter_path [] = []
literal_filter_path (c ∷ path) =
    let rest = literal_filter_path path in
    if contains_rune glob_characters c then 0x5c ∷ c ∷ rest else c ∷ rest

-- The two loops of `payloadSyncArgs`.
unfoldable pub exclude_filters : List Text → List Text
exclude_filters [] = []
exclude_filters (f ∷ fs) = codes "--exclude" ∷ (slash ∷ f) ∷ exclude_filters fs

unfoldable pub exclude_patterns : List Text → List Text
exclude_patterns [] = []
exclude_patterns (p ∷ ps) = codes "--exclude" ∷ p ∷ exclude_patterns ps

unfoldable pub payload_sync_args : Text → Text → List Text → List Text → List Text
unfolding exclude_filters exclude_patterns
payload_sync_args source destination state_filters excludes =
    codes "sync"
    ∷ source
    ∷ destination
    ∷ codes "--create-empty-src-dirs"
    ∷ codes "--delete-before"
    ∷ codes "--ignore-times"
    ∷ (exclude_filters state_filters ++ exclude_patterns excludes)

-- What rclone's globs match, for the part of the pattern language that escapes use: a backslash
-- makes the next character literal, and a plain character matches itself.
pub data Matches : Text → Text → Type 0 where
  end : Matches [] []
  escaped : {c : ℕ} {p s : Text} → Matches p s → Matches (0x5c ∷ c ∷ p) (c ∷ s)
  plain :
      {c : ℕ} {p s : Text}
      → contains_rune glob_characters c ≡ false
      → Matches p s
      → Matches (c ∷ p) (c ∷ s)

literal_filter_path-Matches : (path : Text) → Matches (literal_filter_path path) path
unfolding literal_filter_path
literal_filter_path-Matches [] = end
literal_filter_path-Matches (c ∷ path) = elim (Bool-cases (contains_rune glob_characters c)) [
  | inl e ↦ rw e (escaped (literal_filter_path-Matches path))
  | inr e ↦ rw e (plain e (literal_filter_path-Matches path))
]

Matches-literal_filter_path :
    (path : Text) {p s : Text} → Matches p s → p ≡ literal_filter_path path → s ≡ path
unfolding literal_filter_path
Matches-literal_filter_path [] end e = refl
Matches-literal_filter_path [] (escaped m) e = cc
Matches-literal_filter_path [] (plain h m) e = cc
Matches-literal_filter_path (c ∷ path) end e = ground arith
Matches-literal_filter_path (c ∷ path) (escaped {p = p} {s = s} m) e =
    ground (arith, Matches-literal_filter_path path {p = p} {s = s} m)
Matches-literal_filter_path (c ∷ path) (plain {p = p} {s = s} h m) e =
    ground (arith, Matches-literal_filter_path path {p = p} {s = s} m)

-- As a pattern, an escaped path matches that path and nothing else.
pub literal_filter_path_exact : (path s : Text) → Matches (literal_filter_path path) s ↔ (s ≡ path)
literal_filter_path_exact path s = (
  λ m. Matches-literal_filter_path path {p = literal_filter_path path} {s = s} m refl,
  λ e. rw e (literal_filter_path-Matches path),
)
