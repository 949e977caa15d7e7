-- ===== src/Prelude/Texts.antt =====
-- Text that the program walks: a list of code points (bytes where the source walks bytes).
use Prim.Native.Nat.{ℕ}
use Prim.Native.Char.{code}
use Prim.Native.String.{String}
use mathlib.Core.Path.{◌≡◌, refl}
use mathlib.Core.Logic.{◌↔◌}
use mathlib.Core.Bool.{Bool, true, false, ◌&&◌, ◌||◌}
use mathlib.Core.Option
use mathlib.Core.Option.{Option, none, some}
use mathlib.Core.List.{List, [], ◌∷◌, ◌++◌, reverse}
use native.Mathlib.Omega.{arith}
use rclonewatch.Prelude.Tests.{◌==◌, ==_iff, leb, ltb, if◌then◌else◌}

abbrev pub Text : Type 0
Text = List ℕ

abbrev pub codes : String → Text
codes String.[] = []
codes (String.◌∷◌ c s) = code c ∷ codes s

unfoldable pub text_eq : Text → Text → Bool
text_eq [] [] = true
text_eq (a ∷ s) (b ∷ t) = a == b && text_eq s t
text_eq _ _ = false

pub text_eq_refl : (s : Text) → text_eq s s ≡ true
unfolding text_eq
text_eq_refl [] = refl
text_eq_refl (a ∷ s) = ground (arith, text_eq_refl s)

pub text_eq_iff : (s t : Text) → (text_eq s t ≡ true) ↔ (s ≡ t)
unfolding text_eq
text_eq_iff [] [] = (λ _. refl, λ _. refl)
text_eq_iff [] (b ∷ t) = (λ h. cc, λ h. cc)
text_eq_iff (a ∷ s) [] = (λ h. cc, λ h. cc)
text_eq_iff (a ∷ s) (b ∷ t) = ground (arith, text_eq_iff s t, ==_iff a b)

-- `strings.HasPrefix(s, p)`
unfoldable pub has_prefix : Text → Text → Bool
has_prefix s [] = true
has_prefix [] (b ∷ p) = false
has_prefix (a ∷ s) (b ∷ p) = a == b && has_prefix s p

pub has_prefix_iff : (s p : Text) → (has_prefix s p ≡ true) ↔ ((r : Text) × (s ≡ p ++ r))
unfolding has_prefix
has_prefix_iff s [] = (λ _. (s, refl), λ _. refl)
has_prefix_iff [] (b ∷ p) = (λ h. absurd (cc h), λ h. cc h.1)
has_prefix_iff (a ∷ s) (b ∷ p) = (
  λ h.
      let e = (has_prefix_iff s p).0 (ground arith) in
      let q : a ≡ b = ground (arith, ==_iff a b) in (e.0, cc (e.1, q)),
  λ h.
      let e : has_prefix s p ≡ true = (has_prefix_iff s p).1 (h.0, cc h.1) in
      let q : a ≡ b = cc h.1 in ground (arith, ==_iff a b),
)

-- `strings.ContainsRune(set, c)`
abbrev pub contains_rune : Text → ℕ → Bool
contains_rune [] c = false
contains_rune (x ∷ xs) c = x == c || contains_rune xs c

-- `unicode.IsSpace`
abbrev pub is_space : ℕ → Bool
is_space c =
    (leb 9 c && leb c 13)
    || (c == 32 || c == 0x85 || c == 0xa0 || c == 0x1680)
    || (leb 0x2000 c && leb c 0x200a)
    || (c == 0x2028 || c == 0x2029 || c == 0x202f || c == 0x205f || c == 0x3000)

-- Cuts leading characters that satisfy the test.
unfoldable pub trim_left : (ℕ → Bool) → Text → Text
trim_left p [] = []
trim_left p (c ∷ s) = if p c then trim_left p s else c ∷ s

-- `strings.Trim`, by a test on the characters.
unfoldable pub trim : (ℕ → Bool) → Text → Text
unfolding trim_left
trim p s = reverse (trim_left p (reverse (trim_left p s)))

-- `strings.TrimSpace`
unfoldable pub trim_space : Text → Text
unfolding trim
trim_space = trim is_space

-- The first part of `strings.Split(s, sep)` for a one-character separator, and the parts after it.
unfoldable pub split_loop : ℕ → Text → Text → List Text
split_loop sep acc [] = acc ∷ []
split_loop sep acc (c ∷ s) =
    let stop = acc ∷ split_loop sep [] s in
    let go = split_loop sep (acc ++ (c ∷ [])) s in if c == sep then stop else go

unfoldable pub split : ℕ → Text → List Text
unfolding split_loop
split sep = split_loop sep []

-- `strings.Cut` at a one-character separator: what stands before and after its first occurrence.
unfoldable pub cut : ℕ → Text → Option (Text × Text)
cut sep [] = none
cut sep (c ∷ s) = if c == sep then some ([], s) else Option.map (λ (a, b). (c ∷ a, b)) (cut sep s)

unfoldable pub mem_text : Text → List Text → Bool
mem_text t [] = false
mem_text t (u ∷ us) = text_eq u t || mem_text t us

-- Whether s stands before t in byte order, or is t.
unfoldable pub text_le : Text → Text → Bool
text_le [] t = true
text_le (a ∷ s) [] = false
text_le (a ∷ s) (b ∷ t) = ltb a b || (a == b && text_le s t)
