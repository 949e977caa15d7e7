-- ===== src/Watcher/Maps.antt =====
-- Go's maps of the watcher, as association lists: a key is looked up where it stands first, and
-- writing and deleting remove what stood under it.
use rclonewatch.Prelude.{
  ℕ, Bool, true, Option, none, some, List, [], ◌∷◌, ◌≡◌, refl, arith, if◌then◌else◌, text_eq,
  text_eq_iff, Text, ◌==◌,
}

-- Keys with a Boolean equality test.
pub record Key {ℓ} (K : Type ℓ) : Type ℓ where
  pub same : K → K → Bool
  pub same_self : (k : K) → same k k ≡ true
  pub same_eq : (j k : K) → same j k ≡ true → j ≡ k

pub descriptor_self : (k : ℕ) → (k == k) ≡ true
descriptor_self k = ground arith

pub descriptor_eq : (j k : ℕ) → (j == k) ≡ true → j ≡ k
descriptor_eq j k h = ground arith

instance abbrev pub descriptor_key : Key ℕ
descriptor_key = record { same = ◌==◌; same_self = descriptor_self; same_eq = descriptor_eq }

pub path_eq : (j k : Text) → text_eq j k ≡ true → j ≡ k
path_eq j k h = (text_eq_iff j k).0 h

pub path_self : (k : Text) → text_eq k k ≡ true
path_self k = (text_eq_iff k k).1 refl

instance abbrev pub path_key : Key Text
path_key = record { same = text_eq; same_self = path_self; same_eq = path_eq }

module _ {K V : Type 0} ⦃e : Key K⦄ where
  unfoldable pub find : K → List (K × V) → Option V
  find k [] = none
  find k ((j, v) ∷ m) = if e.same j k then some v else find k m

  -- `delete(m, k)`
  unfoldable pub delete : K → List (K × V) → List (K × V)
  delete k [] = []
  delete k ((j, v) ∷ m) = let rest = delete k m in if e.same j k then rest else (j, v) ∷ rest

  -- `m[k] = v`
  unfoldable pub put : K → V → List (K × V) → List (K × V)
  unfolding delete
  put k v m = (k, v) ∷ delete k m

  pub find-delete :
      (k j : K) (m : List (K × V)) → find j (delete k m) ≡ (if e.same k j then none else find j m)
  unfolding find delete
  find-delete k j [] = ground arith
  find-delete k j ((i, v) ∷ m) = ground (
    arith,
    find-delete k j m,
    e.same_eq i k,
    e.same_eq i j,
    e.same_eq k j,
    e.same_self k,
    e.same_self i,
    e.same_self j,
  )

  pub find-put :
      (k j : K) (v : V) (m : List (K × V))
      → find j (put k v m) ≡ (if e.same k j then some v else find j m)
  unfolding find put
  find-put k j v m = ground (arith, find-delete k j m)
