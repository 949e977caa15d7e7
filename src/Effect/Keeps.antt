-- ===== src/Effect/Keeps.antt =====
-- What an operation leaves of a property of the state, rule by rule for the ways of composing operations.
use rclonewatch.Prelude.{◌≡◌, sym, subst, Bool, true, false, if◌then◌else◌}
use rclonewatch.Effect.Types.{Env, SyncState, Result, ok, err, Machine, M}
use rclonewatch.Effect.Monad.{get, next, ◌>>=◌, ◌>>◌}

module _ {E : Env} (P : SyncState → Type 0) where
  -- The operation keeps the property, whatever its result.
  abbrev pub Keeps : {A : Type 0} → M E A → Type 0
  Keeps m = (h : Machine E) → P h.state → P (m h).1.state

  next-Keeps :
      {A B : Type 0} (f : A → M E B) (r : Result A) (h : Machine E)
      → ((a : A) → Keeps (f a))
      → P h.state
      → P (next f r h).1.state
  next-Keeps f (ok a) h k p = k a h p
  next-Keeps f (err e) h k p = p

  pub bind-Keeps :
      {A B : Type 0} (m : M E A) (f : A → M E B)
      → Keeps m
      → ((a : A) → Keeps (f a))
      → Keeps (m >>= f)
  bind-Keeps m f k l h p = next-Keeps f (m h).0 (m h).1 l (k h p)

  pub then-Keeps : {A B : Type 0} (m : M E A) (n : M E B) → Keeps m → Keeps n → Keeps (m >> n)
  then-Keeps m n k l h p = next-Keeps (λ _. n) (m h).0 (m h).1 (λ _. l) (k h p)

  pub if-Keeps :
      {A : Type 0} (b : Bool) (m n : M E A) → Keeps m → Keeps n → Keeps (if b then m else n)
  if-Keeps true m n k l = k
  if-Keeps false m n k l = l

  -- An operation that leaves the state as it is.
  pub same-Keeps : {A : Type 0} (m : M E A) → ((h : Machine E) → (m h).1.state ≡ h.state) → Keeps m
  same-Keeps m e h p = subst P (sym (e h)) p

  pub get-Keeps :
      {A : Type 0} (f : SyncState → M E A)
      → ((s : SyncState) → P s → Keeps (f s))
      → Keeps (get >>= f)
  get-Keeps f k h p = k h.state p h p
