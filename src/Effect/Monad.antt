-- ===== src/Effect/Monad.antt =====
-- The state and error monad of src/syncstate.go, and its primitive operations.
use rclonewatch.Prelude.{
  ◌≡◌, refl, ◌⊎◌, inl, inr, ℕ, String, Bool, if◌then◌else◌, Option, none, some, Text, ◌∷◌,
}
use rclonewatch.Effect.Types.{
  Error, exited, failed, Command, Status, success, exit, not_run, Reply, FileRead, DiskOp, Env,
  SyncState, Result, ok, err, ran, did, Machine, M,
}

abbrev pub map_error : {A : Type 0} → (Error → Error) → Result A → Result A
map_error f (ok a) = ok a
map_error f (err e) = err (f e)

module _ {E : Env} where
  -- What follows a step, from its result and its machine.
  abbrev pub next : {A B : Type 0} → (A → M E B) → Result A → Machine E → Result B × Machine E
  next f (ok a) h = f a h
  next f (err e) h = (err e, h)

  infixl 5 ◌>>=◌ ◌>>◌
  abbrev pub ◌>>=◌ : {A B : Type 0} → M E A → (A → M E B) → M E B
  ◌>>=◌ m f h = next f (m h).0 (m h).1

  abbrev pub ◌>>◌ : {A B : Type 0} → M E A → M E B → M E B
  ◌>>◌ m k h = next (λ _. k) (m h).0 (m h).1

  abbrev pub return : {A : Type 0} → A → M E A
  return a h = (ok a, h)

  abbrev pub fail : {A : Type 0} → Error → M E A
  fail e h = (err e, h)

  -- The result as a value, for code that goes on after an error.
  abbrev pub attempt : {A : Type 0} → M E A → M E (Result A)
  attempt m h = (ok (m h).0, (m h).1)

  -- `if err := m; err != nil { return f(err) }`
  abbrev pub on_error : {A : Type 0} → (Error → Error) → M E A → M E A
  on_error f m h = (map_error f (m h).0, (m h).1)

  abbrev pub get : M E SyncState
  get h = (ok h.state, h)

  abbrev pub modify : (SyncState → SyncState) → M E (Unit {0})
  modify f h = (ok tt, record h { state = f h.state })

module _ (E : Env) where
  unfoldable pub run_command : Command → M E Reply
  run_command cmd h =
      let r = E.run h.state.releasing cmd h.world in
      (ok r.0, record h { world = r.1; trace = ran cmd ∷ h.trace })

  unfoldable pub now : M E ℕ
  now h = let r = E.now h.world in (ok r.0, record h { world = r.1 })

  unfoldable pub wait_until : ℕ → M E (Option ℕ)
  wait_until t h = let r = E.wait_until t h.world in (ok r.0, record h { world = r.1 })

  unfoldable pub timer_fired : ℕ → M E Bool
  timer_fired t h = let r = E.timer_fired t h.world in (ok r.0, record h { world = r.1 })

  unfoldable pub random_text : M E String
  random_text h = let r = E.random_text h.world in (ok r.0, record h { world = r.1 })

  unfoldable pub read_file : Text → M E FileRead
  read_file p h = let r = E.read_file p h.world in (ok r.0, record h { world = r.1 })

  -- A system call that fails ends the operation with its error.
  unfoldable pub disk : DiskOp → M E (Unit {0})
  disk op h =
      let r = E.disk op h.world in
      (if r.0 then ok tt else err failed, record h { world = r.1; trace = did op ∷ h.trace })

abbrev pub status_error : Status → Option Error
status_error success = none
status_error (exit code) = some (exited code)
status_error not_run = some failed

-- To split on a computed result and keep the equation.
pub Result-cases {ℓ} :
    {A : Type ℓ} (r : Result A) → ((a : A) × (r ≡ ok a)) ⊎ ((e : Error) × (r ≡ err e))
Result-cases (ok a) = inl (a, refl)
Result-cases (err e) = inr (e, refl)
