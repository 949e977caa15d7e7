-- ===== src/Config/Kept.antt =====
-- Setting an option leaves the fields of the others.
use rclonewatch.Prelude.{◌≡◌, refl, ℕ, true, false, Option, none, some, Text, text_eq}
use rclonewatch.Effect.{Result, ok, err}
use rclonewatch.Config.LockWaitFlag.{set_exclude, set_lock_wait}
use rclonewatch.Config.Duration.{parse_duration}
use rclonewatch.Config.Flags.{
  FlagName, interval, lock_ttl, lock_wait, persistent_lock, exclude, logs, upload_only,
  force_delete_untracked_remote, fail_on_incomplete_sync, no_consistent_writes, state_file,
  state_file_local, state_file_remote, ParsedConfig, of_option, of_result, set_value, parse_bool,
  flag_text,
}

-- Another option than the one set.
abbrev pub Other : FlagName → FlagName → Type 0
unfolding text_eq flag_text
Other f g = text_eq (flag_text f) (flag_text g) ≡ false

-- Setting an option changes no field of another one.
abbrev pub Kept : FlagName → ParsedConfig → ParsedConfig → Type 0
Kept f c d =
    (d.command ≡ c.command)
    × (Other lock_ttl f → d.lock_timeout ≡ c.lock_timeout)
    × (Other lock_wait f → d.lock_wait ≡ c.lock_wait)
    × (Other persistent_lock f → d.persistent_lock ≡ c.persistent_lock)

clash {κ} : {P : Type κ} → true ≡ false → P
clash e = absurd cc

module _ (f : FlagName) (c d : ParsedConfig) where
  ok-Kept : (k : ParsedConfig) → Kept f c k → Result.ok k ≡ ok d → Kept f c d
  ok-Kept k h e = let p : d ≡ k = cc in rw p h

  of_option-Kept :
      {A : Type 0} (g : A → ParsedConfig) (o : Option A)
      → ((a : A) → Kept f c (g a))
      → of_option g o ≡ ok d
      → Kept f c d
  of_option-Kept g none h e = absurd cc
  of_option-Kept g (some a) h e = let p : d ≡ g a = cc in rw p (h a)

  of_result-Kept :
      {A : Type 0} (g : A → ParsedConfig) (r : Result A)
      → ((a : A) → Kept f c (g a))
      → of_result g r ≡ ok d
      → Kept f c d
  of_result-Kept g (err x) h e = absurd cc
  of_result-Kept g (ok a) h e = let p : d ≡ g a = cc in rw p (h a)

module _ (fraction_of : ℕ → ℕ → ℕ → ℕ) where
  pub set_value-Kept :
      (f : FlagName) (v : Text) (c d : ParsedConfig)
      → set_value fraction_of f v c ≡ ok d
      → Kept f c d
  unfolding set_value text_eq flag_text
  set_value-Kept interval v c d e =
      of_option-Kept interval c d _ (parse_duration fraction_of v)
        (λ x. (refl, λ _. refl, λ _. refl, λ _. refl)) e
  set_value-Kept lock_ttl v c d e =
      of_option-Kept lock_ttl c d _ (parse_duration fraction_of v)
        (λ x. (refl, λ n. clash n, λ _. refl, λ _. refl)) e
  set_value-Kept lock_wait v c d e =
      of_result-Kept lock_wait c d _ (set_lock_wait fraction_of v c.lock_wait).0
        (λ x. (refl, λ _. refl, λ n. clash n, λ _. refl)) e
  set_value-Kept persistent_lock v c d e =
      ok-Kept persistent_lock c d (record c { persistent_lock = v })
        (refl, λ _. refl, λ _. refl, λ n. clash n) e
  set_value-Kept exclude v c d e =
      of_result-Kept exclude c d _ (set_exclude v c.excludes)
        (λ x. (refl, λ _. refl, λ _. refl, λ _. refl)) e
  set_value-Kept logs v c d e =
      of_option-Kept logs c d _ (parse_bool v) (λ x. (refl, λ _. refl, λ _. refl, λ _. refl)) e
  set_value-Kept upload_only v c d e =
      of_option-Kept upload_only c d _ (parse_bool v) (λ x. (refl, λ _. refl, λ _. refl, λ _. refl))
        e
  set_value-Kept force_delete_untracked_remote v c d e =
      of_option-Kept force_delete_untracked_remote c d _ (parse_bool v)
        (λ x. (refl, λ _. refl, λ _. refl, λ _. refl)) e
  set_value-Kept fail_on_incomplete_sync v c d e =
      of_option-Kept fail_on_incomplete_sync c d _ (parse_bool v)
        (λ x. (refl, λ _. refl, λ _. refl, λ _. refl)) e
  set_value-Kept no_consistent_writes v c d e =
      of_option-Kept no_consistent_writes c d _ (parse_bool v)
        (λ x. (refl, λ _. refl, λ _. refl, λ _. refl)) e
  set_value-Kept state_file v c d e =
      ok-Kept state_file c d (record c { state_file = v }) (refl, λ _. refl, λ _. refl, λ _. refl) e
  set_value-Kept state_file_local v c d e =
      ok-Kept state_file_local c d (record c { state_file_local = v })
        (refl, λ _. refl, λ _. refl, λ _. refl) e
  set_value-Kept state_file_remote v c d e =
      ok-Kept state_file_remote c d (record c { state_file_remote = v })
        (refl, λ _. refl, λ _. refl, λ _. refl) e
