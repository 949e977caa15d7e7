-- ===== src/Backend/Choice.antt =====
-- Where the backend of a destination comes from, and what it decides.
use rclonewatch.Prelude.{
  ℕ, Bool, true, false, Text, ◌∷◌, ◌≡◌, ◌⊎◌, ◌↔◌, inl, inr, refl, arith, codes, text_eq,
  text_eq_iff, All, ◌==◌, contains_rune,
}
use rclonewatch.Effect.{ok, Result-cases}
use rclonewatch.Path.Quote.{connection, Misses, parse_remote-connection}
use rclonewatch.Backend.{
  Outside, destination_backend, require_conditional_write_version, use_consistent_writes,
}

-- A backend that the connection string of the destination names, in quotes and with any characters,
-- is the backend, whatever the environment and rclone's configuration say of the remote.
pub destination_backend-connection :
    (O : Outside) (c : ℕ) (name : Text) (q : ℕ) (v path : Text)
    → All (Misses (codes ":,/\\")) (c ∷ name)
    → (q ≡ 0x27) ⊎ (q ≡ b'"')
    → destination_backend O (connection (c ∷ name) (codes "type") q v path) ≡ ok v
unfolding destination_backend text_eq
destination_backend-connection O c name q v path h k =
    let colon : contains_rune (codes ":,/\\") c ≡ false = h.0 in
    let plain : (c == b':') ≡ false = ground (arith, colon) in
    rw (
      parse_remote-connection c name (codes "type") q v path h (refl, (refl, (refl, (refl, tt))))
          (ground arith) k,
      destination_backend,
      plain,
    )

-- A destination is written under conditions exactly where that is not disabled, its backend is S3,
-- and rclone is recent enough.
pub use_consistent_writes_iff :
    (O : Outside) (destination : Text) (disabled : Bool)
    → (use_consistent_writes O destination disabled ≡ ok true) ↔ (
        (disabled ≡ false)
        × (destination_backend O destination ≡ ok (codes "s3"))
        × (require_conditional_write_version O ≡ ok tt))
unfolding use_consistent_writes
use_consistent_writes_iff O destination true = (λ h. cc, λ h. cc h.0)
use_consistent_writes_iff O destination false =
    elim (Result-cases (destination_backend O destination)) [
      | inr (e, x) ↦ ground (arith, x)
      | inl (b, x) ↦ elim (Result-cases (require_conditional_write_version O)) [
        | inr (e, y) ↦ ground (arith, x, y, text_eq_iff b (codes "s3"))
        | inl (u, y) ↦ ground (arith, x, y, text_eq_iff b (codes "s3"))
      ]
    ]
