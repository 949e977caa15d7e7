-- ===== src/Payload/Promote.antt =====
-- Where a changed path is promoted to.
use rclonewatch.Prelude.{Text, List, [], ◌∷◌, ◌≡◌, ◌⊎◌, arith}
use rclonewatch.Effect.{ok}
use rclonewatch.Payload.Scopes.{Stat, directory, other, missing, promote}

-- Where a path is promoted to: what `promote` returns lies below a directory or at the top, and every
-- ancestor that it passed over on the way is no directory.
abbrev pub PromotedTo : (Text → Stat) → Text → List Text → Text → Type 0
PromotedTo lstat relative [] r = r ≡ relative
PromotedTo lstat relative (p ∷ ps) r =
    ((r ≡ relative) × (lstat p ≡ directory))
    ⊎ (((lstat p ≡ other) ⊎ (lstat p ≡ missing)) × PromotedTo lstat p ps r)

-- A promoted path is the given path or an ancestor of it that stands below the first directory on
-- the way up, or at the top; every ancestor passed over is missing or no directory.
pub promote_ok :
    (lstat : Text → Stat) (relative : Text) (ps : List Text) {r : Text}
    → promote lstat relative ps ≡ ok r
    → PromotedTo lstat relative ps r
unfolding promote
promote_ok lstat relative [] h = ground arith
promote_ok lstat relative (p ∷ ps) {r} h = ground (arith, promote_ok lstat p ps {r = r})
