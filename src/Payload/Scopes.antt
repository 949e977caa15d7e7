-- ===== src/Payload/Scopes.antt =====
-- src/payload.go: the paths of a batch, reduced to the scopes that a sync has to visit.
use rclonewatch.Prelude.{
  Bool, false, not, ◌||◌, Option, none, some, Text, List, [], ◌∷◌, ◌++◌, codes, text_eq, mem_text,
  text_le, has_prefix, if◌then◌else◌, is_empty, ◌==◌,
}
use rclonewatch.Effect.{text, Settings, Result, ok, err}
use rclonewatch.Path.Clean.{slash, dot, dot_dot, is_abs, clean}
use rclonewatch.Payload.Utf8.{valid_utf8}
use rclonewatch.Remote.Run.{protects}

-- The ancestors of a path that stand behind a front: the texts before its slashes, the nearest first.
-- Of a clean relative path these are `path.Dir`, its `path.Dir`, and so on up to ".".
unfoldable pub parents_loop : Text → List Text → Text → List Text
parents_loop front found [] = found
parents_loop front found (c ∷ p) =
    parents_loop (front ++ (c ∷ [])) (if c == slash then front ∷ found else found) p

unfoldable pub parents : Text → List Text
unfolding parents_loop
parents = parents_loop [] []

-- What `os.Lstat` says of a path below the source.
pub data Stat : Type 0 where
  directory : Stat
  other : Stat
  missing : Stat
  unreadable : Stat

-- The nearest representable path; `none` is the root.
unfoldable pub first_valid : List Text → Option Text
unfolding valid_utf8
first_valid [] = none
first_valid (p ∷ ps) = let rest = first_valid ps in if valid_utf8 p then some p else rest

-- The walk up the ancestors: a path below no directory is promoted to the ancestor that is missing
-- or has been replaced.
unfoldable pub promote : (Text → Stat) → Text → List Text → Result Text
promote lstat relative [] = ok relative
promote lstat relative (p ∷ ps) = elim (lstat p) [
  | directory ↦ ok relative
  | unreadable ↦ err (text "inspect changed ancestor")
  | other ↦ promote lstat p ps
  | missing ↦ promote lstat p ps
]

abbrev invalid : Text → Bool
invalid p =
    is_empty p
    || is_abs p
    || not (text_eq (clean p) p)
    || text_eq p dot_dot
    || has_prefix p (codes "../")

-- What becomes of one path of the batch.
pub data Normal : Type 0 where
  whole : Normal
  skip : Normal
  scope : Text → Normal

abbrev pub is_exact : Option Settings → Text → Bool
is_exact none p = false
is_exact (some c) p = (protects c p).0

abbrev pub unless_exact : Option Settings → Result Text → Result Normal
unless_exact state (err e) = err e
unless_exact state (ok p) = ok (if is_exact state p then skip else scope p)

abbrev pub promoted : (Text → Stat) → Option Settings → Option Text → Result Normal
promoted lstat state none = ok whole
promoted lstat state (some p) = unless_exact state (promote lstat p (parents p))

unfoldable pub normalize : (Text → Stat) → Option Settings → Text → Result Normal
normalize lstat state p =
    if text_eq p dot
    then ok whole
    else (if invalid p
        then err (text "invalid changed path")
        else promoted lstat state (first_valid (p ∷ parents p)))

-- The loop over the batch: `none` is a batch that asks for the whole root.
abbrev pub keep : Normal → Result (Option (List Text)) → Result (Option (List Text))
keep whole rest = ok none
keep skip rest = rest
keep (scope p) (ok (some ps)) = ok (some (p ∷ ps))
keep (scope p) (ok none) = ok none
keep (scope p) (err e) = err e

unfoldable pub normalize_all :
    (Text → Stat) → Option Settings → List Text → Result (Option (List Text))
normalize_all lstat state [] = ok (some [])
normalize_all lstat state (p ∷ ps) =
    let rest = normalize_all lstat state ps in
    elim (normalize lstat state p) [ err e ↦ err e | ok n ↦ keep n rest ]

-- `sort.Strings`
unfoldable pub insert : Text → List Text → List Text
unfolding text_le
insert p [] = p ∷ []
insert p (q ∷ qs) = if text_le p q then p ∷ q ∷ qs else q ∷ insert p qs

unfoldable pub sort : List Text → List Text
unfolding insert
sort [] = []
sort (p ∷ ps) = insert p (sort ps)

unfoldable pub mem_any : List Text → List Text → Bool
unfolding mem_text
mem_any [] selected = false
mem_any (p ∷ ps) selected = mem_text p selected || mem_any ps selected

-- Whether a selected scope is the path or an ancestor of it.
unfoldable pub covered : List Text → Text → Bool
unfolding mem_any
covered selected p = mem_text p selected || mem_any (parents p) selected

-- The last loop, over the sorted paths.
unfoldable pub select : List Text → List Text → List Text
select selected [] = []
select selected (p ∷ ps) =
    let pass = select selected ps in
    let take = p ∷ select (p ∷ selected) ps in if covered selected p then pass else take

-- `reconciliationScopes`
unfoldable pub reconciliation_scopes :
    (Text → Stat) → Option Settings → List Text → Result (List Text)
reconciliation_scopes lstat state paths = elim (normalize_all lstat state paths) [
  | err e ↦ err e
  | ok none ↦ ok (dot ∷ [])
  | ok (some ps) ↦ ok (select [] (sort ps))
]
