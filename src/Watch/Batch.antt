-- ===== src/Watch/Batch.antt =====
-- src/main.go: batches of changes, keyed by path, and what puts changes into them.
use rclonewatch.Prelude.{
  Bool, false, Option, none, some, Text, List, [], ◌∷◌, ◌≡◌, refl, arith, if◌then◌else◌, text_eq,
  text_eq_iff, is_some,
}
use rclonewatch.Effect.{Settings}
use rclonewatch.Remote.Run.{protects}

pub record Change : Type 0 where
  pub path : Text
  pub is_dir : Bool
  pub removed : Bool

-- `map[string]change`: an item stands under its own path.
abbrev pub Batch : Type 0
Batch = List Change

unfoldable pub lookup : Text → Batch → Option Change
lookup k [] = none
lookup k (item ∷ b) = if text_eq item.path k then some item else lookup k b

-- `addPending`
unfoldable pub add_pending : Batch → Change → Batch
add_pending [] item = item ∷ []
add_pending (x ∷ b) item = if text_eq x.path item.path then item ∷ b else x ∷ add_pending b item

abbrev pub is_exact : Option Settings → Text → Bool
is_exact none path = false
is_exact (some c) path = (protects c path).0

-- `queueChange`
unfoldable pub queue_change : Option Settings → Batch → Change → Batch
unfolding add_pending
queue_change state pending item =
    if is_exact state item.path then pending else add_pending pending item

-- `mergeFailedBatch`
unfoldable pub merge_failed_batch : Batch → Batch → Batch
unfolding add_pending lookup
merge_failed_batch pending [] = pending
merge_failed_batch pending (item ∷ failed) =
    merge_failed_batch
      (if is_some (lookup item.path pending) then pending else add_pending pending item) failed

pub text_eq_sym : (s t : Text) → text_eq s t ≡ text_eq t s
text_eq_sym s t = ground (arith, text_eq_iff s t, text_eq_iff t s)

pub lookup-add_pending :
    (k : Text) (b : Batch) (item : Change)
    → lookup k (add_pending b item) ≡ (if text_eq item.path k then some item else lookup k b)
unfolding lookup add_pending
lookup-add_pending k [] item = refl
lookup-add_pending k (x ∷ b) item = ground (
  arith,
  lookup-add_pending k b item,
  text_eq_iff x.path item.path,
  text_eq_iff item.path k,
  text_eq_iff x.path k,
)

-- A batch holds an item under each path at most once.
abbrev pub NodupPaths : Batch → Type 0
NodupPaths [] = Unit
NodupPaths (item ∷ b) = (lookup item.path b ≡ none) × NodupPaths b

-- After a failed sync each path has the newer of its two changes: the one queued meanwhile, or else
-- the one of the failed batch; nothing else is queued.
pub lookup-merge_failed_batch :
    (k : Text) (pending failed : Batch)
    → lookup k (merge_failed_batch pending failed)
      ≡ (if is_some (lookup k pending) then lookup k pending else lookup k failed)
unfolding merge_failed_batch lookup
lookup-merge_failed_batch k pending [] = ground arith
lookup-merge_failed_batch k pending (item ∷ failed) = ground (
  arith,
  lookup-merge_failed_batch k
      (if is_some (lookup item.path pending) then pending else add_pending pending item) failed,
  lookup-add_pending k pending item,
  text_eq_iff item.path k,
)
