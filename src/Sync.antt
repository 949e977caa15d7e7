-- ===== src/Sync.antt =====
-- src/main.go and src/payload.go: one sync of the loop, `(*syncer).Sync`.
pub mod Outcome
pub mod Order
use rclonewatch.Prelude.{
  ℕ, Bool, true, false, ◌&&◌, Option, none, some, Text, List, [], ◌∷◌, ◌++◌, codes, text_eq,
  mem_text, if◌then◌else◌, is_empty,
}
use rclonewatch.Effect.{
  text, wrap, payload, create_temp, write, close_file, Env, Settings, Result, ok, err, M, ◌>>=◌,
  ◌>>◌, return, fail, on_error, Command, run_command, disk, Error, status_error,
}
use rclonewatch.Path.Clean.{slash, dot}
use rclonewatch.Payload.Filter.{payload_sync_args}
use rclonewatch.Payload.Scopes.{
  Stat, directory, other, missing, unreadable, parents, is_exact, reconciliation_scopes,
}
use rclonewatch.Payload.Encoding.{scope_filter_path}
use rclonewatch.Remote.Run.{payload_filters}
use rclonewatch.Session.Generation.{before_remote_change, after_remote_change}

-- The loop over the batch, a path that is protected being left out.
unfoldable pub unprotected : Option Settings → List Text → List Text
unprotected state [] = []
unprotected state (p ∷ ps) =
    let rest = unprotected state ps in if is_exact state p then rest else p ∷ rest

-- What `syncScopes` finds at the scopes: those that exist, and those that do not.
unfoldable pub partition_scopes : (Text → Stat) → List Text → Result (List Text × List Text)
partition_scopes lstat [] = ok ([], [])
partition_scopes lstat (p ∷ ps) =
    let rest = partition_scopes lstat ps in
    elim (lstat p) [
      | unreadable ↦ err (text "inspect changed path")
      | missing ↦ elim rest [ err e ↦ err e | ok (es, ds) ↦ ok (es, p ∷ ds) ]
      | directory ↦ elim rest [ err e ↦ err e | ok (es, ds) ↦ ok (p ∷ es, ds) ]
      | other ↦ elim rest [ err e ↦ err e | ok (es, ds) ↦ ok (p ∷ es, ds) ]
    ]

-- The patterns of one scope: the path, what lies below it, and its ancestors where directories may be
-- created.
abbrev pub ancestor_patterns : List Text → List Text
ancestor_patterns [] = []
ancestor_patterns (p ∷ ps) = scope_filter_path p ∷ ancestor_patterns ps

abbrev pub scope_patterns : Bool → Text → List Text
scope_patterns create_directories p =
    scope_filter_path p
    ∷ (scope_filter_path p ++ codes "/**")
    ∷ (if create_directories then ancestor_patterns (parents p) else [])

unfoldable pub all_patterns : Bool → List Text → List Text
all_patterns create_directories [] = []
all_patterns create_directories (p ∷ ps) =
    scope_patterns create_directories p ++ all_patterns create_directories ps

-- `include`: a pattern is written once. The patterns written so far are given.
unfoldable pub include_lines : List Text → List Text → Text
unfolding mem_text
include_lines written [] = []
include_lines written (p ∷ ps) =
    let pass = include_lines written ps in
    let line = codes "+ /" ++ (p ++ (10 ∷ include_lines (p ∷ written) ps)) in
    if mem_text p written then pass else line

-- The contents of the filter file.
unfoldable pub filter_file : Bool → List Text → Text
unfolding all_patterns include_lines
filter_file create_directories scopes =
    include_lines [] (all_patterns create_directories scopes) ++ (codes "- /**" ++ (10 ∷ []))

module _ (E : Env) (c : Settings) (tracked : Bool) where
  -- `s.state`, which is nil with `--upload-only`.
  abbrev pub tracked_state : Option Settings
  tracked_state = if tracked then some c else none

  abbrev filters : List Text
  filters = if tracked then payload_filters c else []

  abbrev raise : Option Error → M E (Unit {0})
  raise none = return tt
  raise (some e) = fail e

  -- `(*syncer).run`, which gives the command's error as it is.
  unfoldable pub run_sync : Command → M E (Unit {0})
  run_sync cmd = do r ← run_command E cmd; raise (status_error r.status)

  -- `fullSync`
  unfoldable pub full_sync : M E (Unit {0})
  unfolding run_sync
  full_sync =
      on_error (wrap "full sync")
        (run_sync (payload (payload_sync_args c.source c.dest filters c.excludes)))

  -- `syncScopeGroup`. The command carries the contents of the filter file in place of its name.
  unfoldable pub sync_scope_group : List Text → Bool → M E (Unit {0})
  unfolding filter_file run_sync
  sync_scope_group scopes create_directories = do
    disk E (create_temp [])
    disk E (write (filter_file create_directories scopes))
    disk E close_file
    on_error (wrap "sync changed paths") (
        run_sync (
          payload (
            payload_sync_args c.source c.dest filters c.excludes
            ++ ((if create_directories then [] else codes "--create-empty-src-dirs=false" ∷ [])
                ++ (codes "--filter-from" ∷ filter_file create_directories scopes ∷ [])))))

  abbrev pub unless_empty : List Text → M E (Unit {0}) → M E (Unit {0})
  unless_empty [] m = return tt
  unless_empty (_ ∷ _) m = m

  abbrev pub sync_groups : Result (List Text × List Text) → M E (Unit {0})
  sync_groups (err e) = fail e
  sync_groups (ok (existing, deleted)) = do
    unless_empty deleted (sync_scope_group deleted false)
    unless_empty existing (sync_scope_group existing true)

  -- `syncScopes`: deletions come first.
  unfoldable pub sync_scopes : (Text → Stat) → List Text → M E (Unit {0})
  unfolding partition_scopes
  sync_scopes lstat scopes = sync_groups (partition_scopes lstat scopes)

  abbrev pub transfer : (Text → Stat) → List Text → M E (Unit {0})
  transfer lstat [] = return tt
  transfer lstat (p ∷ ps) = if text_eq p dot then full_sync else sync_scopes lstat (p ∷ ps)

  abbrev pub sync_around : (Text → Stat) → List Text → M E (Unit {0})
  sync_around lstat scopes = do
    if tracked then on_error (wrap "advance generation") (before_remote_change E c) else return tt
    transfer lstat scopes
    if tracked then after_remote_change E c else return tt

  abbrev pub sync_reconciled : (Text → Stat) → Result (List Text) → M E (Unit {0})
  sync_reconciled lstat (err e) = fail e
  sync_reconciled lstat (ok []) = return tt
  sync_reconciled lstat (ok (p ∷ ps)) = sync_around lstat (p ∷ ps)

  -- `Sync`, of the paths of a batch. `lstat` is the directory tree when the scopes are chosen, and
  -- `lstat'` when they are visited.
  unfoldable pub sync : (Text → Stat) → (Text → Stat) → List Text → M E (Unit {0})
  unfolding reconciliation_scopes unprotected
  sync lstat lstat' [] = return tt
  sync lstat lstat' (p ∷ ps) =
      sync_reconciled lstat'
        (reconciliation_scopes lstat tracked_state (unprotected tracked_state (p ∷ ps)))
