-- ===== src/Examples/Paths.antt =====
-- The theorems on paths, filters and scopes, at concrete inputs.
use rclonewatch.Prelude.{
  true, Option, none, some, Text, List, [], ◌∷◌, ◌≡◌, ◌≢◌, ◌⊎◌, inl, refl, codes, if◌then◌else◌,
  text_eq, mem_text, has_prefix, length, ◌-◌,
}
use rclonewatch.Effect.{Settings, ok}
use rclonewatch.Path.Clean.{clean, dot}
use rclonewatch.Path.Remote.{parse_remote, parse_remote_fuel}
use rclonewatch.Path.Total.{parse_remote_total}
use rclonewatch.Path.Quote.{connection, parse_remote-connection}
use rclonewatch.Payload.Scopes.{
  Stat, directory, missing, parents, promote, normalize, normalize_all, sort, select, covered,
  first_valid, reconciliation_scopes,
}
use mathlib.Core.List.{Permᴰ}
use rclonewatch.Payload.Order.{reconciliation_scopes_reordered}
use rclonewatch.Payload.Metadata.{IsPromoted, IsMetadata}
use rclonewatch.Payload.Coverage.{reconciliation_scopes_cover}
use rclonewatch.Payload.Apart.{PairwiseApart, reconciliation_scopes-PairwiseApart}

-- A value with a colon, a comma and a quote.
parse_remote-connection_example :
    parse_remote (connection (codes "s3") (codes "endpoint") 0x27 (codes "h:1,'x") (codes "b/p"))
    ≡ ok (record {
      name = codes "s3";
      options = (codes "endpoint", codes "h:1,'x") ∷ [];
      colon = some (
          length (connection (codes "s3") (codes "endpoint") 0x27 (codes "h:1,'x") (codes "b/p"))
          - 4);
    })
parse_remote-connection_example =
    parse_remote-connection b's' (b'3' ∷ []) (codes "endpoint") 0x27 (codes "h:1,'x") (codes "b/p")
      (refl, (refl, tt)) (refl, (refl, (refl, (refl, (refl, (refl, (refl, (refl, tt))))))))
      (λ e. cc) (inl refl)

parse_remote_total_example : parse_remote_fuel (codes "s3,env_auth:b") ≢ none
parse_remote_total_example = parse_remote_total (codes "s3,env_auth:b")

-- The directory `a` is there, and `a/gone` is not.
abbrev tree : Text → Stat
tree p = if text_eq p (codes "a") then directory else missing

abbrev changes : List Text
changes = codes "a/gone/x" ∷ codes "a/gone" ∷ codes "b" ∷ []

reconciliation_scopes_cover_example :
    ((codes "a/gone" ∷ codes "b" ∷ []) ≡ dot ∷ [])
    ⊎ ((c : Settings) × (r : Text) × (◌≡◌ {A = Option Settings} none (some c))
        × IsPromoted tree (codes "a/gone/x") r
        × IsMetadata c r)
    ⊎ ((r : Text) × IsPromoted tree (codes "a/gone/x") r
        × (covered (codes "a/gone" ∷ codes "b" ∷ []) r ≡ true))
unfolding reconciliation_scopes normalize_all normalize clean has_prefix text_eq parents promote
    first_valid sort select covered mem_text
reconciliation_scopes_cover_example =
    reconciliation_scopes_cover tree none changes (codes "a/gone/x")
      {scopes = codes "a/gone" ∷ codes "b" ∷ []} refl refl

reconciliation_scopes-PairwiseApart_example : PairwiseApart (codes "a/gone" ∷ codes "b" ∷ [])
unfolding reconciliation_scopes normalize_all normalize clean has_prefix text_eq parents promote
    first_valid sort select covered mem_text
reconciliation_scopes-PairwiseApart_example =
    reconciliation_scopes-PairwiseApart tree none changes {scopes = codes "a/gone" ∷ codes "b" ∷ []}
      refl

-- Go may visit the first two changes in the other order.
abbrev reordered : List Text
reordered = codes "a/gone" ∷ codes "a/gone/x" ∷ codes "b" ∷ []

reconciliation_scopes_reordered_example :
    codes "a/gone" ∷ codes "b" ∷ [] ≡ codes "a/gone" ∷ codes "b" ∷ []
unfolding reconciliation_scopes normalize_all normalize clean has_prefix text_eq parents promote
    first_valid sort select covered mem_text
reconciliation_scopes_reordered_example =
    reconciliation_scopes_reordered tree none changes reordered (codes "a/gone" ∷ codes "b" ∷ [])
      (codes "a/gone" ∷ codes "b" ∷ []) (Permᴰ.swap refl refl) refl refl
