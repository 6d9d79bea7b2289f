-- ===== src/Engine/Variants.antt =====
-- queryVariantsTracker in internal/engine/engine.go. Each call holds the lock and is one step; of a map
-- the last entry is first.
pub mod Traps
use seo_crawler_mcp.Prelude.{
  ℕ, Bool, true, false, not, ◌&&◌, List, [], ◌∷◌, Bytes, bytes_eq, bytes_mem, if◌then◌else◌, ltb,
  length,
}

pub record Tracker : Type 0 where
  pub seen : List (Bytes × List Bytes)
  pub flagged : List Bytes

unfoldable pub new_query_variants_tracker : Tracker
new_query_variants_tracker = record { seen = []; flagged = [] }

-- A missing key reads as a new, empty set.
unfoldable pub bucket_of : Bytes → List (Bytes × List Bytes) → List Bytes
bucket_of path [] = []
bucket_of path ((p, queries) ∷ rest) =
    let later = bucket_of path rest in if bytes_eq p path then queries else later

unfoldable pub with_query : Bytes → List Bytes → List Bytes
with_query query queries = if bytes_mem query queries then queries else query ∷ queries

unfoldable pub observe : Bytes → Bytes → ℕ → Tracker → (ℕ × Bool) × Tracker
observe path query threshold t =
    let bucket = with_query query (bucket_of path t.seen) in
    let should_emit_issue = ltb threshold (length bucket) && not (bytes_mem path t.flagged) in
    (
      (length bucket, should_emit_issue),
      record {
        seen = (path, bucket) ∷ t.seen;
        flagged = if should_emit_issue then path ∷ t.flagged else t.flagged;
      },
    )
