-- ===== src/Engine/Depths/Walks.antt =====
-- Walks along internal links between pages.
use seo_crawler_mcp.Prelude.{ℕ, suc, true, List, Bytes, bytes_mem, ◌≡◌}
use seo_crawler_mcp.Engine.Depths.{PageNode, Link, is_page, adjacent}

-- So many links lead from a seed that is a page to the page.
pub data Walk (pages : List PageNode) (seeds : List Bytes) (links : List Link)
    : ℕ → Bytes → Type 0 where
  from_seed :
      {u : Bytes} → bytes_mem u seeds ≡ true → is_page u pages ≡ true → Walk pages seeds links 0 u
  along :
      {n : ℕ} {u v : Bytes}
      → Walk pages seeds links n u
      → bytes_mem v (adjacent u links) ≡ true
      → is_page v pages ≡ true
      → Walk pages seeds links (suc n) v
