-- ===== src/Storage/Rows.antt =====
-- The tables of internal/storage that the paged queries read, as lists of rows with the columns that
-- these queries test or join on; `none` is NULL. A join on a key finds the row with that key.
use seo_crawler_mcp.Prelude.{ℕ, Bool, Option, none, some, List, [], ◌∷◌, Bytes, if◌then◌else◌, ◌==◌}

pub record UrlRow : Type 0 where
  pub id : ℕ
  pub normalized_url : Bytes
  pub host : Bytes
  pub is_internal : Bool

pub record Fetch : Type 0 where
  pub id : ℕ
  pub job_id : Bytes
  pub requested_url_id : ℕ
  pub status_code : Option ℕ
  pub content_type : Option Bytes

pub record Page : Type 0 where
  pub id : ℕ
  pub job_id : Bytes
  pub url_id : ℕ
  pub fetch_id : ℕ
  pub depth : ℕ
  pub url_group : Option Bytes
  pub indexability_state : Bytes

pub record Issue : Type 0 where
  pub id : ℕ
  pub job_id : Bytes
  pub url_id : Option ℕ
  pub issue_type : Bytes
  pub severity : Bytes

pub record Edge : Type 0 where
  pub id : ℕ
  pub job_id : Bytes
  pub source_url_id : ℕ
  pub normalized_target_url_id : Option ℕ
  pub relation_type : Bytes
  pub is_internal : Bool
  pub declared_target_url : Bytes

pub record Tables : Type 0 where
  pub urls : List UrlRow
  pub fetches : List Fetch
  pub pages : List Page
  pub issues : List Issue
  pub edges : List Edge

unfoldable pub url_row : ℕ → List UrlRow → Option UrlRow
url_row id [] = none
url_row id (u ∷ us) = let later = url_row id us in if u.id == id then some u else later

unfoldable pub fetch_row : ℕ → List Fetch → Option Fetch
fetch_row id [] = none
fetch_row id (f ∷ fs) = let later = fetch_row id fs in if f.id == id then some f else later

-- A row of a column that may be NULL joins with none then.
unfoldable pub url_row_of : Option ℕ → List UrlRow → Option UrlRow
url_row_of none us = none
url_row_of (some id) us = url_row id us
