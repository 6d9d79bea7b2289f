-- ===== src/Storage/Paging/Cursors.antt =====
-- A cursor gives back the id it was made of.
use seo_crawler_mcp.Prelude.{ℕ, ◌<◌, false, some, Bytes, is_empty, ◌≡◌, arith}
use seo_crawler_mcp.Prelude.Int.{ℤ, pos}
use seo_crawler_mcp.Prelude.Result.{ok}
use seo_crawler_mcp.Storage.Decimal.{
  int64_bound, format_int, parse_int, format_int-full, format_int-All, parse_int-format_int,
}
use seo_crawler_mcp.Storage.Base64.{
  encode_to_string, decode_string, encode_to_string-full, decode_string-encode_to_string,
}
use seo_crawler_mcp.Storage.Paging.{encode_cursor, decode_cursor}

pub encode_cursor-full : (id : ℕ) → is_empty (encode_cursor id) ≡ false
unfolding encode_cursor
encode_cursor-full id = encode_to_string-full (format_int (pos id)) (format_int-full id)

cursor_read :
    (cursor raw : Bytes) (n : ℤ)
    → is_empty cursor ≡ false
    → decode_string cursor ≡ some raw
    → parse_int raw ≡ some n
    → decode_cursor cursor ≡ ok n
unfolding decode_cursor
cursor_read cursor raw n a b c = ground (arith, a, b, c)

-- A cursor that is encoded decodes to its id, which is an int64 that is not negative.
pub decode_cursor-encode_cursor :
    (id : ℕ) → id < int64_bound → decode_cursor (encode_cursor id) ≡ ok (pos id)
unfolding encode_cursor
decode_cursor-encode_cursor id small =
    cursor_read (encode_to_string (format_int (pos id))) (format_int (pos id)) (pos id)
      (encode_cursor-full id)
      (decode_string-encode_to_string (format_int (pos id)) (format_int-All id))
      (parse_int-format_int id small)
