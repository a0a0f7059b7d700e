-- ===== src/Pagination/LabelCursors/RoundTrip.antt =====
-- A label cursor is read in its own ordering, and in no other.
use zenith_enterprise.Common.{
  ◌≡◌, refl, false, Option, none, some, ◌∷◌, ◌++◌, if◌then◌else◌, contains,
}
use zenith_enterprise.Common.Text.{is_empty, is_empty-show}
use zenith_enterprise.Pagination.Cursors.{Platform, bar}
use zenith_enterprise.Pagination.Cursors.Bars.{partition-append, rpartition-append}
use zenith_enterprise.Pagination.Cursors.RoundTrip.{unwrap-wrap}
use zenith_enterprise.Pagination.LabelCursors.{
  Sort, by_name, by_usage_count, by_created_at, by_last_used, name_of, sort_named, same_sort, Key,
  name_key, count_key, time_key, LabelCursor, text_of, encode, parse_key, cursor_with, decode,
}

name_of-bar : (s : Sort) → contains bar (name_of s) ≡ false
name_of-bar by_name = refl
name_of-bar by_usage_count = refl
name_of-bar by_created_at = refl
name_of-bar by_last_used = refl

sort_named-name_of : (s : Sort) → sort_named (name_of s) ≡ some s
sort_named-name_of by_name = refl
sort_named-name_of by_usage_count = refl
sort_named-name_of by_created_at = refl
sort_named-name_of by_last_used = refl

module _ (P : Platform) where
  open P use {Stamp, isoformat, Uuid, str_uuid, parse_uuid}

  -- A key that the ordering has: a name that is not empty, a count, a time; none in any, as the null
  -- tail of `last_used` is.
  abbrev pub IsKeyOf : Sort → Option (Key P) → Type 0
  IsKeyOf by_name none = Unit {0}
  IsKeyOf by_name (some (name_key text)) = is_empty text ≡ false
  IsKeyOf by_name (some (count_key n)) = ⊥
  IsKeyOf by_name (some (time_key t)) = ⊥
  IsKeyOf by_usage_count none = Unit {0}
  IsKeyOf by_usage_count (some (name_key text)) = ⊥
  IsKeyOf by_usage_count (some (count_key n)) = Unit {0}
  IsKeyOf by_usage_count (some (time_key t)) = ⊥
  IsKeyOf by_created_at none = Unit {0}
  IsKeyOf by_created_at (some (name_key text)) = ⊥
  IsKeyOf by_created_at (some (count_key n)) = ⊥
  IsKeyOf by_created_at (some (time_key t)) = Unit {0}
  IsKeyOf by_last_used none = Unit {0}
  IsKeyOf by_last_used (some (name_key text)) = ⊥
  IsKeyOf by_last_used (some (count_key n)) = ⊥
  IsKeyOf by_last_used (some (time_key t)) = Unit {0}

  parse_key-text_of :
      (s : Sort) (k : Option (Key P)) → IsKeyOf s k → parse_key P s (text_of P k) ≡ some k
  parse_key-text_of s none h = refl
  parse_key-text_of by_name (some (name_key text)) h = rw h refl
  parse_key-text_of by_name (some (count_key n)) h = absurd h
  parse_key-text_of by_name (some (time_key t)) h = absurd h
  parse_key-text_of by_usage_count (some (name_key text)) h = absurd h
  parse_key-text_of by_usage_count (some (count_key n)) h =
      rw (is_empty-show n, P.parse_int_back n) refl
  parse_key-text_of by_usage_count (some (time_key t)) h = absurd h
  parse_key-text_of by_created_at (some (name_key text)) h = absurd h
  parse_key-text_of by_created_at (some (count_key n)) h = absurd h
  parse_key-text_of by_created_at (some (time_key t)) h =
      rw (P.isoformat_full t, P.fromisoformat_back t) refl
  parse_key-text_of by_last_used (some (name_key text)) h = absurd h
  parse_key-text_of by_last_used (some (count_key n)) h = absurd h
  parse_key-text_of by_last_used (some (time_key t)) h =
      rw (P.isoformat_full t, P.fromisoformat_back t) refl

  decode_parts :
      (c : LabelCursor P) (expected : Sort)
      → decode P (encode P c) expected ≡ (
          if same_sort c.sort expected
          then cursor_with P c.sort (parse_key P c.sort (text_of P c.key)) (some c.id)
          else none)
  unfolding encode decode
  decode_parts c expected =
      rw
        (
          unwrap-wrap P (name_of c.sort ++ bar ∷ (text_of P c.key ++ bar ∷ str_uuid c.id)),
          partition-append bar (name_of c.sort) (text_of P c.key ++ bar ∷ str_uuid c.id)
              (name_of-bar c.sort),
          sort_named-name_of c.sort,
          rpartition-append bar (text_of P c.key) (str_uuid c.id) (P.str_uuid_bar c.id),
          P.parse_uuid_back c.id,
        )
        refl

-- A label cursor that was issued, with a key that its ordering has, is decoded to itself for that
-- ordering and refused for every other: a `|` in a label's name does not cut it, and the null tail
-- stays null.
pub decode_back :
    (P : Platform) (c : LabelCursor P) (expected : Sort)
    → IsKeyOf P c.sort c.key
    → decode P (encode P c) expected ≡ (if same_sort c.sort expected then some c else none)
decode_back P c expected h = rw (decode_parts P c expected, parse_key-text_of P c.sort c.key h) refl
