-- ===== src/Pagination/LabelCursors.antt =====
-- The cursor of the labels' list: backend/app/features/labels/pagination.py. It names its ordering,
-- and the key of the last row in that ordering.
pub mod RoundTrip
mod Tests
use zenith_enterprise.Common.{
  ℕ, Bool, true, false, Option, none, some, List, [], ◌∷◌, ◌++◌, if◌then◌else◌, min, max,
}
use zenith_enterprise.Common.Text.{Text, codes, is_empty, show, text_eq}
use zenith_enterprise.Pagination.Cursors.{Platform, bar, partition, rpartition, wrap, unwrap}

pub data Sort : Type 0 where
  by_name by_usage_count by_created_at by_last_used : Sort

abbrev pub name_of : Sort → Text
name_of by_name = codes "name"
name_of by_usage_count = codes "usage_count"
name_of by_created_at = codes "created_at"
name_of by_last_used = codes "last_used"

-- The ordering of a name, where there is one: `encoded_sort in SORTS`.
abbrev pub sort_named : Text → Option Sort
sort_named text =
    if text_eq text (name_of by_name)
    then some by_name
    else if text_eq text (name_of by_usage_count)
    then some by_usage_count
    else if text_eq text (name_of by_created_at)
    then some by_created_at
    else if text_eq text (name_of by_last_used)
    then some by_last_used
    else none

abbrev pub same_sort : Sort → Sort → Bool
same_sort a b = text_eq (name_of a) (name_of b)

abbrev pub default_limit : ℕ
default_limit = 20

abbrev pub max_limit : ℕ
max_limit = 100

abbrev pub clamp : Option ℕ → ℕ
clamp none = default_limit
clamp (some limit) = max 1 (min limit max_limit)

module _ (P : Platform) where
  open P use {Stamp, isoformat, fromisoformat, Uuid, str_uuid, parse_uuid, parse_int}

  pub data Key : Type 0 where
    name_key : Text → Key
    count_key : ℕ → Key
    time_key : Stamp → Key

  pub record LabelCursor : Type 0 where
    pub sort : Sort
    pub key : Option Key
    pub id : Uuid

  abbrev pub text_of : Option Key → Text
  text_of none = []
  text_of (some (name_key text)) = text
  text_of (some (count_key n)) = show n
  text_of (some (time_key t)) = isoformat t

  unfoldable pub encode : LabelCursor → Text
  encode c = wrap P (name_of c.sort ++ bar ∷ (text_of c.key ++ bar ∷ str_uuid c.id))

  -- A key that was read, or a `ValueError`.
  abbrev pub some_time : Option Stamp → Option (Option Key)
  some_time none = none
  some_time (some t) = some (some (time_key t))

  abbrev pub some_count : Option ℕ → Option (Option Key)
  some_count none = none
  some_count (some n) = some (some (count_key n))

  abbrev pub key_by : Sort → Text → Option (Option Key)
  key_by by_name key = some (some (name_key key))
  key_by by_usage_count key = some_count (parse_int key)
  key_by by_created_at key = some_time (fromisoformat key)
  key_by by_last_used key = some_time (fromisoformat key)

  -- `_parse`
  abbrev pub parse_key : Sort → Text → Option (Option Key)
  parse_key sort key = if is_empty key then some none else key_by sort key

  abbrev pub cursor_with : Sort → Option (Option Key) → Option Uuid → Option LabelCursor
  cursor_with sort none id = none
  cursor_with sort (some key) none = none
  cursor_with sort (some key) (some id) = some (record { sort = sort; key = key; id = id })

  -- The checks of the ordering, and what comes behind them.
  abbrev pub read_as : Option Sort → Sort → Text → Option LabelCursor
  read_as none expected rest = none
  read_as (some sort) expected rest =
      let parts = rpartition bar rest in
      if same_sort sort expected
      then cursor_with sort (parse_key sort parts.0) (parse_uuid parts.1)
      else none

  abbrev pub read : Option Text → Sort → Option LabelCursor
  read none expected = none
  read (some text) expected =
      let parts = partition bar text in read_as (sort_named parts.0) expected parts.1

  -- `decode`; `none` is `InvalidCursorError`.
  unfoldable pub decode : Text → Sort → Option LabelCursor
  decode value expected = read (unwrap P value) expected
