-- ===== src/Pagination/Cursors.antt =====
-- The cursor of the documents' list: backend/app/features/documents/pagination.py. A point of time, a
-- UUID and UTF-8 are those of Python's library, a record of what the code relies on.
pub mod Bars
pub mod RoundTrip
use zenith_enterprise.Common.{
  ℕ, ◌<◌, ◌≡◌, ◌==◌, Bool, false, Option, none, some, List, [], ◌∷◌, ◌++◌, if◌then◌else◌, contains,
  All, min, max,
}
use zenith_enterprise.Common.Text.{Text, is_empty, show}
use zenith_enterprise.Pagination.Base64.{b64encode, b64decode, rstrip_equals, padded}
use zenith_enterprise.Pagination.Base64.RoundTrip.{IsBytes}

-- `|`
abbrev pub bar : ℕ
bar = 124

-- `none` is a `ValueError`. What is written can be read, and no time or UUID has a `|` in it.
pub record Platform : Type 1 where
  pub Stamp : Type 0
  pub isoformat : Stamp → Text
  pub fromisoformat : Text → Option Stamp
  pub fromisoformat_back : (t : Stamp) → fromisoformat (isoformat t) ≡ some t
  pub isoformat_full : (t : Stamp) → is_empty (isoformat t) ≡ false
  pub isoformat_bar : (t : Stamp) → contains bar (isoformat t) ≡ false
  pub Uuid : Type 0
  pub str_uuid : Uuid → Text
  pub parse_uuid : Text → Option Uuid
  pub parse_uuid_back : (u : Uuid) → parse_uuid (str_uuid u) ≡ some u
  pub str_uuid_bar : (u : Uuid) → contains bar (str_uuid u) ≡ false
  pub encode_utf8 : Text → List ℕ
  pub decode_utf8 : List ℕ → Option Text
  pub decode_utf8_back : (text : Text) → decode_utf8 (encode_utf8 text) ≡ some text
  pub encode_utf8-IsBytes : (text : Text) → IsBytes (encode_utf8 text)
  pub parse_int : Text → Option ℕ
  pub parse_int_back : (n : ℕ) → parse_int (show n) ≡ some n

-- `text.partition(sep)`, less the separator
abbrev pub partition : ℕ → Text → Text × Text
partition sep [] = ([], [])
partition sep (c ∷ text) =
    let rest = partition sep text in if c == sep then ([], text) else (c ∷ rest.0, rest.1)

-- `text.rpartition(sep)`, less the separator
abbrev pub rpartition : ℕ → Text → Text × Text
rpartition sep [] = ([], [])
rpartition sep (c ∷ text) =
    let rest = rpartition sep text in
    if contains sep text
    then (c ∷ rest.0, rest.1)
    else if c == sep
    then ([], text)
    else ([], c ∷ text)

abbrev pub default_limit : ℕ
default_limit = 50

abbrev pub max_limit : ℕ
max_limit = 200

abbrev pub clamp : Option ℕ → ℕ
clamp none = default_limit
clamp (some limit) = max 1 (min limit max_limit)

module _ (P : Platform) where
  open P use {Stamp, isoformat, fromisoformat, Uuid, str_uuid, parse_uuid, encode_utf8, decode_utf8}

  pub record Cursor : Type 0 where
    pub created_at : Stamp
    pub id : Uuid

  -- The text of some fields, encoded, and back.
  abbrev pub wrap : Text → Text
  wrap raw = rstrip_equals (b64encode (encode_utf8 raw))

  abbrev pub decoded : Option (List ℕ) → Option Text
  decoded none = none
  decoded (some bytes) = decode_utf8 bytes

  abbrev pub unwrap : Text → Option Text
  unwrap value = decoded (b64decode (padded value))

  unfoldable pub encode : Cursor → Text
  encode c = wrap (isoformat c.created_at ++ bar ∷ str_uuid c.id)

  abbrev pub cursor_of : Option Stamp → Option Uuid → Option Cursor
  cursor_of none id = none
  cursor_of (some t) none = none
  cursor_of (some t) (some id) = some (record { created_at = t; id = id })

  abbrev pub read : Option Text → Option Cursor
  read none = none
  read (some text) =
      let parts = partition bar text in cursor_of (fromisoformat parts.0) (parse_uuid parts.1)

  -- `decode`; `none` is `InvalidCursorError`.
  unfoldable pub decode : Text → Option Cursor
  decode value = read (unwrap value)
