-- ===== src/Pagination/Cursors/RoundTrip.antt =====
-- A cursor that was issued is read as the position it names.
use zenith_enterprise.Common.{◌≡◌, refl, some, ◌∷◌, ◌++◌}
use zenith_enterprise.Common.Text.{Text}
use zenith_enterprise.Pagination.Base64.RoundTrip.{decode_of-encode}
use zenith_enterprise.Pagination.Cursors.{Platform, Cursor, bar, wrap, unwrap, encode, decode}
use zenith_enterprise.Pagination.Cursors.Bars.{partition-append}

pub unwrap-wrap : (P : Platform) (raw : Text) → unwrap P (wrap P raw) ≡ some raw
unwrap-wrap P raw =
    rw (decode_of-encode (P.encode_utf8 raw) (P.encode_utf8-IsBytes raw)) (P.decode_utf8_back raw)

-- A document cursor that was issued is decoded to itself, its time and its identifier.
pub decode-encode : (P : Platform) (c : Cursor P) → decode P (encode P c) ≡ some c
unfolding encode decode
decode-encode P c =
    rw
      (
        unwrap-wrap P (P.isoformat c.created_at ++ bar ∷ P.str_uuid c.id),
        partition-append bar (P.isoformat c.created_at) (P.str_uuid c.id)
            (P.isoformat_bar c.created_at),
        P.fromisoformat_back c.created_at,
        P.parse_uuid_back c.id,
      )
      refl
