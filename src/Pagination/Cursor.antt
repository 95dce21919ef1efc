-- ===== src/Pagination/Cursor.antt =====
-- pkg/pagination/cursor.go: the token with which a reader asks for the next page. A time is a number
-- of nanoseconds since 1970.
pub mod Token
use cicd_demo.Base.{ℕ, ◌+◌, ◌*◌, ◌/◌, Bool, Option, none, some, String, ltb, str_eq, if◌then◌else◌}
use cicd_demo.Models.{ObjectId, Time}
use cicd_demo.Platform.{
  Env, M, pure, raise, raise_if, or_raise, ◌>>=◌, ◌>>◌, invalid_token, refused, time_now,
}
use cicd_demo.Pagination.{ℤ, pos, negsuc}

pub record Page : Type 0 where
  pub cursor_id : String
  pub cursor_timestamp : ℤ  -- int64

-- encoding/json and encoding/base64, as a parameter.
pub record Codec : Type 1 where
  pub Bytes : Type 0
  pub marshal : Page → Option Bytes
  pub unmarshal : Bytes → Option Page
  pub encode_to_string : Bytes → String
  pub decode_string : String → Option Bytes

abbrev pub second : ℕ
second = 1000000000

abbrev pub day : ℕ
day = 86400000000000

-- `t.Unix()`, and `time.Unix(s, 0)`: a time before 1970 is the number 0, as no time is below it.
abbrev pub unix : Time → ℤ
unix t = pos (t / second)

abbrev pub from_unix : ℤ → Time
from_unix (pos s) = s * second
from_unix (negsuc s) = 0

-- `time.Unix(s, 0).Before(now.Add(-24 * time.Hour))`, both sides a day later.
abbrev pub is_expired : Time → ℤ → Bool
is_expired now (pos s) = ltb (s * second + day) now
is_expired now (negsuc s) = ltb day (now + (s + 1) * second)

module _ ⦃c : Codec⦄ ⦃e : Env⦄ where
  unfoldable pub encode : Page → M String
  encode p = do bytes ← or_raise (c.marshal p) (refused "json"); pure (c.encode_to_string bytes)

  -- None for the empty token, which asks for the first page.
  unfoldable pub decode : String → M (Option Page)
  decode token = if str_eq token "" then pure none else do
    bytes ← or_raise (c.decode_string token) invalid_token
    p ← or_raise (c.unmarshal bytes) invalid_token
    now ← time_now
    raise_if (is_expired now p.cursor_timestamp) invalid_token
    pure (some p)

  unfoldable pub generate_token : ObjectId → Time → M String
  generate_token id ts =
      encode (record { cursor_id = e.object_id_hex id; cursor_timestamp = unix ts })
