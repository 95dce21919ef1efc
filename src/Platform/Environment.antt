-- ===== src/Platform/Environment.antt =====
-- The rest of the environment, as a parameter: which calls of the database fail, the clock, the
-- supply of ObjectIDs and serial numbers, and the decimal and floating-point libraries. What an
-- outside call answers may depend on how many outside calls there were before it.
use cicd_demo.Base.{ℕ, Bool, Option, String, List}
use cicd_demo.Models.{ObjectId, Time, Decimal128}

pub data Comparison : Type 0 where
  less equal greater : Comparison

-- What the event service answers: the session, whose start and end may not parse as times, that
-- there is none, or another failure.
pub data SessionReply : Type 0 where
  session : Option Time → Option Time → SessionReply
  missing unavailable : SessionReply

-- What jwt.ParseWithClaims says of a token: the `id` of its payload, if that is a text, or why it is
-- not accepted.
pub data TokenReply : Type 0 where
  payload_id : Option String → TokenReply
  expired not_valid_yet malformed signature_invalid invalid : TokenReply

pub record Env : Type 1 where
  -- whether this call of the database ends with an error of the driver, with no effect
  pub fails : ℕ → Bool
  -- whether the error of a failed bulk write is a BulkWriteException
  pub is_bulk_write_exception : ℕ → Bool
  -- whether a failed UpdateOne still hands back a result, as it does for a write error
  pub has_update_result : ℕ → Bool
  -- time.Now, primitive.NewObjectID
  pub now : ℕ → Time
  pub new_object_id : ℕ → ObjectId
  -- snowflake.Generator.GetID, which may fail
  pub serial : ℕ → Option ℕ
  -- events.Client.GetSessionByID, with the times that its answer spells
  pub session_by_id : ℕ → ObjectId → SessionReply
  -- jwt.Manager.Generate of a ticket's payload
  pub qr_code : ObjectId → ObjectId → ObjectId → String → Time → Time → Option String
  -- jwt.Manager.Parse of a QR code
  pub parse_qr_code : ℕ → String → TokenReply
  -- mq.Publisher.Publish, which may fail
  pub publishes : ℕ → Bool
  -- reading a stored integer into a uint32, an error where it does not fit
  pub decode_uint32 : ℕ → Option ℕ
  -- primitive.ObjectIDFromHex
  pub object_id_from_hex : String → Option ObjectId
  -- ObjectID.Hex
  pub object_id_hex : ObjectId → String
  -- time.Date of the first of a month, by its year and month, and the same with AddDate(0, 1, 0)
  pub month_start : ℕ → ℕ → Time
  pub month_end : ℕ → ℕ → Time
  -- what fmt, strconv and csv.Writer make of an export: the name of its file, a serial number, a
  -- time in RFC 3339, and the text of its rows
  pub export_name : ℕ → ℕ → String
  pub format_uint : ℕ → String
  pub format_time : Time → String
  pub csv_text : List (List String) → String
  -- strconv.ParseFloat of the text of a Decimal128: whether it is above zero, or an error
  pub float64_is_positive : String → Option Bool
  -- $inc on a stored Decimal128
  pub inc_decimal : Decimal128 → Decimal128 → Decimal128
  -- Decimal128.String, primitive.ParseDecimal128, Decimal128.IsNaN, Decimal128.IsInf() != 0
  pub decimal_string : Decimal128 → String
  pub parse_decimal128 : String → Option Decimal128
  pub is_nan : Decimal128 → Bool
  pub is_inf : Decimal128 → Bool
  -- math/big: Float, Parse at a precision, SetUint64, Add, Sub, Mul, Neg of one, Cmp, String, and
  -- Int with IsInt64 and Int64, as the sign and the size of the integer part
  pub Float : Type 0
  pub float_parse : ℕ → String → Option Float
  pub float_of : ℕ → Float
  pub float_minus_one : Float
  pub float_add : Float → Float → Float
  pub float_sub : Float → Float → Float
  pub float_mul : Float → Float → Float
  pub float_cmp : Float → Float → Comparison
  pub float_string : Float → String
  pub float_is_negative : Float → Bool
  pub float_integer_part : Float → Option ℕ
