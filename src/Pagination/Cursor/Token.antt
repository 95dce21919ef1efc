-- ===== src/Pagination/Cursor/Token.antt =====
-- pkg/pagination/cursor.go: a token that was generated is read back, within a day of its order.
use cicd_demo.Base.{
  ◌+◌, ◌*◌, ◌/◌, false, some, String, ltb, str_eq, ◌≡◌, if◌then◌else◌, arith, Option-cases, inl,
  inr,
}
use cicd_demo.Models.{ObjectId, Time}
use cicd_demo.Platform.{Env, World, ok, err, invalid_token, time_now}
use cicd_demo.Pagination.Cursor.{Page, Codec, encode, decode, generate_token, unix, second, day}

-- JSON and base64 as they are documented: what is written is read back, and the base64 of a JSON
-- text, which is not empty, is not empty.
pub record IsCodec (c : Codec) : Type 0 where
  pub unmarshal-marshal : (p : Page) (b : c.Bytes) → c.marshal p ≡ some b → c.unmarshal b ≡ some p
  pub decode-encode : (b : c.Bytes) → c.decode_string (c.encode_to_string b) ≡ some b
  pub encode-not_empty :
      (p : Page) (b : c.Bytes) → c.marshal p ≡ some b → str_eq (c.encode_to_string b) "" ≡ false

-- A token that was generated for an order decodes to the ID and the second of the order, unless the
-- order was created more than 24 hours before the clock shows: then the token is invalid, however
-- recently it was generated.
pub decode-generate_token :
    ⦃c : Codec⦄ ⦃e : Env⦄
    → IsCodec c
    → (id : ObjectId) (ts : Time) (w w' : World) (token : String)
    → (generate_token id ts w).0 ≡ ok token
    → (decode token w').0 ≡ (
        if ltb (ts / second * second + day) (e.now w'.step)
        then err invalid_token
        else ok (some (record { cursor_id = e.object_id_hex id; cursor_timestamp = unix ts })))
unfolding decode generate_token encode time_now
decode-generate_token ⦃c⦄ ⦃e⦄ h id ts w w' token made =
    let p : Page = record { cursor_id = e.object_id_hex id; cursor_timestamp = unix ts } in
    elim (Option-cases (c.marshal p)) [
      | inl failed ↦ ground (arith, failed)
      | inr (b, made_of) ↦ ground (
        arith,
        made_of,
        h.unmarshal-marshal p b made_of,
        h.decode-encode b,
        h.encode-not_empty p b made_of,
      )
    ]
