-- ===== src/Delivery.antt =====
-- `DeliveryRecord` of delivery.py: the signed envelope that resolves an ambiguous write.
pub mod Journal
pub mod Records
pub mod Durability
pub mod RoundTrip
use technocore_safe_agent.Base.{
  ℕ, ◌+◌, String, Bool, true, false, ◌&&◌, Option, none, some, ◌∷◌, [], List, ◌==◌, nat_eq,
  string_eq, option_eq, length, leb, every, if◌then◌else◌, Error, Result, ok, err, delivery_error,
  type_error, protocol_value_error, protocol_value_as, require, ◌>>=◌, ◌>>◌,
}
use technocore_safe_agent.Json.{
  Value, Fields, null, int, str, list, obj, end, field, get, keys_are, nat, positive, optional,
}
use technocore_safe_agent.Crypto.{
  validate_did, validate_room, validate_nonce, signature_pattern, canonical_message, sha256_text,
  sweep_text, verify_detached_signature,
}
use technocore_safe_agent.Crypto.Chars.{codes, is_hex}
use technocore_safe_agent.Crypto.Decimal.{render, parse}
use technocore_safe_agent.Crypto.Library.{Primitives}
use technocore_safe_agent.Protocol.{RoomMessage}

pub data Status : Type 0 where
  pending acknowledged : Status

pub record DeliveryRecord : Type 0 where
  pub status : Status
  pub room_sha256 : String
  pub input_sequence : ℕ
  pub did : String
  pub nonce : ℕ
  pub text : String
  pub text_sha256 : String
  pub signature : String
  pub reply_sequence : Option ℕ

-- SHA256_PATTERN.fullmatch
unfoldable pub sha256_pattern : String → Bool
sha256_pattern s = let cs = codes s in length cs == 64 && every is_hex cs

abbrev pub or_delivery_error {ℓ} : {A : Type ℓ} → Option A → Result A
or_delivery_error none = err delivery_error
or_delivery_error (some a) = ok a

-- `_positive_int`
unfoldable pub positive_int : Value → Result ℕ
unfolding positive
positive_int value = or_delivery_error (positive value)

-- `_nonce_as_int`
unfoldable pub nonce_as_int : Value → Result ℕ
nonce_as_int (int n) = do
  rendered ← protocol_value_as delivery_error (validate_nonce (int n))
  ok (parse rendered)
nonce_as_int _ = err delivery_error

-- `_signature`
unfoldable pub signature_of : Value → Result String
signature_of (str s) = if signature_pattern s then ok s else err delivery_error
signature_of _ = err delivery_error

-- `_did`; `validate_did` refuses what is no str
unfoldable pub did_of : Value → Result String
did_of (str s) = protocol_value_as delivery_error (validate_did s)
did_of _ = err delivery_error

abbrev pub digest_of : Value → Result String
digest_of (str s) = if sha256_pattern s then ok s else err delivery_error
digest_of _ = err delivery_error

abbrev pub status_of : Value → Result Status
status_of (str s) =
    if s == "pending"
    then ok pending
    else if s == "acknowledged"
    then ok acknowledged
    else err delivery_error
-- `status not in {...}`: a list and a dict have no hash
status_of (list _) = err type_error
status_of (obj _) = err type_error
status_of _ = err delivery_error

-- A pending record has no reply sequence, an acknowledged one has a positive one.
abbrev pub reply_sequence_of : Status → Value → Result (Option ℕ)
reply_sequence_of pending null = ok none
reply_sequence_of pending _ = err delivery_error
reply_sequence_of acknowledged value = do n ← positive_int value; ok (some n)

abbrev pub follows : Option ℕ → ℕ → Bool
follows none input_sequence = true
follows (some reply) input_sequence = leb (input_sequence + 1) reply

abbrev pub status_text : Status → String
status_text pending = "pending"
status_text acknowledged = "acknowledged"

abbrev pub delivery_schema : String
delivery_schema = "technocore-safe-agent-delivery-v1"

abbrev pub delivery_keys : List String
delivery_keys =
    "schema" ∷ "status" ∷ "room_sha256" ∷ "input_sequence" ∷ "did" ∷ "nonce" ∷ "text"
    ∷ "text_sha256" ∷ "signature" ∷ "reply_sequence" ∷ []

unfoldable pub to_payload : DeliveryRecord → Value
to_payload r = obj (
    field "schema" (str delivery_schema) (
      field "status" (str (status_text r.status)) (
        field "room_sha256" (str r.room_sha256) (
          field "input_sequence" (nat r.input_sequence) (
            field "did" (str r.did) (
              field "nonce" (nat r.nonce) (
                field "text" (str r.text) (
                  field "text_sha256" (str r.text_sha256) (
                    field "signature" (str r.signature)
                      (field "reply_sequence" (optional nat r.reply_sequence) end))))))))))

abbrev pub has_schema : Value → Bool
has_schema (str s) = s == delivery_schema
has_schema _ = false

unfoldable pub acknowledge : ℕ → DeliveryRecord → Result DeliveryRecord
acknowledge reply_sequence r = do
  sequence ← positive_int (nat reply_sequence)
  require (leb (r.input_sequence + 1) sequence) delivery_error
  elim r.status [
    | acknowledged ↦ if r.reply_sequence == some sequence then ok r else err delivery_error
    | pending ↦ ok (record r { status = acknowledged; reply_sequence = some sequence })
  ]

unfoldable pub matches : DeliveryRecord → RoomMessage → Bool
matches r message =
    message.sender == r.did && message.nonce == some (render r.nonce) && message.text == r.text

module _ (p : Primitives) where
  -- `_exact_swept_text`; `sweep_text` refuses what is no str
  unfoldable pub exact_swept_text : Value → Result String
  exact_swept_text (str value) = do
    swept ← protocol_value_as delivery_error (sweep_text p value)
    if swept == value then ok swept else err delivery_error
  exact_swept_text _ = err delivery_error

  unfoldable pub verify_for_room : String → DeliveryRecord → Result (Unit {0})
  verify_for_room room r = do
    valid_room ← validate_room room
    require (sha256_text p valid_room == r.room_sha256) delivery_error
    require
        (verify_detached_signature p r.did
          (p.utf8 (canonical_message valid_room (render r.nonce) r.text)) r.signature)
        delivery_error

  -- The arguments are evaluated in this order.
  unfoldable pub create : String → ℕ → String → ℕ → String → String → Result DeliveryRecord
  create room input_sequence did nonce text signature = do
    valid_room ← validate_room room
    valid_input ← positive_int (nat input_sequence)
    valid_did ← validate_did did
    valid_nonce ← nonce_as_int (nat nonce)
    valid_text ← exact_swept_text (str text)
    valid_signature ← signature_of (str signature)
    let r : DeliveryRecord = record {
      status = pending;
      room_sha256 = sha256_text p valid_room;
      input_sequence = valid_input;
      did = valid_did;
      nonce = valid_nonce;
      text = valid_text;
      text_sha256 = sha256_text p text;
      signature = valid_signature;
      reply_sequence = none;
    }
    verify_for_room valid_room r
    ok r

  unfoldable pub from_payload : Value → Result DeliveryRecord
  unfolding get
  from_payload (obj payload) = do
    require (has_schema (get "schema" payload)) delivery_error
    require (keys_are delivery_keys payload) delivery_error
    status ← status_of (get "status" payload)
    room_digest ← digest_of (get "room_sha256" payload)
    text_digest ← digest_of (get "text_sha256" payload)
    text ← exact_swept_text (get "text" payload)
    require (sha256_text p text == text_digest) delivery_error
    reply_sequence ← reply_sequence_of status (get "reply_sequence" payload)
    input_sequence ← positive_int (get "input_sequence" payload)
    did ← did_of (get "did" payload)
    nonce ← nonce_as_int (get "nonce" payload)
    signature ← signature_of (get "signature" payload)
    require (follows reply_sequence input_sequence) delivery_error
    ok (record {
      status = status;
      room_sha256 = room_digest;
      input_sequence = input_sequence;
      did = did;
      nonce = nonce;
      text = text;
      text_sha256 = text_digest;
      signature = signature;
      reply_sequence = reply_sequence;
    })
  from_payload _ = err delivery_error
