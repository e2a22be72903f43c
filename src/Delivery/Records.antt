-- ===== src/Delivery/Records.antt =====
-- What a delivery record says of the envelope, through `create`, the journal's JSON and `acknowledge`.
use technocore_safe_agent.Base.{
  ℕ, ◌+◌, ◌≤◌, String, ◌≡◌, ok, arith, delivery_error, protocol_value_as, require, >>=-eq-ok,
  str_eq_iff, ◌==◌, string_eq,
}
use technocore_safe_agent.Json.{nat, str, optional, keys_are}
use technocore_safe_agent.Crypto.{
  sweep_text, validate_nonce, validate_room, validate_did, sha256_text,
}
use technocore_safe_agent.Crypto.Decimal.{render, render_int}
use technocore_safe_agent.Crypto.Decimal.Laws.{parse-render}
use technocore_safe_agent.Crypto.Library.{Primitives}
use technocore_safe_agent.World.{Envelope}
use technocore_safe_agent.Delivery.{
  DeliveryRecord, status_of, status_text, digest_of, reply_sequence_of, pending, acknowledged,
  create, to_payload, from_payload, nonce_as_int, signature_of, did_of, exact_swept_text,
  positive_int, acknowledge,
}

-- The record and the envelope are the same signed message.
pub record Describes (r : DeliveryRecord) (e : Envelope) : Type 0 where
  pub did : e.did ≡ r.did
  pub signature : e.signature ≡ r.signature
  pub nonce : e.nonce ≡ render r.nonce
  pub text : e.text ≡ r.text

-- Two records that are evidence of one message.
pub record SameEnvelope (r s : DeliveryRecord) : Type 0 where
  pub did : s.did ≡ r.did
  pub signature : s.signature ≡ r.signature
  pub nonce : s.nonce ≡ r.nonce
  pub text : s.text ≡ r.text
  pub input_sequence : s.input_sequence ≡ r.input_sequence

pub nonce_as_int-nat : (n : ℕ) {m : ℕ} → nonce_as_int (nat n) ≡ ok m → m ≡ n
unfolding nonce_as_int validate_nonce render_int
nonce_as_int-nat n h = ground (arith, parse-render n)

pub signature_of-str : (s : String) {t : String} → signature_of (str s) ≡ ok t → t ≡ s
unfolding signature_of
signature_of-str s h = ground arith

did_of-str : (s : String) {t : String} → did_of (str s) ≡ ok t → t ≡ s
unfolding did_of validate_did
did_of-str s h = ground arith

pub validate_did-eq : (s : String) {t : String} → validate_did s ≡ ok t → t ≡ s
unfolding validate_did
validate_did-eq s h = ground arith

pub positive_int-nat : (n : ℕ) {m : ℕ} → positive_int (nat n) ≡ ok m → m ≡ n
unfolding positive_int
positive_int-nat n h = ground arith

pub exact_swept_text-str :
    (p : Primitives) (s : String) {t : String} → exact_swept_text p (str s) ≡ ok t → t ≡ s
unfolding exact_swept_text
exact_swept_text-str p s h =
    let (swept, _, same) = >>=-eq-ok (protocol_value_as delivery_error (sweep_text p s)) _ h in
    ground (arith, str_eq_iff swept s)

-- A created record is pending and holds what it was created from.
pub record IsCreatedFrom (r : DeliveryRecord) (input_sequence : ℕ) (did : String) (nonce : ℕ)
    (text signature : String) : Type 0 where
  pub did_eq : r.did ≡ did
  pub nonce_eq : r.nonce ≡ nonce
  pub text_eq : r.text ≡ text
  pub signature_eq : r.signature ≡ signature
  pub input_sequence_eq : r.input_sequence ≡ input_sequence
  pub status_eq : r.status ≡ pending

pub create-IsCreatedFrom :
    (p : Primitives) (room : String) (input_sequence : ℕ) (did : String) (nonce : ℕ)
    (text signature : String) (r : DeliveryRecord)
    → create p room input_sequence did nonce text signature ≡ ok r
    → IsCreatedFrom r input_sequence did nonce text signature
unfolding create
create-IsCreatedFrom p room input_sequence did nonce text signature r h =
    let (_, _, h₁) = >>=-eq-ok (validate_room room) _ h in
    let (_, e₂, h₂) = >>=-eq-ok (positive_int (nat input_sequence)) _ h₁ in
    let (_, e₃, h₃) = >>=-eq-ok (validate_did did) _ h₂ in
    let (_, e₄, h₄) = >>=-eq-ok (nonce_as_int (nat nonce)) _ h₃ in
    let (_, e₅, h₅) = >>=-eq-ok (exact_swept_text p (str text)) _ h₄ in
    let (_, e₆, h₆) = >>=-eq-ok (signature_of (str signature)) _ h₅ in
    ground (
      arith,
      positive_int-nat input_sequence e₂,
      validate_did-eq did e₃,
      nonce_as_int-nat nonce e₄,
      exact_swept_text-str p text e₅,
      signature_of-str signature e₆,
    )

-- A record that is read back from its JSON is evidence of the same message.
pub from_payload-to_payload-SameEnvelope :
    (p : Primitives) (r s : DeliveryRecord)
    → from_payload p (to_payload r) ≡ ok s
    → SameEnvelope r s
unfolding from_payload to_payload keys_are
from_payload-to_payload-SameEnvelope p r s h =
    let (status, _, h₁) = >>=-eq-ok (status_of (str (status_text r.status))) _ h in
    let (_, _, h₂) = >>=-eq-ok (digest_of (str r.room_sha256)) _ h₁ in
    let (text_digest, _, h₃) = >>=-eq-ok (digest_of (str r.text_sha256)) _ h₂ in
    let (text, e₄, h₄) = >>=-eq-ok (exact_swept_text p (str r.text)) _ h₃ in
    let (_, _, h₅) = >>=-eq-ok (require (sha256_text p text == text_digest) delivery_error) _ h₄ in
    let (_, _, h₆) = >>=-eq-ok (reply_sequence_of status (optional nat r.reply_sequence)) _ h₅ in
    let (_, e₇, h₇) = >>=-eq-ok (positive_int (nat r.input_sequence)) _ h₆ in
    let (_, e₈, h₈) = >>=-eq-ok (did_of (str r.did)) _ h₇ in
    let (_, e₉, h₉) = >>=-eq-ok (nonce_as_int (nat r.nonce)) _ h₈ in
    let (_, e₀, h₀) = >>=-eq-ok (signature_of (str r.signature)) _ h₉ in
    ground (
      arith,
      exact_swept_text-str p r.text e₄,
      positive_int-nat r.input_sequence e₇,
      did_of-str r.did e₈,
      nonce_as_int-nat r.nonce e₉,
      signature_of-str r.signature e₀,
    )

-- Acknowledging adds the reply's sequence alone.
pub acknowledge-SameEnvelope :
    (n : ℕ) (r s : DeliveryRecord)
    → acknowledge n r ≡ ok s
    → SameEnvelope r s × (s.status ≡ acknowledged) × (s.input_sequence + 1 ≤ n)
unfolding acknowledge
acknowledge-SameEnvelope n r s h =
    let (sequence, e, h₁) = >>=-eq-ok (positive_int (nat n)) _ h in
    let same : sequence ≡ n = positive_int-nat n e in (ground arith, ground arith, ground arith)
