-- ===== src/WorkReceipt/Signers.antt =====
-- Who has signed the parts of an accepted work receipt, and what a countersignature says.
use mathlib.Core.Path.{subst}
use technocore_safe_agent.Base.{
  String, true, ◌&&◌, nat_eq, string_eq, [], ◌∷◌, ok, work_receipt_error, ◌≡◌, arith, >>=-eq-ok,
  ok-injective, require,
}
use technocore_safe_agent.Json.{Value, Fields, str, obj, get, keys_are, is_text}
use technocore_safe_agent.Crypto.{validate_did, verify_detached_signature}
use technocore_safe_agent.Crypto.Library.{Primitives}
use technocore_safe_agent.WorkReceipt.{
  Countersignature, did_of, require_sha256, parse_timestamp, validate_countersignature_payload,
  countersignature_payload_keys, countersignature_schema,
}
use technocore_safe_agent.WorkReceipt.Envelope.{fields_of, has_signature, verify_signed_wrapper}

-- The one whom the payload names under the key has signed it.
pub record SignedUnder (p : Primitives) (key : String) (payload : Fields) (signer : String)
    : Type 0 where
  pub signature : String
  pub signer_field : get key payload ≡ str signer
  pub verified :
      verify_detached_signature p signer (p.canonical_json (obj payload)) signature ≡ true

pub did_of-eq : (v : Value) {s : String} → did_of v ≡ ok s → v ≡ str s
unfolding validate_did
did_of-eq (str s) h = ground arith
did_of-eq v h = ground arith

require_sha256-eq : (v : Value) {s : String} → require_sha256 v ≡ ok s → v ≡ str s
unfolding require_sha256
require_sha256-eq (str s) h = ground arith
require_sha256-eq v h = ground arith

has_signature-eq :
    (p : Primitives) (signer : String) (payload : Fields) (v : Value)
    → has_signature p signer payload v ≡ true
    → (signature : String) × (verify_detached_signature p signer
          (p.canonical_json (obj payload))
          signature
        ≡ true)
has_signature-eq p signer payload (str signature) h = (signature, h)
has_signature-eq p signer payload v h = cc

pub verify_signed_wrapper-SignedUnder :
    (p : Primitives) (key : String) (value : Value) {payload : Fields}
    → verify_signed_wrapper p key value ≡ ok payload
    → (signer : String) × SignedUnder p key payload signer
unfolding verify_signed_wrapper
verify_signed_wrapper-SignedUnder p key value {payload} h =
    let (wrapper, _, h₁) = >>=-eq-ok (fields_of value) _ h in
    let (_, _, h₂) =
      >>=-eq-ok
        (require (keys_are ("payload" ∷ "payload_sha256" ∷ "signature" ∷ []) wrapper)
          work_receipt_error)
        _ h₁ in
    let (fields, _, h₃) = >>=-eq-ok (fields_of (get "payload" wrapper)) _ h₂ in
    let (_, _, h₄) =
      >>=-eq-ok
        (require (is_text (p.sha256 (p.canonical_json (obj fields))) (get "payload_sha256" wrapper))
          work_receipt_error)
        _ h₃ in
    let (signer, e₅, h₅) = >>=-eq-ok (did_of (get key fields)) _ h₄ in
    let (_, _, h₆) =
      >>=-eq-ok
        (require (has_signature p signer fields (get "signature" wrapper)) work_receipt_error) _
        h₅ in
    let (signature, verified) =
      has_signature-eq p signer fields (get "signature" wrapper) (ground arith) in
    let same = ok-injective h₆ in
    subst (λ found. (signer : String) × SignedUnder p key found signer) same
      (
        signer,
        record {
          signature = signature;
          signer_field = did_of-eq (get key fields) e₅;
          verified = verified;
        },
      )

-- What a checked payload of a countersignature says.
pub record Says (p : Primitives) (payload : Fields) (c : Countersignature) : Type 0 where
  pub verifier_field : get "verifier" payload ≡ str c.verifier
  pub receipt_field : get "receipt_payload_sha256" payload ≡ str c.receipt_payload_sha256
  pub execution_field : get "execution_sha256" payload ≡ str c.execution_sha256
  pub observed_at_field : parse_timestamp p (get "observed_at" payload) ≡ ok c.observed_at

pub validate_countersignature_payload-Says :
    (p : Primitives) (payload : Fields) {c : Countersignature}
    → validate_countersignature_payload p payload ≡ ok c
    → Says p payload c
unfolding validate_countersignature_payload
validate_countersignature_payload-Says p payload h =
    let (_, _, h₁) =
      >>=-eq-ok
        (require
          (keys_are countersignature_payload_keys payload
            && is_text countersignature_schema (get "schema" payload))
          work_receipt_error)
        _ h in
    let (verifier, e₂, h₂) = >>=-eq-ok (did_of (get "verifier" payload)) _ h₁ in
    let (receipt, e₃, h₃) =
      >>=-eq-ok (require_sha256 (get "receipt_payload_sha256" payload)) _ h₂ in
    let (execution, e₄, h₄) = >>=-eq-ok (require_sha256 (get "execution_sha256" payload)) _ h₃ in
    let (observed_at, e₅, h₅) = >>=-eq-ok (parse_timestamp p (get "observed_at" payload)) _ h₄ in
    subst (Says p payload) (ok-injective h₅) (record {
      verifier_field = did_of-eq (get "verifier" payload) e₂;
      receipt_field = require_sha256-eq (get "receipt_payload_sha256" payload) e₃;
      execution_field = require_sha256-eq (get "execution_sha256" payload) e₄;
      observed_at_field = e₅;
    })
