-- ===== src/WorkReceipt/Envelope.antt =====
-- The envelope of a work receipt: the signed receipt and its countersignatures, verified without a
-- checkout by work_receipt_verifier.py.
use technocore_safe_agent.Base.{
  ℕ, String, Bool, false, ◌&&◌, not, Option, none, some, List, [], ◌∷◌, ◌==◌, string_eq, length,
  leb, contains, if◌then◌else◌, Result, ok, err, work_receipt_error, require, ◌>>=◌, ◌>>◌,
}
use technocore_safe_agent.Json.{
  Value, Fields, str, list, obj, end, field, items, get, keys_are, is_text,
}
use technocore_safe_agent.Crypto.{verify_detached_signature}
use technocore_safe_agent.Crypto.Library.{Primitives}
use technocore_safe_agent.WorkReceipt.{
  Countersignature, envelope_schema, max_receipt_bytes, did_of, validate_work_payload,
  validate_countersignature_payload,
}

pub record WorkReceiptSummary : Type 0 where
  pub payload : Fields
  pub countersignatures : ℕ
  pub matching_countersignatures : ℕ

-- `_execution_claim`
unfoldable pub execution_claim : Fields → Fields
unfolding get
execution_claim payload = field "repository" (get "repository" payload) (
    field "commit" (get "commit" payload) (
      field "command" (get "command" payload) (
        field "timeout_ms" (get "timeout_ms" payload) (
          field "result" (get "result" payload) (
            field "exit_code" (get "exit_code" payload) (
              field "stdout_sha256" (get "stdout_sha256" payload) (
                field "stdout_bytes" (get "stdout_bytes" payload) (
                  field "stderr_sha256" (get "stderr_sha256" payload)
                    (field "stderr_bytes" (get "stderr_bytes" payload) end)))))))))

abbrev pub fields_of : Value → Result Fields
fields_of (obj fields) = ok fields
fields_of _ = err work_receipt_error

-- not isinstance(countersignatures, list) or len(countersignatures) > MAX_COUNTERSIGNATURES
unfoldable pub countersignatures_of : Value → Result (List Value)
countersignatures_of (list counters) =
    if leb (length (items counters)) 16 then ok (items counters) else err work_receipt_error
countersignatures_of _ = err work_receipt_error

-- What every countersignature is compared with.
pub record Expected : Type 0 where
  pub issuer : String
  pub receipt_hash : String
  pub execution_hash : String
  pub completed_at : ℕ

module _ (p : Primitives) where
  open p use {utf8, sha256, canonical_json, loads_text, dumps}

  -- `_execution_sha256`
  unfoldable pub execution_sha256 : Fields → String
  unfolding execution_claim
  execution_sha256 payload = sha256 (canonical_json (obj (execution_claim payload)))

  -- A signature that is no str does not verify.
  abbrev pub has_signature : String → Fields → Value → Bool
  has_signature signer payload (str signature) =
      verify_detached_signature p signer (canonical_json (obj payload)) signature
  has_signature signer payload _ = false

  -- `_verify_signed_wrapper`
  unfoldable pub verify_signed_wrapper : String → Value → Result Fields
  unfolding get keys_are
  verify_signed_wrapper signer_key value = do
    wrapper ← fields_of value
    require (keys_are ("payload" ∷ "payload_sha256" ∷ "signature" ∷ []) wrapper) work_receipt_error
    payload ← fields_of (get "payload" wrapper)
    require (is_text (sha256 (canonical_json (obj payload))) (get "payload_sha256" wrapper))
        work_receipt_error
    signer ← did_of (get signer_key payload)
    require (has_signature signer payload (get "signature" wrapper)) work_receipt_error
    ok payload

  -- The tests on one countersignature, after those on its payload.
  unfoldable pub agrees : Expected → List String → Countersignature → Bool
  agrees expected verifiers counter =
      not (counter.verifier == expected.issuer)
      && not (contains verifiers counter.verifier)
      && counter.receipt_payload_sha256 == expected.receipt_hash
      && counter.execution_sha256 == expected.execution_hash
      && leb expected.completed_at counter.observed_at

  -- One round of the loop: the countersignature that it accepts.
  unfoldable pub verify_counter : Expected → List String → Value → Result Countersignature
  unfolding verify_signed_wrapper agrees
  verify_counter expected verifiers signed_counter = do
    counter_payload ← verify_signed_wrapper "verifier" signed_counter
    counter ← validate_countersignature_payload p counter_payload
    require (agrees expected verifiers counter) work_receipt_error
    ok counter

  -- The loop; its result is the set of the verifiers, the latest first.
  unfoldable pub verify_counters : Expected → List String → List Value → Result (List String)
  unfolding verify_counter
  verify_counters expected verifiers [] = ok verifiers
  verify_counters expected verifiers (signed_counter ∷ rest) = do
    counter ← verify_counter expected verifiers signed_counter
    verify_counters expected (counter.verifier ∷ verifiers) rest

  -- `_verify_and_decode` of a decoded envelope. The receipt's `payload_sha256` has been found to be
  -- the digest of its payload.
  unfoldable pub verify_envelope : Fields → Result WorkReceiptSummary
  unfolding get keys_are verify_signed_wrapper execution_sha256 verify_counters countersignatures_of
  verify_envelope envelope = do
    require
        (keys_are ("schema" ∷ "receipt" ∷ "countersignatures" ∷ []) envelope
          && is_text envelope_schema (get "schema" envelope))
        work_receipt_error
    payload ← verify_signed_wrapper "issuer" (get "receipt" envelope)
    (issuer, completed_at) ← validate_work_payload p payload
    countersignatures ← countersignatures_of (get "countersignatures" envelope)
    let expected : Expected = record {
      issuer = issuer;
      receipt_hash = sha256 (canonical_json (obj payload));
      execution_hash = execution_sha256 payload;
      completed_at = completed_at;
    }
    verify_counters expected [] countersignatures
    ok (record {
      payload = payload;
      countersignatures = length countersignatures;
      matching_countersignatures = length countersignatures;
    })

  abbrev pub decoded_fields : Option Value → Result Fields
  decoded_fields none = err work_receipt_error
  decoded_fields (some value) = fields_of value

  -- `_decode` of a str
  unfoldable pub decode : String → Result Fields
  decode receipt = do
    require (leb (length (utf8 receipt)) max_receipt_bytes) work_receipt_error
    decoded_fields (loads_text receipt)

  unfoldable pub verify_work_receipt : String → Result WorkReceiptSummary
  unfolding verify_envelope decode
  verify_work_receipt receipt = do envelope ← decode receipt; verify_envelope envelope

  -- `render_work_receipt` of a decoded envelope
  unfoldable pub render_work_receipt : Fields → Result String
  unfolding verify_envelope
  render_work_receipt envelope = do
    verify_envelope envelope
    let rendered = dumps (obj envelope)
    require (leb (length (utf8 rendered)) max_receipt_bytes) work_receipt_error
    ok rendered
