-- ===== src/Receipt/Signed.antt =====
-- A receipt's payload with its digest and signature: build, verify and render of receipt.py.
use technocore_safe_agent.Base.{
  String, Bool, ◌∷◌, [], ◌==◌, string_eq, ltb, length, Option, none, some, Result, ok, err,
  github_receipt_error, require, ◌>>=◌, ◌>>◌, not, false,
}
use technocore_safe_agent.Json.{
  Value, Fields, bool, str, obj, end, field, get, keys_are, is_text, nat, optional,
}
use technocore_safe_agent.Crypto.{
  validate_did, did_from_private_key, sign_detached, verify_detached_signature,
}
use technocore_safe_agent.Crypto.Chars.{codes}
use technocore_safe_agent.Crypto.Library.{Primitives, PrivateKey}
use technocore_safe_agent.Receipt.{
  PullRequestEvidence, invalid_receipt, api_version, receipt_schema, receipt_source,
}
use technocore_safe_agent.Receipt.Payload.{validate_receipt_payload}

-- The payload that `build_signed_receipt` signs.
unfoldable pub payload_of : PullRequestEvidence → String → String → Fields
payload_of e issuer observed_at = field "schema" (str receipt_schema) (
    field "issuer" (str issuer) (
      field "source" (str receipt_source) (
        field "api_version" (str api_version) (
          field "repository" (str e.repository) (
            field "pull_number" (nat e.number) (
              field "url" (str e.url) (
                field "author" (str e.author) (
                  field "state" (str e.state) (
                    field "merged" (bool e.merged) (
                      field "draft" (bool e.draft) (
                        field "head_sha" (str e.head_sha) (
                          field "base_sha" (str e.base_sha) (
                            field "merge_commit_sha" (optional str e.merge_commit_sha) (
                              field "ci" (str e.ci) (
                                field "ci_data_complete" (bool e.ci_data_complete) (
                                  field "checks_observed" (nat e.checks_observed) (
                                    field "checks_total" (nat e.checks_total) (
                                      field "statuses_observed" (nat e.statuses_observed) (
                                        field "statuses_total" (nat e.statuses_total) (
                                          field "source_updated_at" (str e.source_updated_at) (
                                            field "observed_at" (str observed_at)
                                              end)))))))))))))))))))))

abbrev pub wrapper : Fields → String → String → Value
wrapper payload digest signature = obj (
    field "payload" (obj payload)
      (field "payload_sha256" (str digest) (field "signature" (str signature) end)))

abbrev pub fields_of : Value → Result Fields
fields_of (obj fields) = ok fields
fields_of _ = err invalid_receipt

module _ (p : Primitives) where
  open p use {sha256, canonical_json, loads_text, dumps}

  -- `observed_at` is the text of `_format_timestamp`.
  unfoldable pub build_signed_receipt :
      PullRequestEvidence → String → PrivateKey → String → Result Value
  unfolding payload_of
  build_signed_receipt evidence issuer_did key observed_at = do
    validate_did issuer_did
    own_did ← did_from_private_key key
    require (own_did == issuer_did) (github_receipt_error "receipt_issuer_mismatch")
    let payload = payload_of evidence issuer_did observed_at
    validate_receipt_payload p payload
    let canonical = canonical_json (obj payload)
    signature ← sign_detached p key canonical
    ok (wrapper payload (sha256 canonical) signature)

  -- A signature that is no str does not verify.
  abbrev pub has_signature : String → Fields → Value → Bool
  has_signature issuer payload (str signature) =
      verify_detached_signature p issuer (canonical_json (obj payload)) signature
  has_signature issuer payload _ = false

  -- `verify_signed_receipt` of a decoded receipt
  unfoldable pub verify_decoded : Value → Result Fields
  unfolding get keys_are
  verify_decoded decoded = do
    wrapper ← fields_of decoded
    require (keys_are ("payload" ∷ "payload_sha256" ∷ "signature" ∷ []) wrapper) invalid_receipt
    payload ← fields_of (get "payload" wrapper)
    issuer ← validate_receipt_payload p payload
    require (is_text (sha256 (canonical_json (obj payload))) (get "payload_sha256" wrapper))
        invalid_receipt
    require (has_signature issuer payload (get "signature" wrapper)) invalid_receipt
    ok payload

  abbrev pub or_invalid {ℓ} : {A : Type ℓ} → Option A → Result A
  or_invalid none = err invalid_receipt
  or_invalid (some a) = ok a

  -- `verify_signed_receipt` of a str
  unfoldable pub verify_signed_receipt : String → Result Fields
  unfolding verify_decoded
  verify_signed_receipt receipt = do
    decoded ← or_invalid (loads_text receipt)
    verify_decoded decoded

  unfoldable pub render_signed_receipt : Value → Result String
  unfolding verify_decoded
  render_signed_receipt receipt = do
    verify_decoded receipt
    let rendered = dumps receipt
    require (not (ltb 4096 (length (codes rendered)))) (github_receipt_error "receipt_too_large")
    ok rendered
