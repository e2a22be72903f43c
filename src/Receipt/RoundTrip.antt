-- ===== src/Receipt/RoundTrip.antt =====
-- A receipt that is built passes its own verification.
use mathlib.Core.Path.{subst}
use technocore_safe_agent.Base.{
  ℕ, List, String, true, ◌==◌, string_eq, ltb, length, Result, ok, err, ◌≡◌, refl, ap, ◌∙◌,
  >>=-eq-ok, eq_refl, require, github_receipt_error, if◌then◌else◌, Bool-cases, inl, inr,
}
use technocore_safe_agent.Json.{Value, Fields, str, obj, get, keys_are}
use technocore_safe_agent.Crypto.{
  validate_did, did_from_private_key, sign_detached, verify_detached_signature,
}
use technocore_safe_agent.Crypto.Chars.{codes}
use technocore_safe_agent.Crypto.Library.{Primitives, PrivateKey}
use technocore_safe_agent.Receipt.{PullRequestEvidence}
use technocore_safe_agent.Receipt.Payload.{validate_receipt_payload}
use technocore_safe_agent.Receipt.Signed.{
  payload_of, wrapper, build_signed_receipt, verify_decoded, render_signed_receipt,
}
use technocore_safe_agent.Receipt.Guarantee.{validate_receipt_payload-SoundPayload}

-- What the key signs verifies under the DID.
abbrev pub SignsFor : Primitives → PrivateKey → String → Type 0
SignsFor p key did =
    (payload : List ℕ) (signature : String)
    → sign_detached p key payload ≡ ok signature
    → verify_detached_signature p did payload signature ≡ true

issuer-payload_of :
    (p : Primitives) (e : PullRequestEvidence) (issuer observed_at : String) {found : String}
    → validate_receipt_payload p (payload_of e issuer observed_at) ≡ ok found
    → found ≡ issuer
unfolding payload_of get
issuer-payload_of p e issuer observed_at h =
    let checked = validate_receipt_payload-SoundPayload p (payload_of e issuer observed_at) h in
    let field : str issuer ≡ str _ = checked.issuer_field in cc

verify_decoded-wrapper :
    (p : Primitives) (payload : Fields) (issuer signature : String)
    → validate_receipt_payload p payload ≡ ok issuer
    → verify_detached_signature p issuer (p.canonical_json (obj payload)) signature ≡ true
    → verify_decoded p (wrapper payload (p.sha256 (p.canonical_json (obj payload))) signature)
      ≡ ok payload
unfolding verify_decoded get keys_are
verify_decoded-wrapper p payload issuer signature valid verified =
    simp (valid, verified, eq_refl (p.sha256 (p.canonical_json (obj payload)))) refl

abbrev pub rendering : Primitives → Value → Result String
rendering p receipt =
    if ltb 4096 (length (codes (p.dumps receipt)))
    then err (github_receipt_error "receipt_too_large")
    else ok (p.dumps receipt)

render-verified :
    (p : Primitives) (receipt : Value) {payload : Fields}
    → verify_decoded p receipt ≡ ok payload
    → render_signed_receipt p receipt ≡ rendering p receipt
unfolding render_signed_receipt
render-verified p receipt h = elim (Bool-cases (ltb 4096 (length (codes (p.dumps receipt))))) [
  | inl long ↦ simp (h, long) refl
  | inr short ↦ simp (h, short) refl
]

-- If what the key signs verifies under the issuer's DID, then a receipt that `build_signed_receipt`
-- returns passes the verification, which gives back the payload of the evidence, and rendering it
-- fails only if its text has more than 4096 characters.
pub verify_decoded-build :
    (p : Primitives) (evidence : PullRequestEvidence) (issuer_did : String) (key : PrivateKey)
    (observed_at : String) (receipt : Value)
    → SignsFor p key issuer_did
    → build_signed_receipt p evidence issuer_did key observed_at ≡ ok receipt
    → (verify_decoded p receipt ≡ ok (payload_of evidence issuer_did observed_at))
      × (render_signed_receipt p receipt ≡ (
          if ltb 4096 (length (codes (p.dumps receipt)))
          then err (github_receipt_error "receipt_too_large")
          else ok (p.dumps receipt)))
unfolding build_signed_receipt
verify_decoded-build p evidence issuer_did key observed_at receipt signs h =
    let (_, _, h₁) = >>=-eq-ok (validate_did issuer_did) _ h in
    let (own_did, _, h₂) = >>=-eq-ok (did_from_private_key key) _ h₁ in
    let (_, _, h₃) =
      >>=-eq-ok (require (own_did == issuer_did) (github_receipt_error "receipt_issuer_mismatch")) _
        h₂ in
    let payload = payload_of evidence issuer_did observed_at in
    let (found, e₄, h₄) = >>=-eq-ok (validate_receipt_payload p payload) _ h₃ in
    let (signature, e₅, h₅) =
      >>=-eq-ok (sign_detached p key (p.canonical_json (obj payload))) _ h₄ in
    let valid : validate_receipt_payload p payload ≡ ok issuer_did =
      e₄ ∙ ap ok (issuer-payload_of p evidence issuer_did observed_at e₄) in
    let verified =
      verify_decoded-wrapper p payload issuer_did signature valid
        (signs (p.canonical_json (obj payload)) signature e₅) in
    let made : wrapper payload (p.sha256 (p.canonical_json (obj payload))) signature ≡ receipt =
      cc in
    subst
      (λ built.
        (verify_decoded p built ≡ ok payload) × (render_signed_receipt p built ≡ rendering p built))
      made (verified, render-verified p _ verified)
