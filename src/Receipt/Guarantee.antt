-- ===== src/Receipt/Guarantee.antt =====
-- What a verified receipt says.
use mathlib.Core.Path.{subst}
use technocore_safe_agent.Base.{
  ℕ, ◌+◌, ◌≤◌, String, Bool, true, ◌&&◌, not, ◌==◌, nat_eq, string_eq, bool_eq, leb, List, [], ◌∷◌,
  Result, ok, ◌≡◌, ◌↔◌, sym, ap, arith, >>=-eq-ok, ok-injective, str_eq_iff, require, ◌>>◌,
}
use technocore_safe_agent.Json.{
  Value, Fields, int, str, obj, nat, get, keys_are, is_text, member_of, nonnegative,
}
use technocore_safe_agent.Json.Int.{pos}
use technocore_safe_agent.Json.Laws.{member_of-eq}
use technocore_safe_agent.Crypto.{validate_did, verify_detached_signature}
use technocore_safe_agent.Crypto.Library.{Primitives}
use technocore_safe_agent.Github.Url.{GithubPullRequestRef, full_name, split_slash}
use technocore_safe_agent.Receipt.{
  invalid_receipt, receipt_schema, receipt_source, api_version, ci_states, require_count, bool_of,
  parse_repository, repository_parts, require_timestamp,
}
use technocore_safe_agent.Receipt.Payload.{
  receipt_payload_keys, issuer_of, validate_header, parse_url, validate_subject, validate_commits,
  validate_ci_counts, is_plausible, validate_ci, validate_receipt_payload,
}
use technocore_safe_agent.Receipt.Signed.{
  fields_of, has_signature, verify_decoded, or_invalid, verify_signed_receipt,
}

-- The CI summary and its counts fit together.
pub record SoundCi (payload : Fields) : Type 0 where
  pub ci : String
  pub checks_observed : ℕ
  pub checks_total : ℕ
  pub statuses_observed : ℕ
  pub statuses_total : ℕ
  pub ci_field : get "ci" payload ≡ str ci
  pub checks_observed_field : get "checks_observed" payload ≡ nat checks_observed
  pub checks_total_field : get "checks_total" payload ≡ nat checks_total
  pub statuses_observed_field : get "statuses_observed" payload ≡ nat statuses_observed
  pub statuses_total_field : get "statuses_total" payload ≡ nat statuses_total
  pub checks_bound : checks_observed ≤ checks_total
  pub statuses_bound : statuses_observed ≤ statuses_total
  pub success_counts :
      ci ≡ "success"
      → (checks_observed ≡ checks_total)
        × (statuses_observed ≡ statuses_total)
        × (1 ≤ checks_total + statuses_total)
  pub no_signals_counts : (ci ≡ "no_signals") ↔ (checks_total + statuses_total ≡ 0)

-- The URL is that of the repository and the number.
pub record SoundSubject (p : Primitives) (payload : Fields) : Type 0 where
  pub reference : GithubPullRequestRef
  pub url_field : parse_url p (get "url" payload) ≡ ok reference
  pub repository_field : get "repository" payload ≡ str (full_name reference)
  pub number_field : get "pull_number" payload ≡ nat (reference.number)
  pub number_bound : 1 ≤ reference.number

-- The issuer has signed the payload.
pub record SignedBy (p : Primitives) (payload : Fields) : Type 0 where
  pub issuer : String
  pub signature : String
  pub issuer_field : get "issuer" payload ≡ str issuer
  pub verified :
      verify_detached_signature p issuer (p.canonical_json (obj payload)) signature ≡ true

pub require_count-nat : (v : Value) {n : ℕ} → require_count v ≡ ok n → v ≡ nat n
unfolding require_count nonnegative
require_count-nat (int (pos n)) h = cc
require_count-nat v h = cc

-- The tests on the counts that `validate_ci_counts` ends with.
abbrev counted_as : ℕ → ℕ → ℕ → ℕ → Bool → Result (ℕ × Bool)
counted_as checks_observed checks_total statuses_observed statuses_total complete = do
  require (leb checks_observed checks_total && leb statuses_observed statuses_total) invalid_receipt
  let counts_complete = checks_observed == checks_total && statuses_observed == statuses_total
  require (complete == counts_complete) invalid_receipt
  ok (checks_total + statuses_total, counts_complete)

successful :
    (checks_observed checks_total statuses_observed statuses_total : ℕ) (complete : Bool)
    {counted : ℕ × Bool}
    → counted_as checks_observed checks_total statuses_observed statuses_total complete ≡ ok counted
    → is_plausible "success" counted.0 counted.1 ≡ true
    → (checks_observed ≡ checks_total)
      × (statuses_observed ≡ statuses_total)
      × (1 ≤ checks_total + statuses_total)
unfolding is_plausible
successful checks_observed checks_total statuses_observed statuses_total complete h plausible =
    ground arith

counts_lem :
    (complete : Bool) (payload : Fields) (ci : String) (counted : ℕ × Bool)
    → get "ci" payload ≡ str ci
    → validate_ci_counts complete payload ≡ ok counted
    → is_plausible ci counted.0 counted.1 ≡ true
    → SoundCi payload
unfolding validate_ci_counts is_plausible
counts_lem complete payload ci counted is_ci h plausible =
    let (checks_observed, e₁, h₁) = >>=-eq-ok (require_count (get "checks_observed" payload)) _ h in
    let (checks_total, e₂, h₂) = >>=-eq-ok (require_count (get "checks_total" payload)) _ h₁ in
    let (statuses_observed, e₃, h₃) =
      >>=-eq-ok (require_count (get "statuses_observed" payload)) _ h₂ in
    let (statuses_total, e₄, h₄) = >>=-eq-ok (require_count (get "statuses_total" payload)) _ h₃ in
    record {
      ci = ci;
      checks_observed = checks_observed;
      checks_total = checks_total;
      statuses_observed = statuses_observed;
      statuses_total = statuses_total;
      ci_field = is_ci;
      checks_observed_field = require_count-nat (get "checks_observed" payload) e₁;
      checks_total_field = require_count-nat (get "checks_total" payload) e₂;
      statuses_observed_field = require_count-nat (get "statuses_observed" payload) e₃;
      statuses_total_field = require_count-nat (get "statuses_total" payload) e₄;
      checks_bound = ground arith;
      statuses_bound = ground arith;
      success_counts = λ success.
          successful checks_observed checks_total statuses_observed statuses_total complete h₄
            (subst (λ state. is_plausible state counted.0 counted.1 ≡ true) success plausible);
      no_signals_counts = ground (arith, str_eq_iff ci "no_signals");
    }

validate_ci-SoundCi :
    (payload : Fields) {u : Unit {0}} → validate_ci payload ≡ ok u → SoundCi payload
unfolding validate_ci
validate_ci-SoundCi payload h =
    let (ci, e₁, h₁) = >>=-eq-ok (member_of invalid_receipt ci_states (get "ci" payload)) _ h in
    let (complete, e₂, h₂) =
      >>=-eq-ok (bool_of invalid_receipt (get "ci_data_complete" payload)) _ h₁ in
    let (counted, e₃, h₃) = >>=-eq-ok (validate_ci_counts complete payload) _ h₂ in
    counts_lem complete payload ci counted
      (member_of-eq invalid_receipt ci_states (get "ci" payload) e₁).0 e₃ (ground arith)

repository_parts-eq :
    (value : String) (parts : List String) {s : String}
    → repository_parts value parts ≡ ok s
    → s ≡ value
repository_parts-eq value [] h = cc
repository_parts-eq value (owner ∷ []) h = cc
repository_parts-eq value (owner ∷ repository ∷ []) h = ground arith
repository_parts-eq value (owner ∷ repository ∷ more ∷ parts) h = cc

parse_repository-eq : (v : Value) {s : String} → parse_repository v ≡ ok s → v ≡ str s
unfolding parse_repository
parse_repository-eq (str value) h = ap str (sym (repository_parts-eq value (split_slash value) h))
parse_repository-eq v h = cc

validate_subject-SoundSubject :
    (p : Primitives) (payload : Fields) {u : Unit {0}}
    → validate_subject p payload ≡ ok u
    → SoundSubject p payload
unfolding validate_subject
validate_subject-SoundSubject p payload h =
    let (repository, e₁, h₁) = >>=-eq-ok (parse_repository (get "repository" payload)) _ h in
    let (number, e₂, h₂) = >>=-eq-ok (require_count (get "pull_number" payload)) _ h₁ in
    let (_, e₃, h₃) = >>=-eq-ok (require (not (number == 0)) invalid_receipt) _ h₂ in
    let (reference, e₄, h₄) = >>=-eq-ok (parse_url p (get "url" payload)) _ h₃ in
    let (_, e₅, h₅) =
      >>=-eq-ok
        (require (full_name reference == repository && reference.number == number) invalid_receipt)
        _ h₄ in
    let same : (full_name reference ≡ repository) × (reference.number ≡ number) =
      ground (arith, str_eq_iff (full_name reference) repository) in
    let nonzero : 1 ≤ number = ground arith in
    record {
      reference = reference;
      url_field = e₄;
      repository_field = rw same.0 (parse_repository-eq (get "repository" payload) e₁);
      number_field = rw same.1 (require_count-nat (get "pull_number" payload) e₂);
      number_bound = rw same.1 nonzero;
    }

issuer_of-eq : (v : Value) {s : String} → issuer_of v ≡ ok s → v ≡ str s
unfolding validate_did
issuer_of-eq (str s) h = ground arith
issuer_of-eq v h = ground arith

validate_header-eq :
    (payload : Fields) {issuer : String}
    → validate_header payload ≡ ok issuer
    → get "issuer" payload ≡ str issuer
unfolding validate_header
validate_header-eq payload h =
    let (_, _, h₁) =
      >>=-eq-ok
        (require
          (is_text receipt_schema (get "schema" payload)
            && is_text receipt_source (get "source" payload)
            && is_text api_version (get "api_version" payload))
          invalid_receipt)
        _ h in
    issuer_of-eq (get "issuer" payload) h₁

-- What `validate_receipt_payload` has checked.
pub record SoundPayload (p : Primitives) (payload : Fields) (issuer : String) : Type 0 where
  pub issuer_field : get "issuer" payload ≡ str issuer
  pub subject : SoundSubject p payload
  pub ci : SoundCi payload

pub validate_receipt_payload-SoundPayload :
    (p : Primitives) (payload : Fields) {issuer : String}
    → validate_receipt_payload p payload ≡ ok issuer
    → SoundPayload p payload issuer
unfolding validate_receipt_payload
validate_receipt_payload-SoundPayload p payload {issuer} h =
    let (_, _, h₁) =
      >>=-eq-ok (require (keys_are receipt_payload_keys payload) invalid_receipt) _ h in
    let (found, e₂, h₂) = >>=-eq-ok (validate_header payload) _ h₁ in
    let (_, e₃, h₃) = >>=-eq-ok (validate_subject p payload) _ h₂ in
    let (_, _, h₄) = >>=-eq-ok (validate_commits payload) _ h₃ in
    let (_, e₅, h₅) = >>=-eq-ok (validate_ci payload) _ h₄ in
    let (_, _, h₆) = >>=-eq-ok (require_timestamp p (get "source_updated_at" payload)) _ h₅ in
    let (_, _, h₇) = >>=-eq-ok (require_timestamp p (get "observed_at" payload)) _ h₆ in
    let same = ok-injective h₇ in
    record {
      issuer_field = rw (sym same) (validate_header-eq payload e₂);
      subject = validate_subject-SoundSubject p payload e₃;
      ci = validate_ci-SoundCi payload e₅;
    }

has_signature-eq :
    (p : Primitives) (issuer : String) (payload : Fields) (v : Value)
    → has_signature p issuer payload v ≡ true
    → (signature : String) × (verify_detached_signature p issuer
          (p.canonical_json (obj payload))
          signature
        ≡ true)
has_signature-eq p issuer payload (str signature) h = (signature, h)
has_signature-eq p issuer payload v h = cc

-- What a receipt that `verify_signed_receipt` accepts guarantees.
pub record Sound (p : Primitives) (payload : Fields) : Type 0 where
  pub signed : SignedBy p payload
  pub subject : SoundSubject p payload
  pub ci : SoundCi payload

verify_decoded-Sound :
    (p : Primitives) (decoded : Value) {payload : Fields}
    → verify_decoded p decoded ≡ ok payload
    → Sound p payload
unfolding verify_decoded
verify_decoded-Sound p decoded {payload} h =
    let (wrapper, _, h₁) = >>=-eq-ok (fields_of decoded) _ h in
    let (_, _, h₂) =
      >>=-eq-ok
        (require (keys_are ("payload" ∷ "payload_sha256" ∷ "signature" ∷ []) wrapper)
          invalid_receipt)
        _ h₁ in
    let (fields, _, h₃) = >>=-eq-ok (fields_of (get "payload" wrapper)) _ h₂ in
    let (issuer, e₄, h₄) = >>=-eq-ok (validate_receipt_payload p fields) _ h₃ in
    let (_, _, h₅) =
      >>=-eq-ok
        (require (is_text (p.sha256 (p.canonical_json (obj fields))) (get "payload_sha256" wrapper))
          invalid_receipt)
        _ h₄ in
    let (_, e₆, h₆) =
      >>=-eq-ok (require (has_signature p issuer fields (get "signature" wrapper)) invalid_receipt)
        _ h₅ in
    let same = ok-injective h₆ in
    let checked = validate_receipt_payload-SoundPayload p fields e₄ in
    let (signature, verified) =
      has_signature-eq p issuer fields (get "signature" wrapper) (ground arith) in
    subst (Sound p) same (record {
      signed = record {
        issuer = issuer;
        signature = signature;
        issuer_field = checked.issuer_field;
        verified = verified;
      };
      subject = checked.subject;
      ci = checked.ci;
    })

-- A receipt that `verify_signed_receipt` accepts is signed by its issuer, its URL is that of its
-- repository and positive number, it observed no more check runs and statuses than there are, it
-- says "success" only where it observed all of them and at least one, and "no_signals" exactly
-- where there are none.
pub verify_signed_receipt-Sound :
    (p : Primitives) (receipt : String) {payload : Fields}
    → verify_signed_receipt p receipt ≡ ok payload
    → Sound p payload
unfolding verify_signed_receipt
verify_signed_receipt-Sound p receipt h =
    let (decoded, _, h₁) = >>=-eq-ok (or_invalid p (p.loads_text receipt)) _ h in
    verify_decoded-Sound p decoded h₁
