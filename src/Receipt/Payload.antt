-- ===== src/Receipt/Payload.antt =====
-- The checks of a receipt's payload: `_validate_receipt_payload` of receipt.py and its parts.
use technocore_safe_agent.Base.{
  ℕ, ◌+◌, String, Bool, true, false, ◌&&◌, ◌||◌, not, List, [], ◌∷◌, ◌==◌, nat_eq, bool_eq,
  string_eq, leb, Result, ok, err, protocol_value_as, require, ◌>>=◌, ◌>>◌,
}
use technocore_safe_agent.Json.{Value, Fields, null, str, get, keys_are, is_text, member_of}
use technocore_safe_agent.Crypto.{validate_did}
use technocore_safe_agent.Crypto.Library.{Primitives}
use technocore_safe_agent.Github.Url.{
  GithubPullRequestRef, full_name, invalid_url, parse_github_pull_request_url,
}
use technocore_safe_agent.Receipt.{
  invalid_receipt, api_version, receipt_schema, receipt_source, ci_states, require_sha,
  require_count, bool_of, parse_repository, author_of, require_timestamp,
}

abbrev pub receipt_payload_keys : List String
receipt_payload_keys =
    "schema" ∷ "issuer" ∷ "source" ∷ "api_version" ∷ "repository" ∷ "pull_number" ∷ "url" ∷ "author"
    ∷ "state" ∷ "merged" ∷ "draft" ∷ "head_sha" ∷ "base_sha" ∷ "merge_commit_sha" ∷ "ci"
    ∷ "ci_data_complete" ∷ "checks_observed" ∷ "checks_total" ∷ "statuses_observed"
    ∷ "statuses_total" ∷ "source_updated_at" ∷ "observed_at" ∷ []

-- `validate_did` refuses what is no str.
abbrev pub issuer_of : Value → Result String
issuer_of (str s) = protocol_value_as invalid_receipt (validate_did s)
issuer_of _ = err invalid_receipt

-- `_validate_receipt_header`; the result is the issuer that `verify_signed_receipt` reads again.
unfoldable pub validate_header : Fields → Result String
unfolding get
validate_header payload = do
  require
      (is_text receipt_schema (get "schema" payload)
        && is_text receipt_source (get "source" payload)
        && is_text api_version (get "api_version" payload))
      invalid_receipt
  issuer_of (get "issuer" payload)

-- `parse_github_pull_request_url` of any value
unfoldable pub parse_url : Primitives → Value → Result GithubPullRequestRef
parse_url p (str s) = parse_github_pull_request_url p s
parse_url p _ = err invalid_url

-- `_validate_receipt_subject`
unfoldable pub validate_subject : Primitives → Fields → Result (Unit {0})
unfolding get parse_url
validate_subject p payload = do
  repository ← parse_repository (get "repository" payload)
  number ← require_count (get "pull_number" payload)
  require (not (number == 0)) invalid_receipt
  reference ← parse_url p (get "url" payload)
  require (full_name reference == repository && reference.number == number) invalid_receipt
  author_of invalid_receipt (get "author" payload)
  member_of invalid_receipt ("open" ∷ "closed" ∷ []) (get "state" payload)
  bool_of invalid_receipt (get "merged" payload)
  bool_of invalid_receipt (get "draft" payload)
  ok tt

-- Only a merged pull request may name a merge commit.
abbrev pub merge_sha_of : Bool → Value → Result (Unit {0})
merge_sha_of merged null = ok tt
merge_sha_of true value = do require_sha value; ok tt
merge_sha_of false _ = err invalid_receipt

-- `_validate_receipt_commits`, after `validate_subject` has checked that `merged` is a bool
unfoldable pub validate_commits : Fields → Result (Unit {0})
unfolding get
validate_commits payload = do
  require_sha (get "head_sha" payload)
  require_sha (get "base_sha" payload)
  merged ← bool_of invalid_receipt (get "merged" payload)
  merge_sha_of merged (get "merge_commit_sha" payload)

-- `_validate_receipt_ci_counts`: (signals, counts_complete)
unfoldable pub validate_ci_counts : Bool → Fields → Result (ℕ × Bool)
unfolding get
validate_ci_counts complete payload = do
  checks_observed ← require_count (get "checks_observed" payload)
  checks_total ← require_count (get "checks_total" payload)
  statuses_observed ← require_count (get "statuses_observed" payload)
  statuses_total ← require_count (get "statuses_total" payload)
  require (leb checks_observed checks_total && leb statuses_observed statuses_total) invalid_receipt
  let counts_complete = checks_observed == checks_total && statuses_observed == statuses_total
  require (complete == counts_complete) invalid_receipt
  ok (checks_total + statuses_total, counts_complete)

-- The four tests of the CI summary against its counts.
unfoldable pub is_plausible : String → ℕ → Bool → Bool
is_plausible ci signals counts_complete =
    not (ci == "no_signals" && not (signals == 0))
    && not (not (ci == "no_signals") && signals == 0)
    && not (ci == "partial" && counts_complete)
    && not ((ci == "pending" || ci == "success") && not counts_complete)

-- `_validate_receipt_ci`
unfoldable pub validate_ci : Fields → Result (Unit {0})
unfolding get member_of
validate_ci payload = do
  ci ← member_of invalid_receipt ci_states (get "ci" payload)
  complete ← bool_of invalid_receipt (get "ci_data_complete" payload)
  counted ← validate_ci_counts complete payload
  require (is_plausible ci counted.0 counted.1) invalid_receipt

-- `_validate_receipt_payload`; the result is the issuer.
unfoldable pub validate_receipt_payload : Primitives → Fields → Result String
unfolding get keys_are
validate_receipt_payload p payload = do
  require (keys_are receipt_payload_keys payload) invalid_receipt
  issuer ← validate_header payload
  validate_subject p payload
  validate_commits payload
  validate_ci payload
  require_timestamp p (get "source_updated_at" payload)
  require_timestamp p (get "observed_at" payload)
  ok issuer
