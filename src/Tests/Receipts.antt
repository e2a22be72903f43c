-- ===== src/Tests/Receipts.antt =====
-- A pull request of GitHub, the receipt of it, and runs of receipt.py on them.
use mathlib.Core.Path.{subst}
use technocore_safe_agent.Base.{
  ℕ, String, true, false, Option, none, some, List, [], ◌∷◌, ◌==◌, nat_eq, string_eq, list_eq, ok,
  refl, ◌≡◌, if◌then◌else◌, ok-injective,
}
use technocore_safe_agent.Json.{
  Value, Fields, null, bool, str, list, obj, nil, cons, end, field, nat, get, has, keys_are,
  member_of, nonnegative,
}
use technocore_safe_agent.Crypto.{
  strip, validate_did, did_pattern, did_from_private_key, sign_detached, signature_pattern,
  verify_detached_signature, public_key_from_did,
}
use technocore_safe_agent.Crypto.Chars.{
  is_digit, strip_prefix, rstrip, lstrip, is_hex, is_base58, is_urlsafe,
}
use technocore_safe_agent.Crypto.Base58.{encode, decode, decode_loop, index_of, to_bytes, zeroes}
use technocore_safe_agent.Crypto.Decimal.{render, parse}
use technocore_safe_agent.Crypto.Library.{Primitives}
use technocore_safe_agent.Github.{
  is_alnum, owner_pattern, repository_pattern, ends_with, valid_repository,
}
use technocore_safe_agent.Github.Url.{
  GithubPullRequestRef, full_name, url, split_slash, number_pattern, int_of,
  parse_github_pull_request_url,
}
use technocore_safe_agent.Receipt.{
  PullRequestEvidence, sha_pattern, login_codes, before_suffix, author_pattern, require_sha,
  require_count, mapping, list_of, bool_of, parse_repository, author_of, timestamp,
  require_timestamp,
}
use technocore_safe_agent.Receipt.Payload.{
  validate_header, parse_url, validate_subject, validate_commits, validate_ci_counts, is_plausible,
  validate_ci, validate_receipt_payload,
}
use technocore_safe_agent.Receipt.Signed.{
  payload_of, wrapper, build_signed_receipt, verify_signed_receipt,
}
use technocore_safe_agent.Receipt.RoundTrip.{SignsFor, verify_decoded-build}
use technocore_safe_agent.Receipt.Client.{
  Transport, has_double_slash, is_safe_path, status_code, conclude, note_run, check_run, check_runs,
  parse_checks, parse_statuses, classify, evidence_of, request_object, parse_subject, parse_pull,
  inspect,
}
use technocore_safe_agent.Receipt.Service.{ReceiptService, Call}
use technocore_safe_agent.Tests.Data.{library, key, own_did, signature86, zeroes64}

abbrev pub zeroes40 : String
zeroes40 = "0000000000000000000000000000000000000000"

abbrev pub noon : String
noon = "2026-01-01T12:00:00Z"

abbrev pub reference : GithubPullRequestRef
reference = record { owner = "o"; repository = "r"; number = 7 }

abbrev pull : Value
pull = obj (
    field "number" (nat 7) (
      field "base"
        (obj (
          field "repo" (obj (field "private" (bool false) (field "full_name" (str "o/r") end)))
            (field "sha" (str zeroes40) end)))
        (field "html_url" (str "https://github.com/o/r/pull/7") (
          field "user" (obj (field "login" (str "dependabot[bot]") end)) (
            field "state" (str "open") (
              field "merged" (bool false) (
                field "draft" (bool false) (
                  field "head" (obj (field "sha" (str zeroes40) end))
                    (field "updated_at" (str noon) end)))))))))

abbrev run : Value
run = obj (
    field "head_sha" (str zeroes40)
      (field "status" (str "completed") (field "conclusion" (str "success") end)))

abbrev checks : Value
checks = obj (field "total_count" (nat 1) (field "check_runs" (list (cons run nil)) end))

abbrev statuses : Value
statuses = obj (
    field "sha" (str zeroes40) (
      field "state" (str "success")
        (field "total_count" (nat 1) (field "statuses" (list (cons null nil)) end))))

-- A body of one byte stands for each of the answers.
abbrev pub transport : Transport
transport path = ok (record {
  status = 200;
  headers = [];
  body =
      if path == "/repos/o/r/pulls/7"
      then 1 ∷ []
      else if path
          == "/repos/o/r/commits/0000000000000000000000000000000000000000/status?per_page=100"
      then 3 ∷ []
      else 2 ∷ [];
})

abbrev answer : List ℕ → Option Value
answer bs = if bs == 1 ∷ [] then some pull else if bs == 2 ∷ [] then some checks else some statuses

abbrev pub evidence : PullRequestEvidence
evidence = record {
  repository = "o/r";
  number = 7;
  url = "https://github.com/o/r/pull/7";
  author = "dependabot[bot]";
  state = "open";
  merged = false;
  draft = false;
  head_sha = zeroes40;
  base_sha = zeroes40;
  merge_commit_sha = none;
  ci = "success";
  ci_data_complete = true;
  checks_observed = 1;
  checks_total = 1;
  statuses_observed = 1;
  statuses_total = 1;
  source_updated_at = noon;
}

unfoldable pub payload : Fields
unfolding payload_of
payload = payload_of evidence own_did noon

unfoldable pub receipt : Value
unfolding payload
receipt = wrapper payload zeroes64 signature86

-- The library of the runs: one URL, the three answers and one text of a receipt.
unfoldable pub github : Primitives
unfolding receipt
github = record library {
  category = λ c. if is_digit c then "Nd" else "Ll";
  urlsplit = λ s. some (record {
    scheme = "https";
    netloc = "github.com";
    path = "/o/r/pull/7";
    query = "";
    fragment = "";
    hostname = some "github.com";
    username = none;
    password = none;
  });
  loads_bytes = answer;
  loads_text = λ s. some receipt;
}

pub inspect_run : inspect github transport reference ≡ ok evidence
unfolding inspect github request_object is_safe_path has_double_slash strip_prefix status_code
    mapping parse_pull parse_subject get require_count nonnegative parse_repository split_slash
    owner_pattern is_alnum valid_repository repository_pattern ends_with list_eq full_name url
    render parse_url parse_github_pull_request_url strip rstrip lstrip number_pattern int_of parse
    author_of author_pattern login_codes before_suffix member_of bool_of require_sha sha_pattern
    is_hex require_timestamp timestamp parse_checks list_of check_runs check_run note_run conclude
    parse_statuses evidence_of classify
inspect_run = refl

pub build_run : build_signed_receipt github evidence own_did key noon ≡ ok receipt
unfolding build_signed_receipt github receipt payload payload_of validate_did did_pattern
    strip_prefix is_base58 did_from_private_key encode validate_receipt_payload keys_are has get
    validate_header validate_subject require_count nonnegative parse_repository split_slash
    owner_pattern is_alnum valid_repository repository_pattern ends_with list_eq full_name parse_url
    parse_github_pull_request_url strip rstrip lstrip number_pattern int_of parse author_of
    author_pattern login_codes before_suffix member_of bool_of validate_commits require_sha
    sha_pattern is_hex require_timestamp timestamp validate_ci validate_ci_counts is_plausible
    sign_detached signature_pattern is_urlsafe
build_run = refl

signs_run : (bs : List ℕ) → verify_detached_signature github own_did bs signature86 ≡ true
unfolding verify_detached_signature github signature_pattern is_urlsafe public_key_from_did
    validate_did did_pattern strip_prefix is_base58 decode decode_loop index_of to_bytes zeroes
signs_run bs = refl

pub signs_for : SignsFor github key own_did
unfolding sign_detached github signature_pattern is_urlsafe rstrip
signs_for bs signature h =
    subst (λ s. verify_detached_signature github own_did bs s ≡ true) (ok-injective h)
      (signs_run bs)

pub verify_run : verify_signed_receipt github "receipt" ≡ ok payload
unfolding verify_signed_receipt github receipt payload
verify_run = (verify_decoded-build github evidence own_did key noon receipt signs_for build_run).0

abbrev pub service : ReceiptService
service = record { issuer_did = own_did; key = key; min_interval = 60 }

abbrev pub call_at : ℕ → Call
call_at now = record {
  url = "https://github.com/o/r/pull/7";
  now = now;
  transport = transport;
  observed_at = noon;
}
