-- ===== src/Receipt/Client.antt =====
-- `GitHubPublicClient` of receipt.py: three requests to GitHub, and the evidence made of their answers.
-- A transport gives the answer to a path, or raises.
use Prim.Native.String.{◌++◌ as ◌<>◌}
use technocore_safe_agent.Base.{
  ℕ, ◌+◌, String, Bool, true, false, ◌&&◌, ◌||◌, not, Option, none, some, List, [], ◌∷◌, ◌==◌,
  nat_eq, string_eq, leb, length, contains, if◌then◌else◌, Result, ok, err, github_receipt_error,
  require, ◌>>=◌, ◌>>◌,
}
use technocore_safe_agent.Base.Dict.{Dict, lookup}
use technocore_safe_agent.Json.{Value, Fields, null, bool, str, get, member_of}
use technocore_safe_agent.Crypto.Chars.{codes, strip_prefix}
use technocore_safe_agent.Crypto.Decimal.{render}
use technocore_safe_agent.Crypto.Library.{Primitives}
use technocore_safe_agent.Github.Url.{
  GithubPullRequestRef, full_name, url, parse_github_pull_request_url,
}
use technocore_safe_agent.Receipt.{
  PullRequestEvidence, invalid_response, require_sha, require_count, mapping, list_of, bool_of,
  parse_repository, author_of, require_timestamp,
}
use technocore_safe_agent.Receipt.Payload.{parse_url}

pub record RawGithubResponse : Type 0 where
  pub status : ℕ
  pub headers : Dict String
  pub body : List ℕ

abbrev pub Transport : Type 0
Transport = String → Result RawGithubResponse

pub record PullDetails : Type 0 where
  pub repository : String
  pub number : ℕ
  pub url : String
  pub author : String
  pub state : String
  pub merged : Bool
  pub draft : Bool
  pub head_sha : String
  pub base_sha : String
  pub merge_commit_sha : Option String
  pub source_updated_at : String

pub record CheckSummary : Type 0 where
  pub observed : ℕ
  pub total : ℕ
  pub complete : Bool
  pub has_failure : Bool
  pub has_pending : Bool

pub record StatusSummary : Type 0 where
  pub observed : ℕ
  pub total : ℕ
  pub complete : Bool
  pub state : String

abbrev pub check_statuses : List String
check_statuses = "queued" ∷ "in_progress" ∷ "requested" ∷ "waiting" ∷ "pending" ∷ "completed" ∷ []

abbrev pub check_failures : List String
check_failures =
    "action_required" ∷ "cancelled" ∷ "failure" ∷ "stale" ∷ "startup_failure" ∷ "timed_out" ∷ []

abbrev pub check_non_failures : List String
check_non_failures = "neutral" ∷ "skipped" ∷ "success" ∷ []

abbrev pub combined_status_states : List String
combined_status_states = "error" ∷ "failure" ∷ "pending" ∷ "success" ∷ []

-- "//" in path
unfoldable pub has_double_slash : List ℕ → Bool
has_double_slash [] = false
has_double_slash (c ∷ cs) = elim (strip_prefix (codes "//") (c ∷ cs)) [
  | some _ ↦ true
  | none ↦ has_double_slash cs
]

abbrev pub is_some {ℓ} : {A : Type ℓ} → Option A → Bool
is_some none = false
is_some (some _) = true

unfoldable pub is_safe_path : String → Bool
unfolding has_double_slash
is_safe_path path =
    is_some (strip_prefix (codes "/repos/") (codes path)) && not (has_double_slash (codes path))

-- The codes of the error for a status other than 200.
unfoldable pub status_code : RawGithubResponse → String
unfolding lookup
status_code response =
    if response.status == 429
      || response.status == 403 && elim (lookup "x-ratelimit-remaining" response.headers) [
        | none ↦ false
        | some remaining ↦ remaining == "0"
      ]
    then "github_rate_limited"
    else "github_http_" <> render response.status

-- `value is False`
abbrev pub is_false : Value → Bool
is_false (bool b) = not b
is_false _ = false

abbrev pub decoded_object : Option Value → Result Fields
decoded_object none = err invalid_response
decoded_object (some value) = mapping value

-- A merge commit counts only on a merged pull request.
abbrev pub merge_commit : Bool → Value → Result (Option String)
merge_commit merged null = ok none
merge_commit true value = do sha ← require_sha value; ok (some sha)
merge_commit false _ = ok none

-- The conclusion of a completed run: whether it is a failure.
unfoldable pub conclude : Value → Result Bool
unfolding member_of
conclude (str conclusion) =
    if contains check_failures conclusion
    then ok true
    else do member_of invalid_response check_non_failures (str conclusion); ok false
conclude value = do member_of invalid_response check_non_failures value; ok false

-- The flags after a run with this status: has_failure and has_pending.
unfoldable pub note_run : Bool × Bool → String → Value → Result (Bool × Bool)
unfolding conclude
note_run flags status conclusion =
    if not (status == "completed")
    then ok (flags.0, true)
    else (conclude conclusion >>= λ failure. ok (flags.0 || failure, flags.1))

-- One round of the loop over the runs.
unfoldable pub check_run : String → Bool × Bool → Value → Result (Bool × Bool)
unfolding get member_of note_run
check_run expected_sha flags raw_run = do
  run ← mapping raw_run
  sha ← require_sha (get "head_sha" run)
  require (sha == expected_sha) invalid_response
  status ← member_of invalid_response check_statuses (get "status" run)
  note_run flags status (get "conclusion" run)

unfoldable pub check_runs : String → Bool × Bool → List Value → Result (Bool × Bool)
unfolding check_run
check_runs expected_sha flags [] = ok flags
check_runs expected_sha flags (run ∷ runs) = do
  next ← check_run expected_sha flags run
  check_runs expected_sha next runs

-- `_parse_checks`
unfoldable pub parse_checks : String → Fields → Result CheckSummary
unfolding get check_runs
parse_checks expected_sha payload = do
  total ← require_count (get "total_count" payload)
  runs ← list_of (get "check_runs" payload)
  require (leb (length runs) total && leb (length runs) 100) invalid_response
  flags ← check_runs expected_sha (false, false) runs
  ok (record {
    observed = length runs;
    total = total;
    complete = length runs == total;
    has_failure = flags.0;
    has_pending = flags.1;
  })

-- `_parse_statuses`
unfoldable pub parse_statuses : String → Fields → Result StatusSummary
unfolding get member_of
parse_statuses expected_sha payload = do
  sha ← require_sha (get "sha" payload)
  require (sha == expected_sha) invalid_response
  state ← member_of invalid_response combined_status_states (get "state" payload)
  total ← require_count (get "total_count" payload)
  statuses ← list_of (get "statuses" payload)
  require (leb (length statuses) total && leb (length statuses) 100) invalid_response
  ok (record {
    observed = length statuses;
    total = total;
    complete = length statuses == total;
    state = state;
  })

-- The `ci` of `inspect`.
unfoldable pub classify : CheckSummary → StatusSummary → String
classify checks statuses =
    if checks.has_failure || (statuses.state == "error" || statuses.state == "failure")
    then "failure"
    else if not (checks.complete && statuses.complete)
    then "partial"
    else if checks.total + statuses.total == 0
    then "no_signals"
    else if checks.has_pending || statuses.state == "pending"
    then "pending"
    else "success"

unfoldable pub evidence_of : PullDetails → CheckSummary → StatusSummary → PullRequestEvidence
unfolding classify
evidence_of details checks statuses = record {
  repository = details.repository;
  number = details.number;
  url = details.url;
  author = details.author;
  state = details.state;
  merged = details.merged;
  draft = details.draft;
  head_sha = details.head_sha;
  base_sha = details.base_sha;
  merge_commit_sha = details.merge_commit_sha;
  ci = classify checks statuses;
  ci_data_complete = checks.complete && statuses.complete;
  checks_observed = checks.observed;
  checks_total = checks.total;
  statuses_observed = statuses.observed;
  statuses_total = statuses.total;
  source_updated_at = details.source_updated_at;
}

abbrev pub base_path : GithubPullRequestRef → String
base_path reference = "/repos/" <> (reference.owner <> ("/" <> reference.repository))

abbrev pub pull_path : GithubPullRequestRef → String
pull_path reference = base_path reference <> ("/pulls/" <> render reference.number)

abbrev pub checks_path : GithubPullRequestRef → String → String
checks_path reference head_sha =
    base_path reference <> ("/commits/" <> (head_sha <> "/check-runs?per_page=100&filter=latest"))

abbrev pub statuses_path : GithubPullRequestRef → String → String
statuses_path reference head_sha =
    base_path reference <> ("/commits/" <> (head_sha <> "/status?per_page=100"))

module _ (p : Primitives) where
  open p use {casefold, loads_bytes}

  -- `_request_object`
  unfoldable pub request_object : Transport → String → Result Fields
  unfolding is_safe_path status_code
  request_object request path = do
    require (is_safe_path path) (github_receipt_error "unsafe_github_path")
    response ← request path
    require (leb (length response.body) 2_097_152)
        (github_receipt_error "github_response_too_large")
    require (response.status == 200) (github_receipt_error (status_code response))
    decoded_object (loads_bytes response.body)

  -- The checks of `_parse_pull` up to the pull request's URL: (base, canonical reference).
  unfoldable pub parse_subject :
      GithubPullRequestRef → Fields → Result (Fields × String × ℕ × String)
  unfolding get full_name url parse_url
  parse_subject reference payload = do
    number ← require_count (get "number" payload)
    require (number == reference.number && not (number == 0)) invalid_response
    base ← mapping (get "base" payload)
    base_repo ← mapping (get "repo" base)
    require (is_false (get "private" base_repo))
        (github_receipt_error "private_repository_rejected")
    repository ← parse_repository (get "full_name" base_repo)
    require (casefold repository == casefold (full_name reference)) invalid_response
    canonical ←
        parse_github_pull_request_url p
          ("https://github.com/" <> (repository <> ("/pull/" <> render number)))
    html ← parse_url p (get "html_url" payload)
    require (casefold (full_name html) == casefold (full_name canonical) && html.number == number)
        invalid_response
    ok (base, repository, number, url canonical)

  -- `_parse_pull`
  unfoldable pub parse_pull : GithubPullRequestRef → Fields → Result PullDetails
  unfolding get parse_subject member_of
  parse_pull reference payload = do
    (base, repository, number, canonical_url) ← parse_subject reference payload
    user ← mapping (get "user" payload)
    author ← author_of invalid_response (get "login" user)
    state ← member_of invalid_response ("open" ∷ "closed" ∷ []) (get "state" payload)
    merged ← bool_of invalid_response (get "merged" payload)
    draft ← bool_of invalid_response (get "draft" payload)
    head ← mapping (get "head" payload)
    head_sha ← require_sha (get "sha" head)
    base_sha ← require_sha (get "sha" base)
    merge_commit_sha ← merge_commit merged (get "merge_commit_sha" payload)
    source_updated_at ← require_timestamp p (get "updated_at" payload)
    ok (record {
      repository = repository;
      number = number;
      url = canonical_url;
      author = author;
      state = state;
      merged = merged;
      draft = draft;
      head_sha = head_sha;
      base_sha = base_sha;
      merge_commit_sha = merge_commit_sha;
      source_updated_at = source_updated_at;
    })

  unfoldable pub inspect : Transport → GithubPullRequestRef → Result PullRequestEvidence
  unfolding request_object parse_pull parse_checks parse_statuses evidence_of
  inspect request reference = do
    pull ← request_object request (pull_path reference)
    details ← parse_pull reference pull
    raw_checks ← request_object request (checks_path reference details.head_sha)
    checks ← parse_checks details.head_sha raw_checks
    raw_statuses ← request_object request (statuses_path reference details.head_sha)
    statuses ← parse_statuses details.head_sha raw_statuses
    ok (evidence_of details checks statuses)
