-- ===== src/Receipt/Ci.antt =====
-- When the evidence of `inspect` says that CI succeeded: read off GitHub's answers by another path.
use mathlib.Core.Path.{subst}
use technocore_safe_agent.Base.{
  ℕ, ◌+◌, String, Bool, true, false, ◌&&◌, ◌||◌, not, List, [], ◌∷◌, ◌==◌, nat_eq, string_eq,
  length, contains, every, ok, ◌≡◌, refl, sym, ap, ◌∙◌, ◌↔◌, arith, >>=-eq-ok, ok-injective, ◌>>=◌,
  str_eq_iff, require, leb, All, if◌then◌else◌, Bool-cases, inl, inr, eq_true,
}
use technocore_safe_agent.Json.{
  Value, Fields, int, str, list, obj, items, get, is_text, member_of, nonnegative,
}
use technocore_safe_agent.Json.Laws.{member_of-eq}
use technocore_safe_agent.Json.Int.{pos}
use technocore_safe_agent.Crypto.Library.{Primitives}
use technocore_safe_agent.Github.Url.{GithubPullRequestRef}
use technocore_safe_agent.Receipt.{
  PullRequestEvidence, invalid_response, require_sha, require_count, mapping, list_of,
}
use technocore_safe_agent.Receipt.Client.{
  Transport, CheckSummary, StatusSummary, check_statuses, check_non_failures, check_failures,
  combined_status_states, conclude, note_run, check_run, check_runs, parse_checks, parse_statuses,
  classify, evidence_of, request_object, parse_pull, inspect, pull_path, checks_path, statuses_path,
}

abbrev pub is_non_failure : Value → Bool
is_non_failure (str conclusion) = contains check_non_failures conclusion
is_non_failure _ = false

-- A check run of this commit that is completed without a failure.
abbrev pub is_passed : String → Value → Bool
is_passed sha (obj run) =
    is_text sha (get "head_sha" run)
    && is_text "completed" (get "status" run)
    && is_non_failure (get "conclusion" run)
is_passed sha _ = false

abbrev pub values : Value → List Value
values (list vs) = items vs
values _ = []

abbrev pub count_of : Value → ℕ
count_of (int (pos n)) = n
count_of _ = 0

-- Every listed run passed, the combined state is of the commit and a success, no run and no status is missing from
-- the lists, and there is one at least.
unfoldable pub is_green : String → Fields → Fields → Bool
unfolding get
is_green sha checks statuses =
    every (is_passed sha) (values (get "check_runs" checks))
    && length (values (get "check_runs" checks)) == count_of (get "total_count" checks)
    && is_text sha (get "sha" statuses)
    && is_text "success" (get "state" statuses)
    && length (values (get "statuses" statuses)) == count_of (get "total_count" statuses)
    && not (count_of (get "total_count" checks) + count_of (get "total_count" statuses) == 0)

-- Neither a failure nor a pending run yet.
abbrev is_clear : Bool × Bool → Bool
is_clear flags = not (flags.0 || flags.1)

contains-disjoint :
    (xs ys : List String) (s : String)
    → every (λ x. not (contains ys x)) xs ≡ true
    → contains xs s ≡ true
    → contains ys s ≡ false
contains-disjoint [] ys s apart h = ground arith
contains-disjoint (x ∷ xs) ys s apart h = elim (Bool-cases (s == x)) [
  | inl same ↦ rw (eq_true s x same) (ground arith)
  | inr other ↦ contains-disjoint xs ys s (ground arith) (ground arith)
]

conclude-lem :
    (v : Value) {failure : Bool} → conclude v ≡ ok failure → failure ≡ not (is_non_failure v)
unfolding conclude member_of
conclude-lem (str s) h = ground (arith, contains-disjoint check_failures check_non_failures s refl)
conclude-lem v h = ground arith

note_run-lem :
    (flags : Bool × Bool) (status : String) (conclusion : Value) {next : Bool × Bool}
    → note_run flags status conclusion ≡ ok next
    → is_clear next ≡ (is_clear flags && (status == "completed" && is_non_failure conclusion))
unfolding note_run
note_run-lem flags status conclusion {next} h = elim (Bool-cases (status == "completed")) [
  | inl done ↦
      let ended : (conclude conclusion >>= λ failure. ok (flags.0 || failure, flags.1)) ≡ ok next =
        ground arith in
      let (failure, e, same) = >>=-eq-ok (conclude conclusion) _ ended in
      ground (arith, conclude-lem conclusion e)
  | inr other ↦ ground arith
]

mapping-eq : (v : Value) {fields : Fields} → mapping v ≡ ok fields → v ≡ obj fields
unfolding mapping
mapping-eq (obj fields) h = cc
mapping-eq v h = cc

require_sha-eq : (v : Value) {sha : String} → require_sha v ≡ ok sha → v ≡ str sha
unfolding require_sha
require_sha-eq (str s) h = ground arith
require_sha-eq v h = cc

check_run-lem :
    (sha : String) (flags : Bool × Bool) (run : Value) {next : Bool × Bool}
    → check_run sha flags run ≡ ok next
    → is_clear next ≡ (is_clear flags && is_passed sha run)
unfolding check_run get
check_run-lem sha flags run h =
    let (fields, e₁, h₁) = >>=-eq-ok (mapping run) _ h in
    let (found, e₂, h₂) = >>=-eq-ok (require_sha (get "head_sha" fields)) _ h₁ in
    let (_, e₃, h₃) = >>=-eq-ok (require (found == sha) invalid_response) _ h₂ in
    let (status, e₄, h₄) =
      >>=-eq-ok (member_of invalid_response check_statuses (get "status" fields)) _ h₃ in
    ground (
      arith,
      mapping-eq run e₁,
      require_sha-eq (get "head_sha" fields) e₂,
      str_eq_iff found sha,
      str_eq_iff sha found,
      e₃,
      note_run-lem flags status (get "conclusion" fields) h₄,
      member_of-eq invalid_response check_statuses (get "status" fields) e₄,
    )

check_runs-lem :
    (sha : String) (flags : Bool × Bool) (runs : List Value) {last : Bool × Bool}
    → check_runs sha flags runs ≡ ok last
    → is_clear last ≡ (is_clear flags && every (is_passed sha) runs)
unfolding check_runs
check_runs-lem sha flags [] h = ground arith
check_runs-lem sha flags (run ∷ runs) h =
    let (next, e, h₁) = >>=-eq-ok (check_run sha flags run) _ h in
    ground (arith, check_run-lem sha flags run e, check_runs-lem sha next runs h₁)

-- What the summary of the check runs says of GitHub's answer.
record ReadChecks (sha : String) (payload : Fields) (c : CheckSummary) : Type 0 where
  total : c.total ≡ count_of (get "total_count" payload)
  complete : c.complete ≡ (length (values (get "check_runs" payload)) == c.total)
  clear :
      not (c.has_failure || c.has_pending)
      ≡ every (is_passed sha) (values (get "check_runs" payload))

list_of-eq : (v : Value) {vs : List Value} → list_of v ≡ ok vs → vs ≡ values v
unfolding list_of
list_of-eq (list vs) h = cc
list_of-eq v h = cc

require_count-eq : (v : Value) {n : ℕ} → require_count v ≡ ok n → n ≡ count_of v
unfolding require_count nonnegative
require_count-eq (int (pos n)) h = cc
require_count-eq v h = cc

parse_checks-lem :
    (sha : String) (payload : Fields) {c : CheckSummary}
    → parse_checks sha payload ≡ ok c
    → ReadChecks sha payload c
unfolding parse_checks
parse_checks-lem sha payload {c} h =
    let (total, e₁, h₁) = >>=-eq-ok (require_count (get "total_count" payload)) _ h in
    let (runs, e₂, h₂) = >>=-eq-ok (list_of (get "check_runs" payload)) _ h₁ in
    let (_, e₃, h₃) =
      >>=-eq-ok (require (leb (length runs) total && leb (length runs) 100) invalid_response) _
        h₂ in
    let (flags, e₄, h₄) = >>=-eq-ok (check_runs sha (false, false) runs) _ h₃ in
    let made = ok-injective h₄ in
    let same = list_of-eq (get "check_runs" payload) e₂ in
    subst (ReadChecks sha payload) made (record {
      total = require_count-eq (get "total_count" payload) e₁;
      complete = ap (λ vs. length vs == total) same;
      clear = check_runs-lem sha (false, false) runs e₄ ∙ ap (λ vs. every (is_passed sha) vs) same;
    })

-- What the summary of the statuses says of GitHub's answer.
record ReadStatuses (sha : String) (payload : Fields) (s : StatusSummary) : Type 0 where
  of_commit : is_text sha (get "sha" payload) ≡ true
  total : s.total ≡ count_of (get "total_count" payload)
  complete : s.complete ≡ (length (values (get "statuses" payload)) == s.total)
  state : get "state" payload ≡ str s.state
  known : contains combined_status_states s.state ≡ true

parse_statuses-lem :
    (sha : String) (payload : Fields) {s : StatusSummary}
    → parse_statuses sha payload ≡ ok s
    → ReadStatuses sha payload s
unfolding parse_statuses
parse_statuses-lem sha payload {s} h =
    let (found, e₁, h₁) = >>=-eq-ok (require_sha (get "sha" payload)) _ h in
    let (_, e₂, h₂) = >>=-eq-ok (require (found == sha) invalid_response) _ h₁ in
    let (state, e₃, h₃) =
      >>=-eq-ok (member_of invalid_response combined_status_states (get "state" payload)) _ h₂ in
    let (total, e₄, h₄) = >>=-eq-ok (require_count (get "total_count" payload)) _ h₃ in
    let (statuses, e₅, h₅) = >>=-eq-ok (list_of (get "statuses" payload)) _ h₄ in
    let (_, _, h₆) =
      >>=-eq-ok
        (require (leb (length statuses) total && leb (length statuses) 100) invalid_response) _
        h₅ in
    let known = member_of-eq invalid_response combined_status_states (get "state" payload) e₃ in
    subst (ReadStatuses sha payload) (ok-injective h₆) (record {
      total = require_count-eq (get "total_count" payload) e₄;
      complete = ap (λ vs. length vs == total) (list_of-eq (get "statuses" payload) e₅);
      of_commit = ground (arith, require_sha-eq (get "sha" payload) e₁, e₂);
      state = known.0;
      known = known.1;
    })

-- What holds of each text of a list holds of a text that the list contains.
contains-elim :
    (P : String → Type 0) (texts : List String) (s : String)
    → All P texts
    → contains texts s ≡ true
    → P s
contains-elim P [] s each h = cc
contains-elim P (text ∷ texts) s each h = elim (Bool-cases (s == text)) [
  | inl same ↦ subst P (sym (eq_true s text same)) each.0
  | inr other ↦ contains-elim P texts s each.1 (ground arith)
]

-- The last case of `classify`.
unfoldable IsLast : CheckSummary → StatusSummary → String → Type 0
IsLast c s state = (classify c (record s { state = state }) == "success") ≡ (
    not (c.has_failure || c.has_pending)
    && c.complete
    && state == "success"
    && s.complete
    && not (c.total + s.total == 0))

abbrev ci_of : Bool → Bool → Bool → Bool → String
ci_of failed partial unsignalled unfinished =
    if failed
    then "failure"
    else if partial
    then "partial"
    else if unsignalled
    then "no_signals"
    else if unfinished
    then "pending"
    else "success"

last_case :
    (failed partial unsignalled unfinished : Bool)
    → (ci_of failed partial unsignalled unfinished == "success")
      ≡ (not failed && not partial && not unsignalled && not unfinished)
last_case true partial unsignalled unfinished = refl
last_case false true unsignalled unfinished = refl
last_case false false true unfinished = refl
last_case false false false true = refl
last_case false false false false = refl

classify-success :
    (c : CheckSummary) (s : StatusSummary)
    → contains combined_status_states s.state ≡ true
    → IsLast c s s.state
unfolding classify IsLast
classify-success c s known =
    contains-elim (IsLast c s) combined_status_states s.state
      (
        last_case _ _ _ _ ∙ ground arith,
        (
          last_case _ _ _ _ ∙ ground arith,
          (last_case _ _ _ _ ∙ ground arith, (last_case _ _ _ _ ∙ ground arith, tt)),
        ),
      )
      known

classify-is_green :
    (sha : String) (raw_checks raw_statuses : Fields) {c : CheckSummary} {s : StatusSummary}
    → ReadChecks sha raw_checks c
    → ReadStatuses sha raw_statuses s
    → (classify c s ≡ "success") ↔ (is_green sha raw_checks raw_statuses ≡ true)
unfolding is_green IsLast
classify-is_green sha raw_checks raw_statuses {c} {s} checks statuses = ground (
  arith,
  classify-success c s statuses.known,
  str_eq_iff (classify c s) "success",
  checks.total,
  checks.complete,
  checks.clear,
  statuses.of_commit,
  statuses.total,
  statuses.complete,
  statuses.state,
)

-- GitHub's two answers about a commit, as `inspect` reads them.
pub record Answers (p : Primitives) (request : Transport) (reference : GithubPullRequestRef)
    (sha : String) : Type 0 where
  pub checks : Fields
  pub statuses : Fields
  pub checks_answer : request_object p request (checks_path reference sha) ≡ ok checks
  pub statuses_answer : request_object p request (statuses_path reference sha) ≡ ok statuses

-- The evidence that `inspect` returns says that CI succeeded exactly if, in GitHub's answers about
-- its head commit, every check run names that commit and is completed without a failure, the
-- combined state is of that commit and a success, no check run and no status is left out, and there
-- is one of them at least.
pub inspect-success :
    (p : Primitives) (request : Transport) (reference : GithubPullRequestRef)
    {e : PullRequestEvidence}
    → inspect p request reference ≡ ok e
    → (a : Answers p request reference e.head_sha) × ((e.ci ≡ "success")
        ↔ (is_green e.head_sha a.checks a.statuses ≡ true))
unfolding inspect evidence_of
inspect-success p request reference {e} h =
    let (pull, _, h₁) = >>=-eq-ok (request_object p request (pull_path reference)) _ h in
    let (details, _, h₂) = >>=-eq-ok (parse_pull p reference pull) _ h₁ in
    let (raw_checks, e₃, h₃) =
      >>=-eq-ok (request_object p request (checks_path reference details.head_sha)) _ h₂ in
    let (checks, e₄, h₄) = >>=-eq-ok (parse_checks details.head_sha raw_checks) _ h₃ in
    let (raw_statuses, e₅, h₅) =
      >>=-eq-ok (request_object p request (statuses_path reference details.head_sha)) _ h₄ in
    let (statuses, e₆, h₆) = >>=-eq-ok (parse_statuses details.head_sha raw_statuses) _ h₅ in
    subst
      (λ made.
        (a : Answers p request reference made.head_sha) × ((made.ci ≡ "success")
          ↔ (is_green made.head_sha a.checks a.statuses ≡ true)))
      (ok-injective h₆)
      (
        record {
          checks = raw_checks;
          statuses = raw_statuses;
          checks_answer = e₃;
          statuses_answer = e₅;
        },
        classify-is_green details.head_sha raw_checks raw_statuses
            (parse_checks-lem details.head_sha raw_checks e₄)
            (parse_statuses-lem details.head_sha raw_statuses e₆),
      )
