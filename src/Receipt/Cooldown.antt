-- ===== src/Receipt/Cooldown.antt =====
-- How often the receipt service asks GitHub.
use mathlib.Core.Path.{subst}
use technocore_safe_agent.Base.{
  ℕ, ◌+◌, ◌≤◌, Bool, true, false, ◌&&◌, not, Option, some, List, [], ◌∷◌, Result, ok, err, ◌≡◌,
  refl, ap, ◌∙◌, ◌++◌, arith, inl, inr, Bool-cases,
}
use technocore_safe_agent.Crypto.Library.{Primitives}
use technocore_safe_agent.Github.Url.{GithubPullRequestRef, parse_github_pull_request_url}
use technocore_safe_agent.Receipt.Client.{Transport}
use technocore_safe_agent.Receipt.Service.{ReceiptService, Call, is_cooling, issue_for, issue}

module _ (p : Primitives) (service : ReceiptService) where
  -- `_last_attempt_at` after a sequence of calls
  unfoldable pub last_attempt : Option ℕ → List Call → Option ℕ
  last_attempt last [] = last
  last_attempt last (call ∷ calls) = last_attempt (issue p service last call).1 calls

  abbrev is_ok {ℓ} : {A : Type ℓ} → Result A → Bool
  is_ok (ok a) = true
  is_ok (err e) = false

  -- A call that goes on to the client: its URL is in order and no cooldown is active.
  unfoldable is_attempt : Option ℕ → Call → Bool
  is_attempt last call =
      is_ok (parse_github_pull_request_url p call.url)
      && not (is_cooling service.min_interval last call.now)

  -- Any other call leaves the time as it was and gives the same result whatever GitHub would answer.
  pub issue_for-refused :
      (last : Option ℕ) (call : Call) (transport : Transport) (parsed : Result GithubPullRequestRef)
      → (is_ok parsed && not (is_cooling service.min_interval last call.now)) ≡ false
      → ((issue_for p service last call parsed).1 ≡ last)
        × (issue_for p service last (record call { transport = transport }) parsed
            ≡ issue_for p service last call parsed)
  unfolding issue_for
  issue_for-refused last call transport (err e) h = (refl, refl)
  issue_for-refused last call transport (ok reference) h =
      let cooling : is_cooling service.min_interval last call.now ≡ true = ground arith in
      simp (cooling) (refl, refl)

  pub issue_for-attempt :
      (last : Option ℕ) (call : Call) (parsed : Result GithubPullRequestRef)
      → (is_ok parsed && not (is_cooling service.min_interval last call.now)) ≡ true
      → (issue_for p service last call parsed).1 ≡ some (call.now)
  unfolding issue_for
  issue_for-attempt last call (err e) h = ground arith
  issue_for-attempt last call (ok reference) h =
      let over : is_cooling service.min_interval last call.now ≡ false = ground arith in
      simp (over) refl

  is_cooling-false :
      (interval last now : ℕ) → is_cooling interval (some last) now ≡ false → last + interval ≤ now
  unfolding is_cooling
  is_cooling-false interval last now h = ground arith

  issue-refused :
      (last : Option ℕ) (call : Call) (transport : Transport)
      → is_attempt last call ≡ false
      → ((issue p service last call).1 ≡ last)
        × (issue p service last (record call { transport = transport }) ≡ issue p service last call)
  unfolding issue is_attempt
  issue-refused last call transport refused =
      issue_for-refused last call transport (parse_github_pull_request_url p call.url) refused

  issue-attempt :
      (last : Option ℕ) (call : Call)
      → is_attempt last call ≡ true
      → (issue p service last call).1 ≡ some (call.now)
  unfolding issue is_attempt
  issue-attempt last call attempted =
      issue_for-attempt last call (parse_github_pull_request_url p call.url) attempted

  attempt-later :
      (first : ℕ) (call : Call)
      → is_attempt (some first) call ≡ true
      → first + service.min_interval ≤ call.now
  unfolding is_attempt
  attempt-later first call attempted =
      is_cooling-false service.min_interval first call.now (ground arith)

  -- The time of the last attempt never goes back.
  last_attempt-grows :
      (first : ℕ) (calls : List Call)
      → (last : ℕ) × (last_attempt (some first) calls ≡ some last) × (first ≤ last)
  unfolding last_attempt issue
  last_attempt-grows first [] = (first, refl, omega arith)
  last_attempt-grows first (call ∷ calls) = elim (Bool-cases (is_attempt (some first) call)) [
    | inl attempted ↦
        let moved = issue-attempt (some first) call attempted in
        let later = attempt-later first call attempted in
        let (last, ends, bound) = last_attempt-grows call.now calls in
        (last, simp (moved) ends, omega (arith, bound, later))
    | inr refused ↦
        let kept = issue-refused (some first) call call.transport refused in
        let (last, ends, bound) = last_attempt-grows first calls in
        (last, simp (kept.0) ends, bound)
  ]

  -- GitHub is asked: other answers of it would give the caller another result.
  abbrev pub AsksGithub : Option ℕ → Call → Type 0
  AsksGithub last call =
      (transport : Transport) × ¬ (
        (issue p service last (record call { transport = transport })).0
        ≡ (issue p service last call).0)

  AsksGithub-is_attempt :
      (last : Option ℕ) (call : Call) → AsksGithub last call → is_attempt last call ≡ true
  AsksGithub-is_attempt last call (transport, differs) = elim (Bool-cases (is_attempt last call)) [
    | inl attempted ↦ attempted
    | inr refused ↦ absurd (differs (ap (λ r. r.0) ((issue-refused last call transport refused).1)))
  ]

  -- If two calls of a sequence ask GitHub, then the later one is at least the interval after the
  -- earlier one, whatever calls are before and between them.
  pub issue-spaced :
      (last : Option ℕ) (before between : List Call) (earlier later : Call)
      → AsksGithub (last_attempt last before) earlier
      → AsksGithub (last_attempt last (before ++ earlier ∷ between)) later
      → earlier.now + service.min_interval ≤ later.now
  unfolding last_attempt
  issue-spaced last [] between earlier later first second =
      let moved = issue-attempt last earlier (AsksGithub-is_attempt last earlier first) in
      let (latest, ends, bound) = last_attempt-grows earlier.now between in
      let asked : is_attempt (some latest) later ≡ true =
        subst (λ l. is_attempt l later ≡ true) (ap (λ l. last_attempt l between) moved ∙ ends)
          (AsksGithub-is_attempt _ later second) in
      omega (arith, bound, attempt-later latest later asked)
  issue-spaced last (call ∷ before) between earlier later first second =
      issue-spaced (issue p service last call).1 before between earlier later first second
