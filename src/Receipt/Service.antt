-- ===== src/Receipt/Service.antt =====
-- `ContributionReceiptService` of receipt.py: a receipt for a URL, at most once in an interval.
-- `time.monotonic` is read in whole units; the interval is in the same unit.
use technocore_safe_agent.Base.{
  ℕ, ◌+◌, String, Bool, false, Option, none, some, ltb, if◌then◌else◌, Result, ok, err,
  github_receipt_error, ◌>>=◌,
}
use technocore_safe_agent.Crypto.Library.{Primitives, PrivateKey}
use technocore_safe_agent.Github.Url.{GithubPullRequestRef, parse_github_pull_request_url}
use technocore_safe_agent.Receipt.Client.{Transport, inspect}
use technocore_safe_agent.Receipt.Signed.{build_signed_receipt, render_signed_receipt}

pub record ReceiptService : Type 0 where
  pub issuer_did : String
  pub key : PrivateKey
  pub min_interval : ℕ

-- What one call of `issue` reads from outside.
pub record Call : Type 0 where
  pub url : String
  -- time.monotonic()
  pub now : ℕ
  pub transport : Transport
  -- the formatted text of the clock
  pub observed_at : String

-- elapsed < min_interval_seconds, where elapsed = now - last may be negative
unfoldable pub is_cooling : ℕ → Option ℕ → ℕ → Bool
is_cooling interval none now = false
is_cooling interval (some last) now = ltb now (last + interval)

module _ (p : Primitives) (service : ReceiptService) where
  -- What `issue` does after it has stored the time of the attempt.
  unfoldable pub attempt : Call → GithubPullRequestRef → Result String
  attempt call reference = do
    evidence ← inspect p call.transport reference
    receipt ← build_signed_receipt p evidence service.issuer_did service.key call.observed_at
    render_signed_receipt p receipt

  -- The cooldown test, and the new `_last_attempt_at` beside the result.
  unfoldable pub issue_for :
      Option ℕ → Call → Result GithubPullRequestRef → Result String × Option ℕ
  unfolding is_cooling attempt
  issue_for last call (err e) = (err e, last)
  issue_for last call (ok reference) =
      if is_cooling service.min_interval last call.now
      then (err (github_receipt_error "local_receipt_rate_limited"), last)
      else (attempt call reference, some call.now)

  unfoldable pub issue : Option ℕ → Call → Result String × Option ℕ
  unfolding issue_for
  issue last call = issue_for last call (parse_github_pull_request_url p call.url)
