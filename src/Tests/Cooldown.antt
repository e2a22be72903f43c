-- ===== src/Tests/Cooldown.antt =====
-- Three calls of the receipt service, of which the second comes too early.
use mathlib.Core.Path.{subst}
use technocore_safe_agent.Base.{Result, sym, ap, ◌∙◌, list_eq}
use technocore_safe_agent.Base.{
  ℕ, String, false, Option, none, some, [], ◌∷◌, ok, err, ◌≡◌, refl, github_receipt_error,
}
use technocore_safe_agent.Crypto.Chars.{strip_prefix, lstrip, rstrip}
use technocore_safe_agent.Crypto.{strip}
use technocore_safe_agent.Crypto.Decimal.{render, parse}
use technocore_safe_agent.Github.{
  is_alnum, owner_pattern, repository_pattern, ends_with, valid_repository,
}
use technocore_safe_agent.Github.Url.{
  split_slash, number_pattern, int_of, parse_github_pull_request_url,
}
use technocore_safe_agent.Receipt.Client.{
  Transport, inspect, request_object, is_safe_path, has_double_slash,
}
use technocore_safe_agent.Receipt.Signed.{render_signed_receipt}
use technocore_safe_agent.Receipt.RoundTrip.{rendering, verify_decoded-build}
use technocore_safe_agent.Receipt.Service.{Call, is_cooling, attempt, issue_for, issue}
use technocore_safe_agent.Receipt.Cooldown.{last_attempt, AsksGithub}
use technocore_safe_agent.Tests.Data.{key, own_did}
use technocore_safe_agent.Tests.Receipts.{
  github, reference, evidence, receipt, noon, service, call_at, inspect_run, build_run, signs_for,
}

abbrev failing : Transport
failing path = err (github_receipt_error "github_transport_error")

abbrev failing_at : ℕ → Call
failing_at now = record (call_at now) { transport = failing }

parse_run : parse_github_pull_request_url github "https://github.com/o/r/pull/7" ≡ ok reference
unfolding github split_slash owner_pattern is_alnum valid_repository repository_pattern ends_with
    parse_github_pull_request_url strip rstrip lstrip number_pattern int_of parse strip_prefix
    render list_eq
parse_run = refl

rendering_run : rendering github receipt ≡ ok ""
unfolding github
rendering_run = refl

render_run : render_signed_receipt github receipt ≡ ok ""
render_run =
    (verify_decoded-build github evidence own_did key noon receipt signs_for build_run).1
    ∙ rendering_run

attempt_run : (now : ℕ) → attempt github service (call_at now) reference ≡ ok ""
unfolding attempt
attempt_run now = simp (inspect_run, build_run) render_run

abbrev failed : Result String
failed = err (github_receipt_error "github_transport_error")

failing_run : (now : ℕ) → attempt github service (failing_at now) reference ≡ failed
unfolding attempt inspect request_object is_safe_path has_double_slash strip_prefix render
failing_run now = refl

asks :
    (last : Option ℕ) (now : ℕ)
    → is_cooling 60 last now ≡ false
    → AsksGithub github service last (call_at now)
unfolding issue issue_for
asks last now over = (failing, simp (parse_run, over, attempt_run now, failing_run now) differ)
  where
    differ : ¬ (failed ≡ ok "")
    differ h = cc

pub asks_first : AsksGithub github service none (call_at 5)
unfolding is_cooling
asks_first = asks none 5 refl

first_run : (issue github service none (call_at 5)).1 ≡ some 5
unfolding is_cooling issue issue_for
first_run = simp (parse_run) refl

second_run : (issue github service (some 5) (call_at 30)).1 ≡ some 5
unfolding is_cooling issue issue_for
second_run = simp (parse_run) refl

last_run : last_attempt github service none (call_at 5 ∷ call_at 30 ∷ []) ≡ some 5
unfolding last_attempt
last_run = ap (λ last. (issue github service last (call_at 30)).1) first_run ∙ second_run

pub asks_later :
    AsksGithub github service
      (last_attempt github service none (call_at 5 ∷ call_at 30 ∷ []))
      (call_at 65)
unfolding is_cooling
asks_later =
    subst (λ last. AsksGithub github service last (call_at 65)) (sym last_run)
      (asks (some 5) 65 refl)
