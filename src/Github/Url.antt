-- ===== src/Github/Url.antt =====
-- `parse_github_pull_request_url` of receipt.py.
use Prim.Native.Char.{code}
use Prim.Native.String.{◌++◌ as ◌<>◌}
use technocore_safe_agent.Base.{
  ℕ, String, Bool, false, ◌&&◌, not, Option, none, some, List, [], ◌∷◌, ◌==◌, nat_eq, string_eq,
  leb, ltb, length, every, if◌then◌else◌, Error, Result, ok, err, value_error, github_receipt_error,
  require, ◌>>=◌, ◌>>◌,
}
use technocore_safe_agent.Crypto.{strip}
use technocore_safe_agent.Crypto.Chars.{codes, is_digit}
use technocore_safe_agent.Crypto.Decimal.{render, parse}
use technocore_safe_agent.Crypto.Library.{Primitives, UrlParts}
use technocore_safe_agent.Github.{owner_pattern, valid_repository}

pub record GithubPullRequestRef : Type 0 where
  pub owner : String
  pub repository : String
  pub number : ℕ

unfoldable pub full_name : GithubPullRequestRef → String
full_name r = r.owner <> ("/" <> r.repository)

unfoldable pub url : GithubPullRequestRef → String
unfolding full_name
url r = "https://github.com/" <> (full_name r <> ("/pull/" <> render r.number))

abbrev onto_first : String → List String → List String
onto_first c [] = c ∷ []
onto_first c (s ∷ ss) = (c <> s) ∷ ss

-- text.split("/")
unfoldable pub split_slash : String → List String
split_slash String.[] = "" ∷ []
split_slash (String.◌∷◌ c s) =
    let rest = split_slash s in
    if code c == b'/' then "" ∷ rest else onto_first (String.◌∷◌ c "") rest

-- [1-9][0-9]*
abbrev pub number_codes : List ℕ → Bool
number_codes [] = false
number_codes (c ∷ cs) = leb b'1' c && leb c b'9' && every is_digit cs

unfoldable pub number_pattern : String → Bool
number_pattern s = number_codes (codes s)

abbrev pub invalid_url : Error
invalid_url = github_receipt_error "invalid_pull_request_url"

-- The groups of re.fullmatch(r"/([^/]+)/([^/]+)/pull/([1-9][0-9]*)", path)
abbrev pub groups : List String → Option (String × String × String)
groups (root ∷ owner ∷ repository ∷ pull ∷ number_text ∷ []) =
    if root == ""
      && not (owner == "")
      && not (repository == "")
      && pull == "pull"
      && number_pattern number_text
    then some (owner, repository, number_text)
    else none
groups _ = none

-- int(number_text): Python refuses to convert more than 4300 digits, with a ValueError.
unfoldable pub int_of : String → Result ℕ
int_of s = if ltb 4300 (length (codes s)) then err value_error else ok (parse s)

abbrev pub reference_of : Option (String × String × String) → Result GithubPullRequestRef
reference_of none = err invalid_url
reference_of (some (owner, repository, number_text)) = do
  require (owner_pattern owner && valid_repository repository) invalid_url
  number ← int_of number_text
  require (leb number 2_147_483_647) invalid_url
  ok (record { owner = owner; repository = repository; number = number })

-- `urlsplit` stands in no try block.
abbrev pub parts_of : Option UrlParts → Result UrlParts
parts_of none = err value_error
parts_of (some parts) = ok parts

unfoldable pub parse_github_pull_request_url : Primitives → String → Result GithubPullRequestRef
unfolding split_slash number_pattern int_of
parse_github_pull_request_url p url = do
  require (url == strip p url) invalid_url
  parts ← parts_of (p.urlsplit url)
  require
      (parts.scheme == "https"
        && parts.netloc == "github.com"
        && parts.query == ""
        && parts.fragment == "")
      invalid_url
  reference_of (groups (split_slash parts.path))
