-- ===== src/Protocol/BaseUrl.antt =====
-- `validate_base_url` of protocol.py.
use technocore_safe_agent.Base.{
  String, Bool, true, false, ◌&&◌, ◌||◌, not, Option, none, some, ◌==◌, nat_eq, string_eq, Result,
  ok, err, protocol_value_error, require, ◌>>=◌, ◌>>◌,
}
use technocore_safe_agent.Json.{Value, str}
use technocore_safe_agent.Crypto.{strip}
use technocore_safe_agent.Crypto.Chars.{rstrip}
use technocore_safe_agent.Crypto.Library.{Primitives, UrlParts}
use technocore_safe_agent.Github.Url.{parts_of}
use technocore_safe_agent.Protocol.Request.{TechnocoreClient}
use technocore_safe_agent.Base.{ℕ, leb}

-- not value, for an optional text
abbrev pub is_blank : Option String → Bool
is_blank none = true
is_blank (some s) = s == ""

abbrev pub is_loopback : Option String → Bool
is_loopback none = false
is_loopback (some host) = host == "127.0.0.1" || host == "localhost" || host == "::1"

unfoldable pub is_base_url : UrlParts → Bool
is_base_url parts =
    (parts.scheme == "https" || parts.scheme == "http" && is_loopback parts.hostname)
    && not (parts.netloc == "")
    && is_blank parts.username
    && is_blank parts.password
    && parts.query == ""
    && parts.fragment == ""

-- `urlsplit` stands in no try block.
unfoldable pub validate_base_url : Primitives → Value → Result String
unfolding is_base_url
validate_base_url p (str base_url) = do
  require (base_url == strip p base_url) protocol_value_error
  parts ← parts_of (p.urlsplit base_url)
  require (is_base_url parts) protocol_value_error
  ok (rstrip (λ c. c == b'/') base_url)
validate_base_url p _ = err protocol_value_error

-- `TechnocoreClient.__post_init__`; the timeout is in milliseconds.
unfoldable pub technocore_client : Primitives → String → ℕ → Result TechnocoreClient
unfolding validate_base_url
technocore_client p base_url timeout = do
  selected ← validate_base_url p (str base_url)
  require (leb 100 timeout && leb timeout 120_000) protocol_value_error
  ok (record { base_url = selected; timeout = timeout })
