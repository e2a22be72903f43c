-- ===== src/Capabilities/Limiter.antt =====
-- `CapabilityPolicyFile.load` and `CapabilityRateLimiter` of capabilities.py.
use technocore_safe_agent.Base.{
  ℕ, String, Bool, true, false, ◌&&◌, Option, none, some, leb, if◌then◌else◌, Error, Result, ok,
  err, capability_error, protocol_value_error, os_error,
}
use technocore_safe_agent.Json.{Value}
use technocore_safe_agent.Crypto.{validate_did}
use technocore_safe_agent.Crypto.Library.{Primitives}
use technocore_safe_agent.State.{capability_request_count, reserve_capability_request}
use technocore_safe_agent.State.Store.{save}
use technocore_safe_agent.World.{File, Reading, seconds, invalid, next_or, others}
use technocore_safe_agent.Exec.{
  Exec, Done, pure, raise, lift, gets, modify, try_except, os_error_as, os_call, put_state, when,
  require, ◌>>=◌, ◌>>◌,
}
use technocore_safe_agent.Capabilities.{CapabilityPolicy, parse_policy}

unfoldable pub take_policy_file : Exec (Option File)
unfolding ◌>>=◌
take_policy_file = do
  file ← gets (λ w. next_or none w.policy_files)
  modify (λ w. record w { policy_files = others w.policy_files })
  pure file

abbrev pub decoded_content : Option Value → Result Value
decoded_content none = err capability_error
decoded_content (some payload) = ok payload

-- The checks of the open file. `size` above 64 KiB is what `_read_bounded` refuses; a `content` of
-- none is what `_decode_json` refuses, a duplicate key included.
unfoldable pub read_policy : Option File → Exec Value
unfolding os_call
read_policy none = raise os_error
read_policy (some file) = do
  -- open, fstat
  os_call
  os_call
  require file.is_regular capability_error
  require file.is_private capability_error
  require file.is_owned capability_error
  -- read
  os_call
  require (leb file.size 65_536) capability_error
  lift (decoded_content file.content)

unfoldable pub load : Primitives → Exec CapabilityPolicy
unfolding take_policy_file read_policy
load p = do
  file ← take_policy_file
  payload ← try_except (read_policy file) (λ error. raise (os_error_as capability_error error))
  lift (parse_policy p payload)

unfoldable pub take_reading : Exec Reading
unfolding ◌>>=◌
take_reading = do
  reading ← gets (λ w. next_or invalid w.clock)
  modify (λ w. record w { clock = others w.clock })
  pure reading

abbrev pub now_of : Reading → Result ℕ
now_of (seconds n) = ok n
now_of invalid = err capability_error

abbrev pub window_seconds : ℕ
window_seconds = 3_600

abbrev pub invalid_principal : Error → Error
invalid_principal protocol_value_error = capability_error
invalid_principal other = other

-- The reservation comes before the side effect, and is saved.
unfoldable pub reserve : String → ℕ → Done
unfolding put_state save
reserve did now = do
  s ← gets (λ w. w.state)
  s' ← lift (reserve_capability_request did now window_seconds s)
  put_state s'
  save

unfoldable pub allow : Bool → String → ℕ → Exec Bool
unfolding take_reading reserve
allow consume did limit = do
  valid_did ← try_except (lift (validate_did did)) (λ error. raise (invalid_principal error))
  require (leb 1 limit && leb limit 1_000) capability_error
  raw_now ← take_reading
  now ← lift (now_of raw_now)
  s ← gets (λ w. w.state)
  count ← lift (capability_request_count s valid_did now window_seconds)
  if leb limit count then pure false else do when consume (reserve valid_did now); pure true
