-- ===== src/Cli/Exit.antt =====
-- The exit codes of `main` in cli.py.
use technocore_safe_agent.Base.{
  ℕ, Option, none, some, Error, Result, ok, err, protocol_value_error, identity_error, state_error,
  delivery_error, capability_error, audit_error, response_error, uncertain_write_error,
  transport_error, github_receipt_error, config_error, work_receipt_error, process_lock_error,
}

-- The exit code after an error that `main` names; none where the error passes.
unfoldable pub exit_code : Error → Option ℕ
exit_code uncertain_write_error = some 3
exit_code audit_error = some 2
exit_code capability_error = some 2
exit_code config_error = some 2
exit_code delivery_error = some 2
exit_code identity_error = some 2
exit_code (github_receipt_error code) = some 2
exit_code protocol_value_error = some 2
exit_code process_lock_error = some 2
exit_code response_error = some 2
exit_code state_error = some 2
exit_code (transport_error status) = some 2
exit_code work_receipt_error = some 2
exit_code _ = none

-- What `main` returns for a handler's outcome.
unfoldable pub main : Result ℕ → Option ℕ
unfolding exit_code
main (ok code) = some code
main (err error) = exit_code error
