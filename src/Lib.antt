-- ===== src/Lib.antt =====
-- The Technocore safe agent (src/technocore_safe_agent/): a process that reads the messages of one
-- chat room, answers a fixed set of commands of authorised signed senders, and keeps a journal of the
-- reply in progress, from which an operator recovers after a crash.
--
-- The parts and their files, each beside the Python file that it translates:
--   * Crypto, Crypto/{Base58,Chars,Decimal}: crypto.py; identities, rooms, nonces, the sweep of a
--     text and detached signatures. Crypto/Library holds what Python's standard library and
--     `cryptography` supply, as the record `Primitives` that the other modules take.
--   * State, State/{Payload,Store}: state.py; cursors, nonces, generations and quota histories, their
--     JSON and their file.
--   * Protocol, Protocol/{Request,Client}: protocol.py; `_parse_snapshot` is `parse_snapshot`,
--     `send_signed_message` is split into `envelope_of`, `post`, `request_json` and `acknowledged`.
--   * Delivery, Delivery/Journal: delivery.py; the write-ahead record of one envelope and its file.
--   * Github, Github/Url, Receipt, Receipt/{Payload,Signed,Client,Service}: receipt.py; the URL of a pull
--     request, GitHub's answers about it, the signed receipt of them and the service with its cooldown.
--   * WorkReceipt, WorkReceipt/Envelope: work_receipt_verifier.py; WorkReceipt/{Run,Issue}: work_receipt.py.
--   * Config: config.py and identity.py; Config/Health and its Checks and Report: health.py.
--   * Capabilities, Capabilities/Limiter: capabilities.py; grants, their file and the rate limit.
--   * Policy: policy.py; `CommandPolicy.decide` is `decide`.
--   * Audit, Audit/Log: audit.py; the signed chain of records, from bytes, and its `append`.
--   * Agent: agent.py; `process_snapshot` and what it calls, one function for each method, the
--     methods' `try` blocks with a function each.
--   * Recovery: delivery_recovery.py; `recover_delivery` and what it calls.
--   * Cli, Cli/{Target,Run,Recover,Exit}: cli.py; `_run_with_identity` with its checks and its
--     long-poll loop `_poll` over the agent's rounds, `_recover_delivery`, and the exit codes.
-- The agent calls the policy for each message, the client for a reply, with the journal written
-- before and after, then the audit log and the state file, and clears the journal at last.
--
-- World is what a process reads and writes. An `Exec` (Exec.antt) is a function from a world to a
-- result and a world, so what was done before a raise stays done. What the outside answers is a
-- script: a call of the operating system works, raises an OSError or ends the process; an HTTP
-- request returns a body or fails; the clocks and the policy file give any readings. A theorem on
-- every world is one on every script. `wire` records the signed writes handed to `urlopen`. An error is
-- a constructor of `Error` (Base/Outcome); a `crashed` is caught by no handler.
-- Exec/Triple and Exec/Frame are the proof rules; Base holds Python's lists, dicts and tests.
--
-- Bounds. A decimal number has at most as many digits as its value, which is the fuel of `render`; the
-- bytes of a record are the fuel of `write_all`, whose rounds write at least one byte each; the loops of
-- base58 have the number as fuel, which each round divides. Numbers are ℕ where Python checks that they
-- are not negative; sizes of files are in bytes, times in whole seconds or milliseconds.
--
-- Not modelled: the text of error messages; float arguments, which stand as numbers of a fixed unit; the
-- command line's argument parsing and other handlers (cli.py); the control plane (controller.py); the
-- key chain (identity.py) and the process lock; evidence and output reports, the pilot, the MCP
-- server, provisioning and launchd, which the responder does not call. In the agent's own model the issue of a
-- GitHub receipt is a script; Receipt/Service is the code that it stands for.
pub mod Base
pub mod Json
pub mod Crypto
pub mod State
pub mod World
pub mod Exec
pub mod Protocol
pub mod Delivery
pub mod Github
pub mod Config
pub mod Receipt
pub mod WorkReceipt
pub mod Capabilities
pub mod Policy
pub mod Audit
pub mod Agent
pub mod Recovery
pub mod Cli
pub mod Tests
