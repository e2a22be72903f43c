-- ===== src/Tests/Poll.antt =====
-- A room with one `/ping` of an allowed sender, and a `run` that answers it.
use technocore_safe_agent.Base.{ℕ, String, true, false, some, [], ◌∷◌}
use technocore_safe_agent.Json.{Value, Fields, str, list, obj, nil, cons, end, field, nat}
use technocore_safe_agent.World.{World, body}
use technocore_safe_agent.Config.{IdentityRecord}
use technocore_safe_agent.Cli.Target.{RunArgs}
use technocore_safe_agent.Tests.Data.{world, own_did, peer_did, zeroes64}

abbrev message_of : ℕ → String → String → String → Value
message_of seq sender text nonce = obj (
    field "seq" (nat seq)
      (field "from" (str sender) (field "text" (str text) (field "nonce" (str nonce) end))))

abbrev room_of : ℕ → Value → Fields → Fields
room_of seq message rest = field "room" (str "lobby") (
    field "first_seq" (nat seq)
      (field "last_seq" (nat seq) (field "messages" (list (cons message nil)) rest)))

abbrev asked : Value
asked = obj (room_of 3 (message_of 3 peer_did "/ping" "7") end)

abbrev posted : Value
posted = message_of 4 own_did "pong" "9"

abbrev answered : Value
answered = obj (room_of 4 posted (field "posted" posted end))

-- Nothing has been sent; the clock reads 9 nanoseconds.
abbrev pub asked_world : World
asked_world = record world {
  wire = [];
  replies = body asked ∷ body answered ∷ [];
  datetimes = "2026-01-01T12:00:00Z" ∷ [];
}

abbrev pub run_args : RunArgs
run_args = record {
  room = some "lobby";
  base_url = some "https://github.com";
  timeout = 20_000;
  github_timeout = 15_000;
  has_capability_policy = false;
  allow_did = peer_did ∷ [];
  allow_any_signed = false;
  send = true;
  start_at = "zero";
  polling = record { once = true; wait = 10; limit = 50 };
}

abbrev pub identity_record : IdentityRecord
identity_record = record {
  did = own_did;
  fingerprint = zeroes64;
  keychain_service = "technocore";
  keychain_account = "agent";
}
