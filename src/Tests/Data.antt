-- ===== src/Tests/Data.antt =====
-- A key, a room, a client and a world to run the code on. The functions of Python's library are
-- replaced by small ones that do what the code asks of them.
use technocore_safe_agent.Cli.{PollOptions, Pause}
use technocore_safe_agent.Base.{
  ℕ, String, Bool, true, false, none, some, List, [], ◌∷◌, ◌==◌, nat_eq,
}
use technocore_safe_agent.Crypto.Chars.{codes}
use technocore_safe_agent.Crypto.Library.{Primitives, PrivateKey}
use technocore_safe_agent.Json.{Fields, str, list, obj, nil, cons, end, field, nat}
use technocore_safe_agent.World.{World, File, Envelope}
use technocore_safe_agent.Protocol.{RoomMessage, RoomSnapshot}
use technocore_safe_agent.Protocol.Request.{TechnocoreClient}
use technocore_safe_agent.Delivery.{DeliveryRecord, pending}
use technocore_safe_agent.Policy.{CommandPolicy, reply}
use technocore_safe_agent.Agent.{Responder, Event, sent}

abbrev pub zeroes64 : String
zeroes64 = "0000000000000000000000000000000000000000000000000000000000000000"

abbrev pub signature86 : String
signature86 =
    "AAAAAAAAAAAAAAAAAAAAAAAAAAAAAAAAAAAAAAAAAAAAAAAAAAAAAAAAAAAAAAAAAAAAAAAAAAAAAAAAAAAAAA"

abbrev pub library : Primitives
library = record {
  utf8 = codes;
  sha256 = λ bs. zeroes64;
  category = λ c. "Ll";
  is_space = λ c. c == 32;
  casefold = λ s. s;
  quote = λ s. s;
  urlsplit = λ s. none;
  is_timestamp = λ s. true;
  canonical_json = λ v. [];
  decode_json = λ bs. none;
  loads_text = λ s. none;
  loads_bytes = λ bs. none;
  dumps = λ v. "";
  fromisoformat = λ s. some 0;
  urlsafe_b64encode = λ bs. signature86;
  urlsafe_b64decode = λ s. some [];
  ed25519_verify = λ key signature payload. true;
}

abbrev pub key : PrivateKey
key = record {
  public_bytes =
      0 ∷ 0 ∷ 0 ∷ 0 ∷ 0 ∷ 0 ∷ 0 ∷ 0 ∷ 0 ∷ 0 ∷ 0 ∷ 0 ∷ 0 ∷ 0 ∷ 0 ∷ 0 ∷ 0 ∷ 0 ∷ 0 ∷ 0 ∷ 0 ∷ 0 ∷ 0 ∷ 0
      ∷ 0 ∷ 0 ∷ 0 ∷ 0 ∷ 0 ∷ 0 ∷ 0 ∷ 0 ∷ [];
  sign = λ bs. [];
}

abbrev pub own_did : String
own_did = "did:key:z6MkeTG3bFFSLYVU7VqhgZxqr6YzpaGrQtFMh1uvqGy1vDnP"

abbrev pub peer_did : String
peer_did = "did:key:z6MkeTG3bFFSLYVU7VqhgZxqr6YzpaGrQtFMh1uvqGy1vDnQ"

abbrev pub client : TechnocoreClient
client = record { base_url = "https://technocore.example"; timeout = 30_000 }

-- Any signed peer may give a command.
abbrev pub policy : CommandPolicy
policy = record {
  own_did = own_did;
  allowed_dids = [];
  allow_any_signed = true;
  has_capabilities = false;
  limiter = none;
}

abbrev pub responder_with : Bool → Responder
responder_with send = record {
  room = "lobby";
  did = own_did;
  key = key;
  client = client;
  policy = policy;
  has_receipt_service = true;
  has_journal = true;
  has_audit_log = false;
  send = send;
}

abbrev pub responder : Responder
responder = responder_with true

abbrev pub message : ℕ → String → RoomMessage
message seq text = record { seq = seq; sender = peer_did; text = text; nonce = some "7" }

abbrev pub ping : RoomMessage
ping = message 3 "/ping"

abbrev pub snapshot : RoomSnapshot
snapshot = record {
  room = "lobby";
  generation = 1;
  first_seq = 2;
  last_seq = 3;
  messages = message 2 "hello" ∷ ping ∷ [];
}

-- Signed before, under the stored nonce 5.
abbrev pub earlier : Envelope
earlier = record {
  room = "lobby";
  did = own_did;
  signature = signature86;
  nonce = "5";
  text = "pong";
}

abbrev pub world : World
world = record {
  state = record {
    cursors = ("lobby", 1) ∷ [];
    nonces = ("lobby", 5) ∷ [];
    generations = [];
    capability_requests = [];
  };
  state_file = none;
  journal_file = none;
  audit_file = none;
  wire = earlier ∷ [];
  faults = [];
  replies = [];
  clock_ns = 9 ∷ [];
  clock = [];
  datetimes = [];
  policy_files = [];
  issues = [];
  writes = [];
}

-- A journal that a process left whose acknowledgement it never saw.
abbrev pub left_over : File
left_over = record {
  is_regular = true;
  is_private = false;
  is_owned = true;
  size = 0;
  is_utf8 = true;
  content = none;
}

abbrev pub event : Event
event = record {
  kind = sent;
  decision = reply;
  reason = "allowed_command";
  seq = 3;
  sender = peer_did;
  reply_seq = some 4;
  receipt_sha256 = none;
}

-- What `create` makes of the reply to the ping, and what acknowledging it adds.
abbrev pub created : DeliveryRecord
created = record {
  status = pending;
  room_sha256 = zeroes64;
  input_sequence = 3;
  did = own_did;
  nonce = 9;
  text = "pong";
  text_sha256 = zeroes64;
  signature = signature86;
  reply_sequence = none;
}

-- A URL that `urlsplit` refuses with a ValueError.
abbrev pub malformed : RoomMessage
malformed = message 3 "/pr https://[x"

abbrev pub payload : Fields
payload = field "room" (str "lobby") (
    field "first_seq" (nat 3) (
      field "last_seq" (nat 4) (
        field "messages"
          (list (
            cons
              (obj
                (field "seq" (nat 3) (field "from" (str "guest") (field "text" (str "hello") end))))
              (cons
                (obj
                  (field "seq" (nat 4) (field "from" (str "guest") (field "text" (str "bye") end))))
                nil)))
          end)))

abbrev pub accepted : RoomSnapshot
accepted = record {
  room = "lobby";
  generation = 0;
  first_seq = 3;
  last_seq = 4;
  messages =
      record { seq = 3; sender = "guest"; text = "hello"; nonce = none }
      ∷ record { seq = 4; sender = "guest"; text = "bye"; nonce = none }
      ∷ [];
}

abbrev pub options : PollOptions
options = record { once = false; wait = 10; limit = 50 }

-- Two pauses: a backoff without `retry_after`, and a server that asks for a hundred seconds.
abbrev pub pauses : List Pause
pauses =
    record { retry_after = none; started = 0; readings = 200 ∷ 2_000 ∷ [] }
    ∷ record { retry_after = some 100_000; started = 3_000; readings = 3_000 ∷ 120_000 ∷ [] }
    ∷ []
