-- ===== src/Protocol.antt =====
-- The data and the parsers of protocol.py: messages and snapshots of a room.
pub mod Request
pub mod Client
pub mod BaseUrl
pub mod Ordered
use technocore_safe_agent.Base.{
  ℕ, String, Bool, true, false, ◌&&◌, ◌||◌, not, Option, none, some, List, [], ◌∷◌, ◌==◌, nat_eq,
  string_eq, leb, ltb, map, last, is_strictly_sorted, if◌then◌else◌, Result, ok, err,
  response_error, protocol_value_as, ◌>>=◌, ◌>>◌, require,
}
use technocore_safe_agent.Json.{
  Value, Items, Fields, null, str, list, obj, nil, cons, get, has, nat, nonnegative, positive,
}
use technocore_safe_agent.Crypto.{validate_did, validate_nonce}

pub record RoomMessage : Type 0 where
  pub seq : ℕ
  pub sender : String
  pub text : String
  pub nonce : Option String

abbrev pub succeeds {ℓ} : {A : Type ℓ} → Result A → Bool
succeeds (ok _) = true
succeeds (err _) = false

-- The property `is_signed`.
unfoldable pub is_signed : RoomMessage → Bool
is_signed m = elim m.nonce [ none ↦ false | some _ ↦ succeeds (validate_did m.sender) ]

pub record RoomSnapshot : Type 0 where
  pub room : String
  pub first_seq : ℕ
  pub last_seq : ℕ
  pub messages : List RoomMessage
  pub generation : ℕ

abbrev pub or_response_error {ℓ} : {A : Type ℓ} → Option A → Result A
or_response_error none = err response_error
or_response_error (some a) = ok a

abbrev pub text_of : Value → Option String
text_of (str s) = some s
text_of _ = none

abbrev pub nonce_of : Value → Result (Option String)
nonce_of null = ok none
nonce_of nonce = do
  rendered ← protocol_value_as response_error (validate_nonce nonce)
  ok (some rendered)

unfoldable pub parse_message : Value → Result RoomMessage
unfolding positive get
parse_message (obj item) = do
  seq ← or_response_error (positive (get "seq" item))
  sender ← or_response_error (text_of (get "from" item))
  text ← or_response_error (text_of (get "text" item))
  nonce ← nonce_of (get "nonce" item)
  ok (record { seq = seq; sender = sender; text = text; nonce = nonce })
parse_message _ = err response_error

unfoldable pub parse_messages : Items → Result (List RoomMessage)
parse_messages nil = ok []
parse_messages (cons item rest) = do
  message ← parse_message item
  messages ← parse_messages rest
  ok (message ∷ messages)

abbrev pub items_of : Value → Option Items
items_of (list xs) = some xs
items_of _ = none

abbrev pub no_items : Items → Bool
no_items nil = true
no_items (cons _ _) = false

-- payload.get("first_seq", 0 if not raw_messages else 1), where an explicit null counts as 0 if
-- there are no messages
abbrev pub first_seq_value : Fields → Bool → Value
first_seq_value payload no_messages =
    if has payload "first_seq"
    then elim (get "first_seq" payload) [
      | null ↦ if no_messages then nat 0 else null
      | other ↦ other
    ]
    else if no_messages
    then nat 0
    else nat 1

abbrev pub sequences : List RoomMessage → List ℕ
sequences [] = []
sequences (m ∷ ms) = m.seq ∷ sequences ms

-- Each sequence stands in the advertised range: the last is not above `last_seq`, the first is not
-- below `first_seq`.
abbrev pub in_range : ℕ → ℕ → List ℕ → Bool
in_range first_seq last_seq [] = true
in_range first_seq last_seq (s ∷ ss) =
    elim (last (s ∷ ss)) [ none ↦ true | some t ↦ leb t last_seq ] && leb first_seq s

abbrev pub same_room : Value → String → Bool
same_room (str room) expected = room == expected
same_room _ expected = false

-- Sequences that are sorted and have no duplicate are strictly sorted.
unfoldable pub parse_snapshot : Fields → String → Result RoomSnapshot
unfolding get has nonnegative
parse_snapshot payload expected_room = do
  require (same_room (get "room" payload) expected_room) response_error
  last_seq ← or_response_error (nonnegative (get "last_seq" payload))
  raw_messages ← or_response_error (items_of (get "messages" payload))
  first_seq ← or_response_error (nonnegative (first_seq_value payload (no_items raw_messages)))
  generation ←
      or_response_error
        (nonnegative (if has payload "generation" then get "generation" payload else nat 0))
  messages ← parse_messages raw_messages
  require (is_strictly_sorted (sequences messages)) response_error
  require (in_range first_seq last_seq (sequences messages)) response_error
  ok (record {
    room = expected_room;
    first_seq = first_seq;
    last_seq = last_seq;
    messages = messages;
    generation = generation;
  })
