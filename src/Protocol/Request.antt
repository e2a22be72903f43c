-- ===== src/Protocol/Request.antt =====
-- The request and the acknowledgement of `send_signed_message` in protocol.py, apart from the I/O.
use Prim.Native.String.{◌++◌ as ◌<>◌}
use technocore_safe_agent.Base.{
  ℕ, String, Bool, false, ◌&&◌, ◌||◌, some, List, [], ◌∷◌, ◌==◌, nat_eq, string_eq, option_eq, leb,
  length, contains, Result, ok, protocol_value_error, response_error, require, ◌>>=◌, ◌>>◌,
}
use technocore_safe_agent.Json.{Value, Fields, get}
use technocore_safe_agent.Crypto.{validate_did, validate_room, validate_nonce}
use technocore_safe_agent.Crypto.Chars.{codes, is_urlsafe}
use technocore_safe_agent.Crypto.Library.{Primitives}
use technocore_safe_agent.World.{Envelope}
use technocore_safe_agent.Protocol.{
  RoomMessage, RoomSnapshot, parse_message, parse_snapshot, sequences,
}

-- `timeout` and `wait` are in milliseconds.
pub record TechnocoreClient : Type 0 where
  pub base_url : String
  pub timeout : ℕ

-- [A-Za-z0-9_-]{85}[AQgw]
unfoldable pub canonical_signature : List ℕ → Bool
canonical_signature [] = false
canonical_signature (c ∷ []) = c == b'A' || c == b'Q' || c == b'g' || c == b'w'
canonical_signature (c ∷ d ∷ rest) = is_urlsafe c && canonical_signature (d ∷ rest)

abbrev pub matches_request : RoomMessage → RoomSnapshot → Envelope → Bool
matches_request posted snapshot e =
    posted.sender == e.did
    && posted.text == e.text
    && posted.nonce == some e.nonce
    && contains (sequences snapshot.messages) posted.seq

module _ (p : Primitives) (client : TechnocoreClient) where
  open p use {utf8, quote}

  unfoldable pub signed_url : Envelope → String
  signed_url e =
      client.base_url
      <> ("/r/"
          <> (quote e.room
              <> ("/say-signed/"
                  <> (quote e.did
                      <> ("/"
                          <> (quote e.signature
                              <> ("/"
                                  <> (quote e.nonce
                                      <> ("/" <> (quote e.text <> "?format=json"))))))))))

  unfoldable pub envelope_of : String → String → String → Value → String → Result Envelope
  unfolding canonical_signature signed_url
  envelope_of room did signature nonce text = do
    valid_room ← validate_room room
    valid_did ← validate_did did
    valid_nonce ← validate_nonce nonce
    require (length (codes signature) == 86 && canonical_signature (codes signature))
        protocol_value_error
    let e : Envelope = record {
      room = valid_room;
      did = valid_did;
      signature = signature;
      nonce = valid_nonce;
      text = text;
    }
    require (leb (length (utf8 (signed_url e))) 8_000) protocol_value_error
    ok e

unfoldable pub acknowledged : Envelope → Fields → Result RoomMessage
unfolding get
acknowledged e payload = do
  snapshot ← parse_snapshot payload e.room
  posted ← parse_message (get "posted" payload)
  require (matches_request posted snapshot e) response_error
  ok posted
