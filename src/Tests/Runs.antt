-- ===== src/Tests/Runs.antt =====
-- Runs of the code on concrete inputs.
use technocore_safe_agent.Base.{◌==◌, string_eq, ◌≡◌, refl, true, list_eq, ok, some, [], ◌∷◌}
use technocore_safe_agent.Crypto.{
  validate_room, room_pattern, validate_did, did_pattern, validate_nonce, nonce_pattern, sweep_text,
  strip, signature_pattern, sha256_text, verify_detached_signature, public_key_from_did,
  canonical_message,
}
use technocore_safe_agent.Crypto.Chars.{
  is_room_start, is_room_char, strip_prefix, is_base58, rstrip, lstrip, blank_out, is_urlsafe,
  is_hex,
}
use technocore_safe_agent.Crypto.Base58.{decode, decode_loop, index_of, to_bytes, zeroes}
use technocore_safe_agent.Crypto.Decimal.{render, render_int, parse}
use technocore_safe_agent.Base.Dict.{lookup, insert}
use technocore_safe_agent.State.{next_nonce}
use technocore_safe_agent.Delivery.{
  acknowledged, create, acknowledge, sha256_pattern, positive_int, nonce_as_int, exact_swept_text,
  signature_of, verify_for_room,
}
use technocore_safe_agent.Json.{get, has, nonnegative, positive}
use technocore_safe_agent.Protocol.{is_signed, parse_snapshot, parse_messages, parse_message}
use technocore_safe_agent.Policy.{command_name, replies, raw_url}
use technocore_safe_agent.Recovery.{is_complete_history}
use technocore_safe_agent.Tests.Data.{
  malformed, payload, accepted, library, snapshot, world, created, own_did, signature86, zeroes64,
}

pub render_five : "5" ≡ render 5
unfolding render
render_five = refl

pub snapshot_complete : is_complete_history snapshot 1 ≡ true
unfolding is_complete_history list_eq
snapshot_complete = refl

pub digest_hex : sha256_pattern zeroes64 ≡ true
unfolding sha256_pattern is_hex
digest_hex = refl

pub create_run : create library "lobby" 3 own_did 9 "pong" signature86 ≡ ok created
unfolding create validate_room room_pattern is_room_start is_room_char positive_int validate_did
    did_pattern strip_prefix is_base58 nonce_as_int validate_nonce nonce_pattern render_int render
    exact_swept_text sweep_text strip rstrip lstrip blank_out signature_of signature_pattern
    is_urlsafe verify_for_room sha256_text verify_detached_signature public_key_from_did decode
    decode_loop index_of to_bytes zeroes canonical_message parse
create_run = refl

pub acknowledge_run :
    acknowledge 4 created ≡ ok (record created { status = acknowledged; reply_sequence = some 4 })
unfolding acknowledge positive_int
acknowledge_run = refl

pub next_nonce_run :
    next_nonce "lobby" 9 world.state ≡ ok (9, record world.state { nonces = ("lobby", 9) ∷ [] })
unfolding next_nonce lookup insert
next_nonce_run = refl

pub malformed_signed : is_signed malformed ≡ true
unfolding is_signed validate_did did_pattern strip_prefix is_base58
malformed_signed = refl

pub malformed_command : command_name malformed.text ≡ some "/pr"
unfolding command_name replies strip_prefix
malformed_command = refl

pub malformed_stripped : (raw_url malformed.text == strip library (raw_url malformed.text)) ≡ true
unfolding strip rstrip lstrip strip_prefix
malformed_stripped = refl

pub snapshot_run : parse_snapshot payload "lobby" ≡ ok accepted
unfolding parse_snapshot parse_messages parse_message get has nonnegative positive
snapshot_run = refl
