-- ===== src/Recovery.antt =====
-- delivery_recovery.py: what becomes of a delivery whose acknowledgement is not known.
pub mod Settle
pub mod Reads
pub mod Retry
pub mod Outcome
pub mod History
use technocore_safe_agent.Base.{
  ℕ, ◌+◌, ◌-◌, String, Bool, true, false, ◌&&◌, ◌||◌, not, Option, none, some, List, [], ◌∷◌, ◌==◌,
  nat_eq, string_eq, list_eq, ltb, length, keep_if, range_from, max, if◌then◌else◌, Error,
  delivery_error, state_error, response_error, transport_error, uncertain_write_error,
  assertion_error,
}
use technocore_safe_agent.Json.{nat}
use technocore_safe_agent.Crypto.{validate_did, validate_room}
use technocore_safe_agent.Crypto.Library.{Primitives}
use technocore_safe_agent.State.{cursor_for, advance_cursor, observe_nonce}
use technocore_safe_agent.State.Store.{save}
use technocore_safe_agent.Exec.{
  Exec, Done, pure, raise, lift, gets, try_except, put_state, require, ◌>>=◌, ◌>>◌,
}
use technocore_safe_agent.Protocol.{RoomMessage, RoomSnapshot, sequences}
use technocore_safe_agent.Protocol.Request.{TechnocoreClient}
use technocore_safe_agent.Protocol.Client.{read_room, send_signed_message}
use technocore_safe_agent.Delivery.{
  DeliveryRecord, Status, pending, acknowledged, matches, verify_for_room,
}
use technocore_safe_agent.Delivery.Journal

-- The events that `recover_delivery` returns.
pub data Recovered : Type 0 where
  no_pending_delivery : Recovered
  delivery_acknowledged : Recovered
  -- how many matches were observed
  delivery_history_incomplete : ℕ → Recovered
  -- the sequences of the matches
  duplicate_delivery_records : List ℕ → Recovered
  delivery_found : ℕ → Recovered
  delivery_not_found : Recovered
  -- the reply's sequence; the evidence is the acknowledgement or the room's history
  delivery_recovered : ℕ → Recovered
  delivery_retried : ℕ → Recovered

abbrev pub no_messages : List RoomMessage → Bool
no_messages [] = true
no_messages (_ ∷ _) = false

-- `_is_complete_history`; range(input_sequence + 1, last_seq + 1) has last_seq - input_sequence
-- elements.
unfoldable pub is_complete_history : RoomSnapshot → ℕ → Bool
is_complete_history snapshot input_sequence =
    if snapshot.last_seq == input_sequence && no_messages snapshot.messages
    then true
    else if no_messages snapshot.messages || ltb snapshot.last_seq input_sequence
    then false
    else snapshot.first_seq == input_sequence + 1
      && sequences snapshot.messages
        == range_from (input_sequence + 1) (snapshot.last_seq - input_sequence)

-- except (DeliveryError, StateError)
abbrev pub uncertain_recovery : Error → Error
uncertain_recovery delivery_error = uncertain_write_error
uncertain_recovery state_error = uncertain_write_error
uncertain_recovery other = other

-- except (TransportError, ResponseError)
abbrev pub uncertain_retry : Error → Error
uncertain_retry (transport_error _) = uncertain_write_error
uncertain_retry response_error = uncertain_write_error
uncertain_retry other = other

-- `_persist_recovered_state`
unfoldable pub persist_recovered_state : String → DeliveryRecord → Done
unfolding put_state save
persist_recovered_state room r = do
  s ← gets (λ w. w.state)
  let observed = observe_nonce room r.nonce s
  put_state observed
  moved ← lift (advance_cursor room (max (cursor_for observed room) r.input_sequence) observed)
  put_state moved
  save

module _ (p : Primitives) where
  -- `_finalize_recovery`
  unfoldable pub finalize_recovery : String → DeliveryRecord → ℕ → Done
  unfolding Journal.acknowledge persist_recovered_state Journal.clear
  finalize_recovery room r reply_sequence =
      try_except
        (do
          settled ← Journal.acknowledge p reply_sequence
          persist_recovered_state room r
          Journal.clear)
        (λ error. raise (uncertain_recovery error))

  abbrev pub finalize_acknowledged : String → DeliveryRecord → Option ℕ → Exec Recovered
  finalize_acknowledged room r none = raise assertion_error
  finalize_acknowledged room r (some reply_sequence) = do
    finalize_recovery room r reply_sequence
    pure (delivery_recovered reply_sequence)

  -- `_recover_acknowledged`
  unfoldable pub recover_acknowledged : String → DeliveryRecord → Bool → Exec Recovered
  unfolding finalize_recovery
  recover_acknowledged room r apply =
      if not apply
      then pure delivery_acknowledged
      else finalize_acknowledged room r r.reply_sequence

  -- `_retry_exact_envelope`
  unfoldable pub retry_exact_envelope :
      TechnocoreClient → String → DeliveryRecord → Exec RoomMessage
  unfolding send_signed_message
  retry_exact_envelope client room r =
      try_except (send_signed_message p client room r.did r.signature (nat r.nonce) r.text)
        (λ error. raise (uncertain_retry error))

  unfoldable pub recover_absent : TechnocoreClient → String → DeliveryRecord → Bool → Exec Recovered
  unfolding retry_exact_envelope finalize_recovery
  recover_absent client room r confirmed = if not confirmed then pure delivery_not_found else (do
    posted ← retry_exact_envelope client room r
    finalize_recovery room r posted.seq
    pure (delivery_retried posted.seq))

  unfoldable pub recover_found : String → DeliveryRecord → ℕ → Bool → Exec Recovered
  unfolding finalize_recovery
  recover_found room r reply_sequence apply =
      if not apply
      then pure (delivery_found reply_sequence)
      else (do finalize_recovery room r reply_sequence; pure (delivery_recovered reply_sequence))

  -- What follows the test on the completeness of the history: no match, one, or more.
  unfoldable pub recover_matches :
      TechnocoreClient → String → DeliveryRecord → List RoomMessage → Bool → Bool → Exec Recovered
  unfolding recover_absent recover_found
  recover_matches client room r [] apply confirm_retry =
      recover_absent client room r (apply && confirm_retry)
  recover_matches client room r (match' ∷ []) apply confirm_retry =
      recover_found room r match'.seq apply
  recover_matches client room r (m ∷ n ∷ ms) apply confirm_retry =
      pure (duplicate_delivery_records (sequences (m ∷ n ∷ ms)))

  -- `_recover_pending`
  unfoldable pub recover_pending :
      TechnocoreClient → String → DeliveryRecord → RoomSnapshot → Bool → Bool → Exec Recovered
  unfolding recover_matches is_complete_history matches
  recover_pending client room r snapshot apply confirm_retry =
      let found = keep_if (matches r) snapshot.messages in
      if not (is_complete_history snapshot r.input_sequence)
      then pure (delivery_history_incomplete (length found))
      else recover_matches client room r found apply confirm_retry

  abbrev pub recover_by_status :
      TechnocoreClient → String → DeliveryRecord → Status → Bool → Bool → Exec Recovered
  recover_by_status client room r acknowledged apply confirm_retry =
      recover_acknowledged room r apply
  recover_by_status client room r pending apply confirm_retry = do
    snapshot ← read_room client room r.input_sequence 0 200
    recover_pending client room r snapshot apply confirm_retry

  abbrev pub recover_loaded :
      TechnocoreClient → String → String → Option DeliveryRecord → Bool → Bool → Exec Recovered
  recover_loaded client room did none apply confirm_retry = pure no_pending_delivery
  recover_loaded client room did (some r) apply confirm_retry = do
    lift (verify_for_room p room r)
    require (r.did == did) delivery_error
    recover_by_status client room r r.status apply confirm_retry

  unfoldable pub recover_delivery :
      TechnocoreClient → String → String → Bool → Bool → Exec Recovered
  unfolding recover_acknowledged recover_pending read_room Journal.load verify_for_room
  recover_delivery client room did apply confirm_retry = do
    valid_room ← lift (validate_room room)
    valid_did ← lift (validate_did did)
    require (not (confirm_retry && not apply)) delivery_error
    loaded ← Journal.load p
    recover_loaded client valid_room valid_did loaded apply confirm_retry
