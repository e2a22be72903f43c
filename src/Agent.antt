-- ===== src/Agent.antt =====
-- `SafeResponder` of agent.py: a snapshot of the room in, replies out, and what is durable when.
pub mod Actions
pub mod Evidence
pub mod WriteAhead
pub mod SendText
pub mod Persist
pub mod Frame
pub mod Nonces
pub mod Escape
use technocore_safe_agent.Base.{
  ℕ, ◌+◌, String, Bool, true, false, ◌&&◌, ◌||◌, not, Option, none, some, List, [], ◌∷◌, ◌++◌, ◌==◌,
  nat_eq, string_eq, leb, ltb, if◌then◌else◌, Error, Result, ok, err, delivery_error, state_error,
  response_error, transport_error, uncertain_write_error,
}
use technocore_safe_agent.Json.{nat}
use technocore_safe_agent.Crypto.{sign_room_message, fingerprint_of_did, sha256_text}
use technocore_safe_agent.Crypto.Library.{Primitives, PrivateKey}
use technocore_safe_agent.State.{
  cursor_for, advance_cursor, generation_for, observe_generation, next_nonce,
}
use technocore_safe_agent.State.Store.{save}
use technocore_safe_agent.World.{Issue, issued, refused, next_or, others}
use technocore_safe_agent.Exec.{
  Exec, Done, pure, raise, lift, gets, modify, try_except, put_state, when, ◌>>=◌, ◌>>◌,
}
use technocore_safe_agent.Protocol.{RoomMessage, RoomSnapshot, is_signed}
use technocore_safe_agent.Protocol.Request.{TechnocoreClient}
use technocore_safe_agent.Protocol.Client.{read_room, send_signed_message}
use technocore_safe_agent.Delivery.{create}
use technocore_safe_agent.Delivery.Journal
use technocore_safe_agent.Policy.{Action, ignore, reply, receipt, Decision, CommandPolicy, decide}
use technocore_safe_agent.Audit.Log.{Observation, append, take_datetime}

pub record Responder : Type 0 where
  pub room : String
  pub did : String
  pub key : PrivateKey
  pub client : TechnocoreClient
  pub policy : CommandPolicy
  pub has_receipt_service : Bool
  pub has_journal : Bool
  pub has_audit_log : Bool
  pub send : Bool

-- event["event"], where `decided` is the policy's action
pub data EventKind : Type 0 where
  decided : Action → EventKind
  would_reply sent would_issue_receipt receipt_failed sent_receipt : EventKind

pub record Event : Type 0 where
  pub kind : EventKind
  pub decision : Action
  pub reason : String
  pub seq : ℕ
  pub sender : String
  pub reply_seq : Option ℕ
  pub receipt_sha256 : Option String

-- The events of `process_snapshot`.
pub data Notice : Type 0 where
  generation_changed : Option ℕ → ℕ → Notice
  retention_gap : ℕ → ℕ → Notice
  processed : Event → Notice
  cursor_advanced : ℕ → ℕ → Notice

abbrev pub action_text : Action → String
action_text ignore = "ignore"
action_text reply = "reply"
action_text receipt = "receipt"

abbrev pub kind_text : EventKind → String
kind_text (decided action) = action_text action
kind_text would_reply = "would_reply"
kind_text sent = "sent"
kind_text would_issue_receipt = "would_issue_receipt"
kind_text receipt_failed = "receipt_failed"
kind_text sent_receipt = "sent_receipt"

-- event["event"] in {"sent", "sent_receipt"}
abbrev pub is_sent : EventKind → Bool
is_sent sent = true
is_sent sent_receipt = true
is_sent _ = false

unfoldable pub take_clock_ns : Exec ℕ
unfolding ◌>>=◌
take_clock_ns = do
  n ← gets (λ w. next_or 0 w.clock_ns)
  modify (λ w. record w { clock_ns = others w.clock_ns })
  pure n

unfoldable pub take_issue : Exec Issue
unfolding ◌>>=◌
take_issue = do
  issue ← gets (λ w. next_or (refused "github_transport_error") w.issues)
  modify (λ w. record w { issues = others w.issues })
  pure issue

-- except (TransportError, ResponseError)
abbrev pub uncertain_send : Error → Error
uncertain_send (transport_error _) = uncertain_write_error
uncertain_send response_error = uncertain_write_error
uncertain_send other = other

-- except DeliveryError
abbrev pub uncertain_delivery : Error → Error
uncertain_delivery delivery_error = uncertain_write_error
uncertain_delivery other = other

-- except StateError, after a reply was sent
abbrev pub uncertain_state : Bool → Error → Error
uncertain_state true state_error = uncertain_write_error
uncertain_state _ other = other

module _ (p : Primitives) (r : Responder) where
  unfoldable pub reserve_nonce : Exec ℕ
  unfolding take_clock_ns put_state
  reserve_nonce = do
    clock_value ← take_clock_ns
    s ← gets (λ w. w.state)
    selected ← lift (next_nonce r.room clock_value s)
    put_state selected.1
    pure selected.0

  unfoldable pub prepare_delivery : ℕ → ℕ → String → String → Done
  unfolding Journal.prepare
  prepare_delivery input_sequence nonce text signature = do
    pending ← lift (create p r.room input_sequence r.did nonce text signature)
    Journal.prepare pending

  unfoldable pub post_reply : ℕ → String → String → Exec RoomMessage
  unfolding send_signed_message
  post_reply nonce text signature =
      try_except (send_signed_message p r.client r.room r.did signature (nat nonce) text)
        (λ error. raise (uncertain_send error))

  unfoldable pub acknowledge_delivery : ℕ → Done
  unfolding Journal.acknowledge
  acknowledge_delivery reply_sequence =
      try_except (do acknowledged ← Journal.acknowledge p reply_sequence; pure tt)
        (λ error. raise (uncertain_delivery error))

  -- `_send_text`
  unfoldable pub send_text : String → ℕ → Exec RoomMessage
  unfolding reserve_nonce prepare_delivery post_reply acknowledge_delivery Journal.require_empty
  send_text text input_sequence = do
    when r.has_journal (Journal.require_empty p)
    nonce ← reserve_nonce
    signed ← lift (sign_room_message p r.key r.room nonce text)
    when r.has_journal (prepare_delivery input_sequence nonce signed.0 signed.1)
    posted ← post_reply nonce signed.0 signed.1
    when r.has_journal (acknowledge_delivery posted.seq)
    pure posted

  -- `_reply_event`
  unfoldable pub reply_event : Event → ℕ → String → Exec Event
  unfolding send_text
  reply_event event input_sequence reply_text =
      if not r.send then pure (record event { kind = would_reply }) else (do
        posted ← send_text reply_text input_sequence
        pure (record event { kind = sent; reply_seq = some posted.seq }))

  abbrev pub after_issue : Event → ℕ → Issue → Exec Event
  after_issue event input_sequence (refused code) = pure (record event { kind = receipt_failed })
  after_issue event input_sequence (issued text) = do
    posted ← send_text text input_sequence
    pure (record event {
      kind = sent_receipt;
      reply_seq = some posted.seq;
      receipt_sha256 = some (sha256_text p text);
    })

  -- `_receipt_event`
  unfoldable pub receipt_event : Event → ℕ → String → Exec Event
  unfolding send_text take_issue
  receipt_event event input_sequence pull_request =
      if not r.send
      then pure (record event { kind = would_issue_receipt })
      else if not r.has_receipt_service
      then raise response_error
      else (do issue ← take_issue; after_issue event input_sequence issue)

  abbrev pub event_of : RoomMessage → Decision → Event
  event_of message decision = record {
    kind = decided decision.action;
    decision = decision.action;
    reason = decision.reason;
    seq = message.seq;
    sender = message.sender;
    reply_seq = none;
    receipt_sha256 = none;
  }

  abbrev pub answer_decision :
      RoomMessage → Decision → Action → Option String → Option String → Exec Event
  answer_decision message decision reply (some text) target =
      reply_event (event_of message decision) message.seq text
  answer_decision message decision receipt answer (some target) =
      receipt_event (event_of message decision) message.seq target
  answer_decision message decision _ answer target = pure (event_of message decision)

  -- `_event_for_message`
  unfoldable pub event_for_message : RoomMessage → Exec Event
  unfolding decide reply_event receipt_event
  event_for_message message = do
    decision ← decide p r.policy message
    answer_decision message decision decision.action decision.answer decision.target

  unfoldable pub fingerprint_for : RoomMessage → Result (Option String)
  unfolding fingerprint_of_did
  fingerprint_for message =
      if is_signed message
      then elim (fingerprint_of_did p message.sender) [ ok f ↦ ok (some f) | err e ↦ err e ]
      else ok none

  -- `_append_audit_record`
  unfoldable pub append_audit_record : RoomMessage → Event → Done
  unfolding append take_datetime fingerprint_for
  append_audit_record message event = do
    fingerprint ← lift (fingerprint_for message)
    observed_at ← take_datetime
    let o : Observation = record {
      input_sequence = message.seq;
      sender_fingerprint = fingerprint;
      sender_authenticated = is_signed message;
      policy_decision = action_text event.decision;
      policy_reason = event.reason;
      outcome = kind_text event.kind;
      receipt_sha256 = event.receipt_sha256;
      response_sequence = event.reply_seq;
    }
    hash ← append p r.did r.key observed_at o
    pure tt

  unfoldable pub move_cursor : ℕ → Done
  unfolding put_state
  move_cursor sequence = do
    s ← gets (λ w. w.state)
    moved ← lift (advance_cursor r.room sequence s)
    put_state moved

  unfoldable pub clear_delivery : Done
  unfolding Journal.clear
  clear_delivery = try_except Journal.clear (λ error. raise (uncertain_delivery error))

  -- What `_persist_processed_message` does after the cursor has moved in memory.
  unfoldable pub persist_cursor : EventKind → Done
  unfolding save clear_delivery
  persist_cursor kind = do
    try_except save (λ error. raise (uncertain_state (is_sent kind) error))
    when (is_sent kind && r.has_journal) clear_delivery

  -- `_persist_processed_message`
  unfoldable pub persist_processed_message : RoomMessage → Event → Done
  unfolding append_audit_record move_cursor persist_cursor
  persist_processed_message message event = do
    when (r.send && r.has_audit_log) (append_audit_record message event)
    move_cursor message.seq
    when r.send (persist_cursor event.kind)

  -- The loop over the messages; its result is the cursor and the events.
  unfoldable pub process_messages : ℕ → List RoomMessage → Exec (ℕ × List Notice)
  unfolding event_for_message persist_processed_message
  process_messages cursor [] = pure (cursor, [])
  process_messages cursor (message ∷ rest) =
      let handled = do
        event ← event_for_message message
        persist_processed_message message event
        result ← process_messages message.seq rest
        pure (result.0, processed event ∷ result.1)
      in let skipped = process_messages cursor rest in
        if leb message.seq cursor then skipped else handled

  abbrev pub was_handled : List Notice → Bool
  was_handled [] = false
  was_handled (_ ∷ _) = true

  abbrev pub generation_notice : Bool → Option ℕ → ℕ → List Notice
  generation_notice true previous generation = generation_changed previous generation ∷ []
  generation_notice false previous generation = []

  abbrev pub gap_notice : ℕ → ℕ → List Notice
  gap_notice cursor first_seq =
      if ltb 0 first_seq && ltb (cursor + 1) first_seq
      then retention_gap cursor first_seq ∷ []
      else []

  -- The tail after the loop: a gap can leave no readable record though the room has moved.
  unfoldable pub skip_unavailable : Bool → ℕ → ℕ → Exec (Bool × List Notice)
  unfolding move_cursor save
  skip_unavailable handled cursor last_seq =
      if not handled && ltb cursor last_seq
      then (do
        move_cursor last_seq
        when r.send save
        pure (r.send, cursor_advanced cursor last_seq ∷ []))
      else pure (handled && r.send, [])

  abbrev pub backwards : Error → Error
  backwards state_error = response_error
  backwards other = other

  abbrev pub is_none : Option ℕ → Bool
  is_none none = true
  is_none (some _) = false

  unfoldable pub process_snapshot : RoomSnapshot → Exec (List Notice)
  unfolding process_messages skip_unavailable put_state
  process_snapshot snapshot = if not (snapshot.room == r.room) then raise response_error else (do
    s ← gets (λ w. w.state)
    let previous_generation = generation_for s r.room
    observed ←
        try_except (lift (observe_generation r.room snapshot.generation s))
          (λ error. raise (backwards error))
    put_state observed.1
    let cursor = cursor_for observed.1 r.room
    result ← process_messages cursor snapshot.messages
    tail ← skip_unavailable (was_handled result.1) result.0 snapshot.last_seq
    when (r.send && (is_none previous_generation || observed.0) && not tail.0) save
    pure (
        generation_notice observed.0 previous_generation snapshot.generation
        ++ (gap_notice cursor snapshot.first_seq ++ (result.1 ++ tail.1))))

  unfoldable pub bootstrap_latest : Exec ℕ
  unfolding read_room move_cursor save put_state
  bootstrap_latest = do
    snapshot ← read_room r.client r.room 0 0 1
    s ← gets (λ w. w.state)
    observed ← lift (observe_generation r.room snapshot.generation s)
    put_state observed.1
    move_cursor snapshot.last_seq
    when r.send save
    pure snapshot.last_seq
