-- ===== src/Tests/Properties.antt =====
-- The properties at concrete inputs: the witnesses.
use technocore_safe_agent.Base.{true, false, ◌≡◌, refl, some, [], ◌∷◌, ok, contains, nat_eq, arith}
use technocore_safe_agent.Base.Dict.{lookup}
use technocore_safe_agent.State.Laws.{IsNextNonce, next_nonce-IsNextNonce}
use technocore_safe_agent.Exec.Triple.{Ends}
use technocore_safe_agent.Exec.Frame.{view}
use technocore_safe_agent.Protocol.{sequences}
use technocore_safe_agent.Delivery.{acknowledged, to_payload, from_payload}
use technocore_safe_agent.Delivery.RoundTrip.{from_payload-to_payload-create}
use technocore_safe_agent.Audit.Log.{write_all}
use technocore_safe_agent.Audit.Writes.{content, WrittenUpTo, write_all-Appends}
use technocore_safe_agent.Policy.{decide}
use technocore_safe_agent.Policy.Permits.{IgnoredOr, decide-Permitted}
use technocore_safe_agent.Agent.{send_text, persist_processed_message, process_snapshot}
use technocore_safe_agent.Agent.Evidence.{Evidenced}
use technocore_safe_agent.Agent.WriteAhead.{AcknowledgedBy}
use technocore_safe_agent.Agent.SendText.{send_text-Evidenced, send_text-Refused}
use technocore_safe_agent.Agent.Persist.{
  Persisted, Interrupted, persist_processed_message-Persisted,
}
use technocore_safe_agent.Agent.Nonces.{
  NoncesUsed, process_snapshot-NoncesUsed, process_snapshot-dry,
}
use technocore_safe_agent.Agent.{process_messages}
use technocore_safe_agent.Agent.Escape.{process_messages-value_error}
use technocore_safe_agent.Base.{err, value_error}
use technocore_safe_agent.Protocol.Ordered.{IsOrdered, parse_snapshot-IsOrdered}
use technocore_safe_agent.Tests.Data.{malformed, payload, accepted}
use technocore_safe_agent.Tests.Runs.{
  malformed_signed, malformed_command, malformed_stripped, snapshot_run,
}
use technocore_safe_agent.Recovery.{recover_delivery}
use technocore_safe_agent.Recovery.Retry.{SentAtMost, Reported}
use technocore_safe_agent.Recovery.Outcome.{recover_delivery-Reported}
use technocore_safe_agent.Recovery.History.{is_complete_history-contains}
use technocore_safe_agent.Tests.Data.{
  library, responder_with, responder, client, policy, ping, snapshot, world, left_over, event,
  created, own_did, signature86,
}
use technocore_safe_agent.Tests.Runs.{
  render_five, snapshot_complete, digest_hex, create_run, acknowledge_run, next_nonce_run,
}

send_text_example :
    Ends
      (λ posted w'. AcknowledgedBy library responder (view world) 3 posted.seq w')
      (λ _ w'. Evidenced "lobby" 3 (view world) (view w'))
      (send_text library responder "pong" 3 world)
send_text_example = send_text-Evidenced library responder "pong" 3 world refl

refused_example :
    Ends
      (λ _ _. ⊥)
      (λ _ w'. view w' ≡ view (record world { journal_file = some left_over }))
      (send_text library responder "pong" 3 (record world { journal_file = some left_over }))
refused_example =
    send_text-Refused library responder "pong" 3 (record world { journal_file = some left_over })
      left_over refl refl

persist_example :
    Ends
      (λ _ w'. Persisted "lobby" 3 true (view world) (view w'))
      (λ _ w'. Interrupted "lobby" 3 (view world) (view w'))
      (persist_processed_message library responder ping event world)
persist_example = persist_processed_message-Persisted library responder ping event world refl

nonces_example :
    Ends
      (λ _ w'. NoncesUsed "lobby" w'.state.nonces w'.wire)
      (λ _ w'. NoncesUsed "lobby" w'.state.nonces w'.wire)
      (process_snapshot library responder snapshot world)
unfolding lookup
nonces_example =
    process_snapshot-NoncesUsed library responder snapshot world (5, render_five, omega arith, tt)

dry_example :
    Ends
      (λ _ w'. (w'.state.nonces ≡ world.state.nonces) × (w'.wire ≡ world.wire))
      (λ _ w'. (w'.state.nonces ≡ world.state.nonces) × (w'.wire ≡ world.wire))
      (process_snapshot library (responder_with false) snapshot world)
dry_example = process_snapshot-dry library (responder_with false) snapshot world refl

permitted_example :
    Ends
      (λ decision _. IgnoredOr library world policy ping decision)
      (λ _ _. Unit {0})
      (decide library policy ping world)
permitted_example = decide-Permitted library world policy ping

recovery_example :
    Ends
      (λ result w'.
        SentAtMost library "lobby" true (view world) world.replies w'.wire
        × Reported library "lobby" (view world) result (view w'))
      (λ _ w'. SentAtMost library "lobby" true (view world) world.replies w'.wire)
      (recover_delivery library client "lobby" own_did true true world)
recovery_example = recover_delivery-Reported library client "lobby" own_did true true world

history_example : contains (sequences snapshot.messages) 3 ≡ true
history_example =
    is_complete_history-contains snapshot 1 3 snapshot_complete (omega arith) (omega arith)

round_trip_example :
    (from_payload library (to_payload created) ≡ ok created)
    × (from_payload library
          (to_payload (record created { status = acknowledged; reply_sequence = some 4 }))
        ≡ ok (record created { status = acknowledged; reply_sequence = some 4 }))
round_trip_example =
    from_payload-to_payload-create library "lobby" 3 own_did 9 "pong" signature86 4 created
      (record created { status = acknowledged; reply_sequence = some 4 }) (λ bs. digest_hex)
      create_run acknowledge_run

next_nonce_example :
    IsNextNonce "lobby" 9 world.state 9 (record world.state { nonces = ("lobby", 9) ∷ [] })
next_nonce_example =
    next_nonce-IsNextNonce "lobby" 9 world.state 9
      (record world.state { nonces = ("lobby", 9) ∷ [] }) next_nonce_run

escape_example :
    process_messages library responder 1 (malformed ∷ []) world ≡ (err value_error, world)
escape_example =
    process_messages-value_error library responder 1 malformed [] world refl refl refl refl
      malformed_signed malformed_command malformed_stripped refl

parse_example : IsOrdered "lobby" accepted
parse_example = parse_snapshot-IsOrdered payload "lobby" accepted snapshot_run

writes_example :
    Ends
      (λ _ w'. content w' ≡ 1 ∷ 2 ∷ 3 ∷ [])
      (λ _ w'. WrittenUpTo [] (1 ∷ 2 ∷ 3 ∷ []) (content w'))
      (write_all 3 (1 ∷ 2 ∷ 3 ∷ []) (record world { writes = 2 ∷ 1 ∷ [] }))
writes_example =
    write_all-Appends 3 (1 ∷ 2 ∷ 3 ∷ []) (record world { writes = 2 ∷ 1 ∷ [] }) (omega arith)
