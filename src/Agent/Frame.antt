-- ===== src/Agent/Frame.antt =====
-- What holds of the nonces and of the wire alone is kept by everything that the agent does with a
-- snapshot, if `_send_text` keeps it.
use technocore_safe_agent.Base.{
  ℕ, String, Bool, true, false, ◌≡◌, refl, ap, ◌∙◌, ◌&&◌, ◌||◌, not, Option, none, some, List, [],
  ◌∷◌, ◌++◌, ◌==◌, string_eq, leb, ltb, inl, inr, ok, arith, response_error,
}
use technocore_safe_agent.Base.Dict.{Dict}
use technocore_safe_agent.Crypto.{sha256_text}
use technocore_safe_agent.Crypto.Library.{Primitives}
use technocore_safe_agent.State.{AgentState, observe_generation, generation_for, cursor_for}
use technocore_safe_agent.State.Laws.{advance_cursor-eq}
use technocore_safe_agent.State.Store.{save}
use technocore_safe_agent.State.Durability.{Keeps-save}
use technocore_safe_agent.World.{Envelope, Issue, issued, refused}
use technocore_safe_agent.Exec.{raise, lift, try_except}
use technocore_safe_agent.Exec.Triple.{
  Pred, Triple, Keeps, bind, handle, weaken, Triple-lift, Triple-gets, Triple-raise, Keeps-bind,
  Keeps-pure, Keeps-raise, Keeps-when, Keeps-try_except,
}
use technocore_safe_agent.Exec.Frame.{Stable, Stable-view, Triple-put_state}
use technocore_safe_agent.Audit.Frame.{Keeps-if}
use technocore_safe_agent.Protocol.{RoomMessage, RoomSnapshot}
use technocore_safe_agent.Policy.{Action, ignore, reply, receipt, Decision}
use technocore_safe_agent.Policy.Frame.{Keeps-decide}
use technocore_safe_agent.Delivery.Durability.{Triple-clear}
use technocore_safe_agent.Delivery.Journal.{clear}
use technocore_safe_agent.Agent.Actions.{Keeps-take_issue}
use technocore_safe_agent.Agent.Persist.{Keeps-append_audit_record, Triple-move_cursor}
use technocore_safe_agent.Agent.{
  Responder, Event, EventKind, would_reply, would_issue_receipt, receipt_failed, sent, sent_receipt,
  processed, cursor_advanced, is_sent, send_text, reply_event, receipt_event, after_issue,
  answer_decision, event_of, event_for_message, persist_processed_message, persist_cursor,
  move_cursor, clear_delivery, process_messages, skip_unavailable, process_snapshot, was_handled,
  generation_notice, gap_notice, backwards, uncertain_state, uncertain_delivery, is_none,
}

pub observe_generation-eq :
    (room : String) (generation : ℕ) (s : AgentState) (o : Bool × AgentState)
    → observe_generation room generation s ≡ ok o
    → (o.1.nonces ≡ s.nonces)
unfolding observe_generation
observe_generation-eq room generation s o h = ground arith

module _ (G : Dict ℕ → List Envelope → Type 0) where
  abbrev pub Holds : Pred
  Holds w = G w.state.nonces w.wire

  pub Stable-Holds : Stable Holds
  Stable-Holds = Stable-view λ v. G v.state.nonces v.wire

  Keeps-clear : Keeps Holds clear
  Keeps-clear =
      weaken
        (Triple-clear {P = Holds} {Q = Holds} Stable-Holds Stable-Holds (λ w h _. h) (λ w h. h))
        (λ w h. h) (λ _ w h. h) (λ _ w h. elim h [ inl a ↦ a | inr b ↦ b ])

  module _ (p : Primitives) (r : Responder) where
    pub Keeps-move_cursor : (sequence : ℕ) → Keeps Holds (move_cursor p r sequence)
    Keeps-move_cursor sequence =
        Triple-move_cursor p r sequence
          λ w t e h. rw ((advance_cursor-eq r.room sequence w.state t e).1) h

    Keeps-clear_delivery : Keeps Holds (clear_delivery p r)
    unfolding clear_delivery
    Keeps-clear_delivery = Keeps-try_except Keeps-clear λ e. Keeps-raise (uncertain_delivery e)

    Keeps-save_state : Keeps Holds save
    Keeps-save_state = Keeps-save {P = Holds} Stable-Holds λ w h. h

    Keeps-persist_cursor : (kind : EventKind) → Keeps Holds (persist_cursor p r kind)
    unfolding persist_cursor
    Keeps-persist_cursor kind =
        Keeps-bind
          (Keeps-try_except Keeps-save_state λ e. Keeps-raise (uncertain_state (is_sent kind) e))
          λ _. Keeps-when (is_sent kind && r.has_journal) Keeps-clear_delivery

    Keeps-persist_processed_message :
        (message : RoomMessage) (event : Event)
        → Keeps Holds (persist_processed_message p r message event)
    unfolding persist_processed_message
    Keeps-persist_processed_message message event =
        Keeps-bind
          (Keeps-when (r.send && r.has_audit_log)
            (Keeps-append_audit_record Stable-Holds (λ w f h. h) p r message event))
          λ _.
            Keeps-bind (Keeps-move_cursor message.seq)
              λ _. Keeps-when r.send (Keeps-persist_cursor event.kind)

    -- What follows takes the same of `_send_text`, where the agent sends at all.
    module _
        (sends : r.send ≡ true
          → (text : String) (sequence : ℕ) → Keeps Holds (send_text p r text sequence)) where
      reply_by :
          (send : Bool) (event : Event) (sequence : ℕ) (text : String)
          → r.send ≡ send
          → Keeps Holds (reply_event p r event sequence text)
      unfolding reply_event
      reply_by false event sequence text e = rw e (Keeps-pure (record event { kind = would_reply }))
      reply_by true event sequence text e = rw e (
          Keeps-bind (sends e text sequence)
            λ posted. Keeps-pure (record event { kind = sent; reply_seq = some posted.seq }))

      Keeps-after_issue :
          r.send ≡ true
          → (event : Event) (sequence : ℕ) (issue : Issue)
          → Keeps Holds (after_issue p r event sequence issue)
      Keeps-after_issue e event sequence (refused code) =
          Keeps-pure (record event { kind = receipt_failed })
      Keeps-after_issue e event sequence (issued text) =
          Keeps-bind (sends e text sequence) λ posted. Keeps-pure (record event {
            kind = sent_receipt;
            reply_seq = some posted.seq;
            receipt_sha256 = some (sha256_text p text);
          })

      receipt_by :
          (send : Bool) (event : Event) (sequence : ℕ) (target : String)
          → r.send ≡ send
          → Keeps Holds (receipt_event p r event sequence target)
      unfolding receipt_event
      receipt_by false event sequence target e =
          rw e (Keeps-pure (record event { kind = would_issue_receipt }))
      receipt_by true event sequence target e = rw e (
          Keeps-if (not r.has_receipt_service) (Keeps-raise response_error) (
            Keeps-bind (Keeps-take_issue Stable-Holds)
              λ issue. Keeps-after_issue e event sequence issue))

      Keeps-answer :
          (message : RoomMessage) (decision : Decision) (action : Action)
          (answer target : Option String)
          → Keeps Holds (answer_decision p r message decision action answer target)
      Keeps-answer message decision reply (some text) target =
          reply_by r.send (event_of p r message decision) message.seq text refl
      Keeps-answer message decision reply none target = Keeps-pure (event_of p r message decision)
      Keeps-answer message decision receipt answer (some target) =
          receipt_by r.send (event_of p r message decision) message.seq target refl
      Keeps-answer message decision receipt answer none = Keeps-pure (event_of p r message decision)
      Keeps-answer message decision ignore answer target =
          Keeps-pure (event_of p r message decision)

      Keeps-event_for_message :
          (message : RoomMessage) → Keeps Holds (event_for_message p r message)
      unfolding event_for_message
      Keeps-event_for_message message =
          Keeps-bind (Keeps-decide Stable-Holds (λ w c h. h) (λ w h. h) p r.policy message)
            λ decision.
              Keeps-answer message decision decision.action decision.answer decision.target

      Keeps-process_messages :
          (cursor : ℕ) (messages : List RoomMessage)
          → Keeps Holds (process_messages p r cursor messages)
      unfolding process_messages
      Keeps-process_messages cursor [] = Keeps-pure (cursor, [])
      Keeps-process_messages cursor (message ∷ rest) =
          Keeps-if (leb message.seq cursor) (Keeps-process_messages cursor rest) (
            Keeps-bind (Keeps-event_for_message message) λ event.
              Keeps-bind (Keeps-persist_processed_message message event) λ _.
                Keeps-bind (Keeps-process_messages message.seq rest)
                  λ result. Keeps-pure (result.0, processed event ∷ result.1))

      Keeps-skip_unavailable :
          (handled : Bool) (cursor last_seq : ℕ)
          → Keeps Holds (skip_unavailable p r handled cursor last_seq)
      unfolding skip_unavailable
      Keeps-skip_unavailable handled cursor last_seq =
          Keeps-if (not handled && ltb cursor last_seq)
            (Keeps-bind (Keeps-move_cursor last_seq) λ _.
              Keeps-bind (Keeps-when r.send Keeps-save_state)
                λ _. Keeps-pure (r.send, cursor_advanced cursor last_seq ∷ []))
            (Keeps-pure (handled && r.send, []))

      Keeps-observe :
          (generation : ℕ) (s : AgentState)
          → Triple
              (λ w. Holds w × (s ≡ w.state))
              (try_except
                (lift (observe_generation r.room generation s))
                (λ error. raise (backwards p r error)))
              (λ o w. Holds w × (o.1.nonces ≡ w.state.nonces))
              (λ _. Holds)
      Keeps-observe generation s =
          handle (λ _. Holds)
            (weaken (Triple-lift (observe_generation r.room generation s)) (λ w h. h)
              (λ o w h. (
                h.0.0,
                observe_generation-eq r.room generation s o h.1 ∙ ap AgentState.nonces h.0.1,
              ))
              (λ _ w h. h.0))
            λ e. Triple-raise (backwards p r e)

      pub Keeps-process_snapshot :
          (snapshot : RoomSnapshot) → Keeps Holds (process_snapshot p r snapshot)
      unfolding process_snapshot
      Keeps-process_snapshot snapshot =
          Keeps-if (not (snapshot.room == r.room)) (Keeps-raise response_error) (
            bind (λ s w. Holds w × (s ≡ w.state)) (Triple-gets (λ w. w.state))
              λ s.
                let previous = generation_for s r.room in
                bind (λ o w. Holds w × (o.1.nonces ≡ w.state.nonces))
                  (Keeps-observe snapshot.generation s)
                  λ observed.
                    bind (λ _. Holds) (Triple-put_state (observed.1) λ w h. rw (h.1) (h.0))
                      λ _.
                        let cursor = cursor_for (observed.1) r.room in
                        Keeps-bind (Keeps-process_messages cursor snapshot.messages) λ result.
                          Keeps-bind
                            (Keeps-skip_unavailable (was_handled p r (result.1)) (result.0)
                              snapshot.last_seq)
                            λ tail.
                              Keeps-bind
                                (Keeps-when
                                  (r.send && (is_none p r previous || observed.0) && not (tail.0))
                                  Keeps-save_state)
                                λ _. Keeps-pure (
                                  generation_notice p r (observed.0) previous snapshot.generation
                                  ++ (gap_notice p r cursor snapshot.first_seq
                                      ++ (result.1 ++ tail.1))))
