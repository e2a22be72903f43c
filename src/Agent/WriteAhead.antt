-- ===== src/Agent/WriteAhead.antt =====
-- The steps of `_send_text` of agent.py write the envelope ahead: what they send is what the journal
-- holds.
use mathlib.Core.Path.{subst}
use technocore_safe_agent.Base.{
  ℕ, ◌+◌, ◌≤◌, ◌<◌, String, ◌≡◌, refl, sym, ◌∙◌, none, some, ◌∷◌, inl, inr, Error, ok, nat_eq,
}
use technocore_safe_agent.Json.{nat}
use technocore_safe_agent.Crypto.Library.{Primitives}
use technocore_safe_agent.State.{AgentState, next_nonce}
use technocore_safe_agent.State.Laws.{stored_nonce, next_nonce-IsNextNonce}
use technocore_safe_agent.World.{World, Envelope, written}
use technocore_safe_agent.Exec.Triple.{
  Pred, Triple, bind, handle, weaken, returns, given, Triple-lift, Triple-gets, Triple-raise,
  Keeps-bind, Keeps-lift,
}
use technocore_safe_agent.Exec.Frame.{Triple-put_state, View, view, Stable-view}
use technocore_safe_agent.Protocol.Request.{envelope_of, acknowledged as acknowledged_by}
use technocore_safe_agent.Protocol.Client.{send_signed_message}
use technocore_safe_agent.Delivery.{
  DeliveryRecord, Status, acknowledged, create, to_payload, from_payload,
}
use technocore_safe_agent.Delivery
use technocore_safe_agent.Delivery.Journal.{prepare, require_empty}
use technocore_safe_agent.Delivery.Journal
use technocore_safe_agent.Delivery.Records.{
  IsCreatedFrom, create-IsCreatedFrom, from_payload-to_payload-SameEnvelope,
  acknowledge-SameEnvelope,
}
use technocore_safe_agent.Delivery.Durability.{LoadedFrom, Triple-prepare, Triple-acknowledge}
use technocore_safe_agent.Agent.Actions.{Keeps-request, Keeps-take_clock_ns, Triple-post}
use technocore_safe_agent.Agent.{
  Responder, reserve_nonce, prepare_delivery, post_reply, acknowledge_delivery, uncertain_send,
  uncertain_delivery,
}
use technocore_safe_agent.Agent.Evidence.{
  Unsent, Reserved, InFlight, IsMadeOf, envelope_of-IsMadeOf, reread, Evidenced,
}

module _ (p : Primitives) (r : Responder) (old : View) (seq : ℕ) where
  abbrev pub Failed : Error → Pred
  Failed _ w = Evidenced r.room seq old (view w)

  abbrev pub Ready : Pred
  Ready w = Unsent old (view w) × (w.journal_file ≡ none) × (w.state ≡ old.state)

  abbrev pub Chosen : ℕ → Pred
  Chosen n w = Unsent old (view w) × (w.journal_file ≡ none) × Reserved r.room n old (view w)

  abbrev pub Prepared : DeliveryRecord → Pred
  Prepared d w =
      Unsent old (view w)
      × Reserved r.room d.nonce old (view w)
      × (w.journal_file ≡ some (written (to_payload d)))
      × (d.input_sequence ≡ seq)

  abbrev pub Sent : DeliveryRecord → Pred
  Sent d w = InFlight r.room seq d old (view w)

  pub Triple-reserve_nonce : Triple Ready (reserve_nonce p r) Chosen Failed
  unfolding reserve_nonce
  Triple-reserve_nonce =
      bind (λ _. Ready)
        (weaken
          (Keeps-take_clock_ns
            (Stable-view λ v. Unsent old v × (v.journal_file ≡ none) × (v.state ≡ old.state)))
          (λ w h. h) (λ _ w h. h) (λ _ w h. inl h.0))
        λ clock_value.
          bind (λ s w. Ready w × (s ≡ w.state)) (Triple-gets _)
            λ s.
              bind
                (λ selected w.
                  (Ready w × (s ≡ w.state)) × (next_nonce r.room clock_value s ≡ ok selected))
                (weaken (Triple-lift _) (λ w h. h) (λ _ w h. h) (λ _ w h. inl h.0.0))
                λ selected. given λ e.
                  bind (λ _. Chosen selected.0)
                    (Triple-put_state (selected.1) λ w h. chosen clock_value s selected e w h)
                    λ _. returns (selected.0) λ w h. h
    where
      chosen :
          (clock_value : ℕ) (s : AgentState) (selected : ℕ × AgentState)
          → next_nonce r.room clock_value s ≡ ok selected
          → (w : World) → Ready w × (s ≡ w.state)
          → Chosen (selected.0) (record w { state = selected.1 })
      chosen clock_value s selected e w ((unsent, empty, same), current) =
          let next = next_nonce-IsNextNonce r.room clock_value s (selected.0) (selected.1) e in
          (
            record {
              wire = unsent.wire;
              state_file = unsent.state_file;
              audit_file = unsent.audit_file;
            },
            empty,
            record {
              fresh = subst (λ t. stored_nonce r.room t < selected.0) (current ∙ same) next.grows;
              remembered = next.remembered;
              state_file = unsent.state_file;
              audit_file = unsent.audit_file;
            },
          )

  -- The journal holds what was signed.
  abbrev pub HeldFor : ℕ → String → String → Pred
  HeldFor n text signature w =
      (d : DeliveryRecord) × Prepared d w × IsCreatedFrom d seq r.did n text signature

  prepared :
      (n : ℕ) (text signature : String) (d : DeliveryRecord)
      → IsCreatedFrom d seq r.did n text signature
      → (w : World) → Chosen n w
      → HeldFor n text signature (Journal.set_journal (some (written (to_payload d))) w)
  prepared n text signature d c w (unsent, _, reserved) = (
    d,
    (
      record { wire = unsent.wire; state_file = unsent.state_file; audit_file = unsent.audit_file },
      record {
        fresh = rw (c.nonce_eq) (reserved.fresh);
        remembered = reserved.remembered ∙ sym c.nonce_eq;
        state_file = reserved.state_file;
        audit_file = reserved.audit_file;
      },
      refl,
      c.input_sequence_eq,
    ),
    c,
  )

  pub Triple-prepare_delivery :
      (n : ℕ) (text signature : String)
      → Triple
          (Chosen n)
          (prepare_delivery p r seq n text signature)
          (λ _. HeldFor n text signature)
          Failed
  unfolding prepare_delivery
  Triple-prepare_delivery n text signature =
      bind (λ d w. Chosen n w × (create p r.room seq r.did n text signature ≡ ok d))
        (weaken (Triple-lift _) (λ w h. h) (λ _ w h. h) (λ _ w h. inl h.0))
        λ d. given λ e.
          weaken
            (Triple-prepare {Q = HeldFor n text signature}
              (Stable-view λ v. Unsent old v × (v.journal_file ≡ none) × Reserved r.room n old v)
              (Stable-view λ v.
                (d : DeliveryRecord) × (Unsent old v
                  × Reserved r.room d.nonce old v
                  × (v.journal_file ≡ some (written (to_payload d)))
                  × (d.input_sequence ≡ seq))
                × IsCreatedFrom d seq r.did n text signature)
              d
              (λ w h.
                prepared n text signature d
                  (create-IsCreatedFrom p r.room seq r.did n text signature d e) w h))
            (λ w h. h) (λ _ w h. h) (λ _ w h. elim h [ inl a ↦ inl a.0 | inr b ↦ inl b.1.0 ])

  posted_envelope :
      (n : ℕ) (text signature : String) (e : Envelope)
      → IsMadeOf e r.room r.did signature n text
      → (w : World) → HeldFor n text signature w
      → (d : DeliveryRecord) × Sent d (record w { wire = e ∷ w.wire })
  posted_envelope n text signature e m w (d, (unsent, reserved, held, answers), c) = (
    d,
    record {
      envelope = e;
      sent_once = rw (unsent.wire) refl;
      in_room = m.room_eq;
      described = record {
        did = m.did_eq ∙ sym c.did_eq;
        signature = m.signature_eq ∙ sym c.signature_eq;
        nonce = rw (c.nonce_eq) m.nonce_eq;
        text = m.text_eq ∙ sym c.text_eq;
      };
      journaled = held;
      answers = answers;
      reserved = record {
        fresh = reserved.fresh;
        remembered = reserved.remembered;
        state_file = reserved.state_file;
        audit_file = reserved.audit_file;
      };
    },
  )

  abbrev pub SomeSent : Pred
  SomeSent w = (d : DeliveryRecord) × Sent d w

  pub Triple-post_reply :
      (n : ℕ) (text signature : String)
      → Triple (HeldFor n text signature) (post_reply p r n text signature) (λ _. SomeSent) Failed
  unfolding post_reply send_signed_message
  Triple-post_reply n text signature =
      handle Failed
        (bind
          (λ e w.
            HeldFor n text signature w
            × (envelope_of p r.client r.room r.did signature (nat n) text ≡ ok e))
          (weaken (Triple-lift _) (λ w h. h) (λ _ w h. h) (λ _ w h. inl h.1.0))
          λ e. given λ made.
            bind (λ _. SomeSent)
              (Triple-post e λ w h.
                posted_envelope n text signature e
                  (envelope_of-IsMadeOf p r.client r.room r.did signature n text e made) w h)
              λ _.
                weaken
                  (Keeps-bind {P = SomeSent}
                    (Keeps-request
                      (Stable-view λ v. (d : DeliveryRecord) × InFlight r.room seq d old v))
                    λ payload. Keeps-lift (acknowledged_by e payload))
                  (λ w h. h) (λ _ w h. h) (λ _ w h. inr h))
        λ e. Triple-raise (uncertain_send e)

  abbrev pub AcknowledgedBy : ℕ → Pred
  AcknowledgedBy n w = (d : DeliveryRecord) × Sent d w × (d.status ≡ acknowledged) × (seq + 1 ≤ n)

  acknowledges :
      (n : ℕ) (w : World) (d' s : DeliveryRecord)
      → SomeSent w
      → LoadedFrom p w.journal_file (some d')
      → Delivery.acknowledge n d' ≡ ok s
      → AcknowledgedBy n (Journal.set_journal (some (written (to_payload s))) w)
  acknowledges n w d' s (d, sent) loaded e =
      let read =
        from_payload-to_payload-SameEnvelope p d d'
          (reread p w.journal_file d d' sent.journaled loaded) in
      let (same, status, later) = acknowledge-SameEnvelope n d' s e in
      (
        s,
        record {
          envelope = sent.envelope;
          sent_once = sent.sent_once;
          in_room = sent.in_room;
          described = record {
            did = sent.described.did ∙ sym (same.did ∙ read.did);
            signature = sent.described.signature ∙ sym (same.signature ∙ read.signature);
            nonce = rw (same.nonce ∙ read.nonce) (sent.described.nonce);
            text = sent.described.text ∙ sym (same.text ∙ read.text);
          };
          journaled = refl;
          answers = same.input_sequence ∙ (read.input_sequence ∙ sent.answers);
          reserved = record {
            fresh = rw (same.nonce ∙ read.nonce) (sent.reserved.fresh);
            remembered = sent.reserved.remembered ∙ sym (same.nonce ∙ read.nonce);
            state_file = sent.reserved.state_file;
            audit_file = sent.reserved.audit_file;
          };
        },
        status,
        subst (λ k. k + 1 ≤ n) (same.input_sequence ∙ (read.input_sequence ∙ sent.answers)) later,
      )

  pub Triple-acknowledge_delivery :
      (n : ℕ) → Triple SomeSent (acknowledge_delivery p r n) (λ _. AcknowledgedBy n) Failed
  unfolding acknowledge_delivery
  Triple-acknowledge_delivery n =
      handle Failed
        (bind (λ _. AcknowledgedBy n)
          (weaken
            (Triple-acknowledge {P = SomeSent} {Q = AcknowledgedBy n}
              (Stable-view λ v. (d : DeliveryRecord) × InFlight r.room seq d old v)
              (Stable-view λ v.
                (d : DeliveryRecord) × InFlight r.room seq d old v
                × (d.status ≡ acknowledged)
                × (seq + 1 ≤ n))
              p n (acknowledges n))
            (λ w h. h) (λ _ w h. h) (λ _ w h. elim h [ inl a ↦ inr a | inr b ↦ inr (b.0, b.1) ]))
          λ _. returns tt λ w h. h)
        λ e. Triple-raise (uncertain_delivery e)
