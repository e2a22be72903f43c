-- ===== src/Agent/Persist.antt =====
-- `_persist_processed_message` of agent.py: the journal is cleared after the cursor is durable.
use mathlib.Core.Path.{subst}
use technocore_safe_agent.Base.{
  ℕ, String, Bool, true, false, ◌≡◌, refl, ap, ◌&&◌, Option, none, some, ◌⊎◌, inl, inr, Error, ok,
  state_error,
}
use technocore_safe_agent.Crypto.Library.{Primitives}
use technocore_safe_agent.State.{AgentState, advance_cursor, cursor_for}
use technocore_safe_agent.State.Payload
use technocore_safe_agent.State.Laws.{cursor_for-advance_cursor, advance_cursor-eq}
use technocore_safe_agent.State.Store.{save}
use technocore_safe_agent.State.Durability.{Triple-save}
use technocore_safe_agent.World.{World, written, File, ByteFile}
use technocore_safe_agent.Exec.{when}
use technocore_safe_agent.Exec.Triple.{
  Pred, Ends, Triple, Keeps, bind, handle, weaken, returns, given, Triple-lift, Triple-gets,
  Triple-raise, Triple-when_true, Keeps-bind, Keeps-lift, Keeps-pure, Keeps-when,
}
use technocore_safe_agent.Exec.Frame.{View, view, Stable, Stable-view, Triple-put_state}
use technocore_safe_agent.Audit.Frame.{Keeps-append, Keeps-take_datetime}
use technocore_safe_agent.Protocol.{RoomMessage, is_signed}
use technocore_safe_agent.Delivery.Durability.{Triple-clear}
use technocore_safe_agent.Agent.{
  Responder, Event, EventKind, is_sent, persist_processed_message, persist_cursor, move_cursor,
  clear_delivery, append_audit_record, fingerprint_for, action_text, kind_text, uncertain_state,
  uncertain_delivery,
}

-- Nothing has been sent, no nonce reserved and no journal touched since `old`.
pub record Quiet (room : String) (old v : View) : Type 0 where
  pub wire : v.wire ≡ old.wire
  pub nonces : v.state.nonces ≡ old.state.nonces

-- The state file holds the state, whose cursor for the room is `sequence`.
pub record Durable (room : String) (sequence : ℕ) (v : View) : Type 0 where
  pub saved : v.state_file ≡ some (written (Payload.to_payload v.state))
  pub at_cursor : cursor_for v.state room ≡ sequence

-- The audit log is not part of what is known.
pub Keeps-append_audit_record :
    {P : Pred}
    → Stable P
    → ((w : World) (f : ByteFile) → P w → P (record w { audit_file = some f }))
    → (p : Primitives) (r : Responder) (message : RoomMessage) (event : Event)
    → Keeps P (append_audit_record p r message event)
unfolding append_audit_record
Keeps-append_audit_record s log p r message event =
    Keeps-bind (Keeps-lift (fingerprint_for p r message)) λ fingerprint.
      Keeps-bind (Keeps-take_datetime s log) λ observed_at.
        Keeps-bind
          (Keeps-append s log p r.did r.key observed_at (record {
            input_sequence = message.seq;
            sender_fingerprint = fingerprint;
            sender_authenticated = is_signed message;
            policy_decision = action_text event.decision;
            policy_reason = event.reason;
            outcome = kind_text event.kind;
            receipt_sha256 = event.receipt_sha256;
            response_sequence = event.reply_seq;
          }))
          λ _. Keeps-pure tt

-- `move_cursor` goes from `P` to `Q`.
pub Triple-move_cursor :
    {P : Pred} {Q : Pred} (p : Primitives) (r : Responder) (sequence : ℕ)
    → ((w : World) (t : AgentState)
        → advance_cursor r.room sequence w.state ≡ ok t
        → P w
        → Q (record w { state = t }))
    → Triple P (move_cursor p r sequence) (λ _. Q) (λ _. P)
unfolding move_cursor
Triple-move_cursor {P} {Q} p r sequence step =
    bind (λ s w. P w × (s ≡ w.state)) (Triple-gets (λ w. w.state))
      λ s.
        bind (λ t w. (P w × (s ≡ w.state)) × (advance_cursor r.room sequence s ≡ ok t))
          (weaken (Triple-lift (advance_cursor r.room sequence s)) (λ w h. h) (λ _ w h. h)
            (λ _ w h. h.0))
          λ t. given λ e.
            Triple-put_state t
              λ w h. step w t (subst (λ x. advance_cursor r.room sequence x ≡ ok t) (h.1) e) (h.0)

-- What a clear leaves of the journal that was there.
abbrev pub cleared_if : Bool → Option File → Option File
cleared_if true journal = none
cleared_if false journal = journal

-- After a raise: the journal is as it was, or the cursor is durable and the journal gone.
pub record Interrupted (room : String) (sequence : ℕ) (old v : View) : Type 0 where
  pub quiet : Quiet room old v
  pub journal :
      (v.journal_file ≡ old.journal_file) ⊎ ((v.journal_file ≡ none) × Durable room sequence v)

pub record Persisted (room : String) (sequence : ℕ) (clears : Bool) (old v : View) : Type 0 where
  pub quiet : Quiet room old v
  pub durable : Durable room sequence v
  pub journal : v.journal_file ≡ cleared_if clears old.journal_file

module _ (p : Primitives) (r : Responder) (old : View) (seq : ℕ) where
  abbrev Failed : Error → Pred
  Failed _ w = Interrupted r.room seq old (view w)

  abbrev Before : Pred
  Before w = Quiet r.room old (view w) × (w.journal_file ≡ old.journal_file)

  abbrev Moved : Pred
  Moved w =
      (Quiet r.room old (view w) × (w.journal_file ≡ old.journal_file))
      × (cursor_for w.state r.room ≡ seq)

  abbrev Saved : Pred
  Saved w =
      (Quiet r.room old (view w) × (w.journal_file ≡ old.journal_file))
      × Durable r.room seq (view w)

  abbrev Cleared : Pred
  Cleared w = (Quiet r.room old (view w) × (w.journal_file ≡ none)) × Durable r.room seq (view w)

  abbrev Ended : Bool → Pred
  Ended clears w = Persisted r.room seq clears old (view w)

  before : (w : World) → Before w → Failed state_error w
  before w h = record { quiet = h.0; journal = inl h.1 }

  saved : (w : World) → Saved w → Failed state_error w
  saved w h = record { quiet = h.0.0; journal = inl h.0.1 }

  Triple-clear_delivery : Triple Saved (clear_delivery p r) (λ _. Cleared) Failed
  unfolding clear_delivery
  Triple-clear_delivery =
      handle Failed
        (weaken
          (Triple-clear {P = Saved} {Q = Cleared}
            (Stable-view λ v.
              (Quiet r.room old v × (v.journal_file ≡ old.journal_file)) × Durable r.room seq v)
            (Stable-view λ v. (Quiet r.room old v × (v.journal_file ≡ none)) × Durable r.room seq v)
            (λ w h e. ((h.0.0, e), h.1))
            (λ w h. ((quiet_without w h.0.0, refl), durable_without w h.1)))
          (λ w h. h) (λ _ w h. h)
          (λ _ w h. elim h [
            | inl a ↦ saved w a
            | inr b ↦ record { quiet = b.0.0; journal = inr (b.0.1, b.1) }
          ]))
        λ e. Triple-raise (uncertain_delivery e)
    where
      quiet_without :
          (w : World)
          → Quiet r.room old (view w)
          → Quiet r.room old (view (record w { journal_file = none }))
      quiet_without w q = record { wire = q.wire; nonces = q.nonces }

      durable_without :
          (w : World)
          → Durable r.room seq (view w)
          → Durable r.room seq (view (record w { journal_file = none }))
      durable_without w d = record { saved = d.saved; at_cursor = d.at_cursor }

  Triple-clear_if :
      (clears : Bool) → Triple Saved (when clears (clear_delivery p r)) (λ _. Ended clears) Failed
  Triple-clear_if true =
      weaken Triple-clear_delivery (λ w h. h)
        (λ _ w h. record { quiet = h.0.0; durable = h.1; journal = h.0.1 }) (λ _ w h. h)
  Triple-clear_if false = returns tt λ w h. record { quiet = h.0.0; durable = h.1; journal = h.0.1 }

  Triple-saved : Triple Moved save (λ _. Saved) Failed
  Triple-saved =
      weaken
        (Triple-save {P = Moved} {Q = Saved}
          (Stable-view λ v.
            (Quiet r.room old v × (v.journal_file ≡ old.journal_file))
            × (cursor_for v.state r.room ≡ seq))
          (Stable-view
            λ v. (Quiet r.room old v × (v.journal_file ≡ old.journal_file)) × Durable r.room seq v)
          (λ w h. (
            (record { wire = h.0.0.wire; nonces = h.0.0.nonces }, h.0.1),
            record { saved = refl; at_cursor = h.1 },
          )))
        (λ w h. h) (λ _ w h. h) (λ _ w h. elim h [ inl a ↦ before w a.0 | inr b ↦ saved w b ])

  Triple-persist_cursor :
      (kind : EventKind)
      → Triple Moved (persist_cursor p r kind) (λ _. Ended (is_sent kind && r.has_journal)) Failed
  unfolding persist_cursor
  Triple-persist_cursor kind =
      bind (λ _. Saved)
        (handle Failed Triple-saved λ e. Triple-raise (uncertain_state (is_sent kind) e))
        λ _. Triple-clear_if (is_sent kind && r.has_journal)

  moves :
      (w : World) (t : AgentState)
      → advance_cursor r.room seq w.state ≡ ok t
      → Before w
      → Moved (record w { state = t })
  moves w t e (quiet, journal) = (
    (
      record {
        wire = quiet.wire;
        nonces = rw ((advance_cursor-eq r.room seq w.state t e).1) (quiet.nonces);
      },
      journal,
    ),
    cursor_for-advance_cursor r.room seq w.state t e,
  )

module _ (p : Primitives) (r : Responder) (message : RoomMessage) (event : Event) (w : World) where
  -- With `send`, a call of `_persist_processed_message` sends nothing and reserves no nonce. Where it
  -- returns, the state file holds the state, whose cursor is the message's sequence, and the journal
  -- is gone if a reply was sent, and as it was otherwise. Where it raises, the journal is as it was,
  -- or gone with the state file at that cursor.
  pub persist_processed_message-Persisted :
      r.send ≡ true
      → Ends
          (λ _ w'.
            Persisted r.room message.seq (is_sent event.kind && r.has_journal) (view w) (view w'))
          (λ _ w'. Interrupted r.room message.seq (view w) (view w'))
          (persist_processed_message p r message event w)
  unfolding persist_processed_message
  persist_processed_message-Persisted sends =
      (bind {P = λ v. view v ≡ view w} (λ _. Before p r (view w) message.seq)
          (weaken
            (Keeps-when (r.send && r.has_audit_log) (
              Keeps-append_audit_record {P = Before p r (view w) message.seq}
                (Stable-view λ v. Quiet r.room (view w) v × (v.journal_file ≡ w.journal_file))
                (λ v f h. (record { wire = h.0.wire; nonces = h.0.nonces }, h.1)) p r message
                event))
            (λ v h. unchanged v h) (λ _ v h. h) (λ _ v h. before p r (view w) message.seq v h))
          λ _.
            bind (λ _. Moved p r (view w) message.seq)
              (weaken (Triple-move_cursor p r message.seq (moves p r (view w) message.seq))
                (λ v h. h) (λ _ v h. h) (λ _ v h. before p r (view w) message.seq v h))
              λ _.
                Triple-when_true r.send (persist_cursor p r event.kind) sends
                  (Triple-persist_cursor p r (view w) message.seq event.kind)).at
        w refl
    where
      unchanged : (v : World) → view v ≡ view w → Before p r (view w) message.seq v
      unchanged v h = (
        record { wire = ap View.wire h; nonces = ap (λ x. x.state.nonces) h },
        ap View.journal_file h,
      )
