-- ===== src/Recovery/Settle.antt =====
-- `_finalize_recovery` of delivery_recovery.py leaves no journal and a durable state that covers it.
use technocore_safe_agent.Base.{
  ℕ, ◌≤◌, String, ◌≡◌, refl, none, some, List, inl, inr, max, ok, arith,
}
use technocore_safe_agent.Crypto.Library.{Primitives}
use technocore_safe_agent.State.{AgentState, advance_cursor, cursor_for, observe_nonce}
use technocore_safe_agent.State.Payload
use technocore_safe_agent.State.Laws.{
  stored_nonce, observe_nonce-le, advance_cursor-eq, cursor_for-advance_cursor,
}
use technocore_safe_agent.State.Durability.{Triple-save}
use technocore_safe_agent.World.{Envelope, written}
use technocore_safe_agent.Exec.Triple.{
  Pred, Triple, bind, handle, weaken, given, Triple-lift, Triple-gets, Triple-raise,
}
use technocore_safe_agent.Exec.Frame.{View, view, Stable-view, Triple-put_state}
use technocore_safe_agent.Delivery.{DeliveryRecord}
use technocore_safe_agent.Delivery.Journal.{clear}
use technocore_safe_agent.Delivery.Durability.{Triple-clear, Triple-acknowledge}
use technocore_safe_agent.Recovery.{persist_recovered_state, finalize_recovery, uncertain_recovery}

-- The stored nonce and the cursor cover the record.
pub record Covers (room : String) (d : DeliveryRecord) (s : AgentState) : Type 0 where
  pub nonce : d.nonce ≤ stored_nonce room s
  pub cursor : d.input_sequence ≤ cursor_for s room

-- The state file holds the state, which covers the record, and no journal is left.
pub record Settled (room : String) (d : DeliveryRecord) (v : View) : Type 0 where
  pub covers : Covers room d v.state
  pub saved : v.state_file ≡ some (written (Payload.to_payload v.state))
  pub no_journal : v.journal_file ≡ none

-- `G` is what is known of the wire.
module _ (G : List Envelope → Type 0) (p : Primitives) (room : String) (d : DeliveryRecord) where
  abbrev Known : Pred
  Known w = G w.wire

  abbrev Covered : Pred
  Covered w = G w.wire × Covers room d w.state

  abbrev Saved : Pred
  Saved w =
      (G w.wire × Covers room d w.state)
      × (w.state_file ≡ some (written (Payload.to_payload w.state)))

  abbrev Over : Pred
  Over w = G w.wire × Settled room d (view w)

  covers :
      (s t : AgentState)
      → advance_cursor room
          (max (cursor_for (observe_nonce room d.nonce s) room) d.input_sequence)
          (observe_nonce room d.nonce s)
        ≡ ok t
      → Covers room d t
  covers s t e =
      let observed = observe_nonce room d.nonce s in
      let sequence = max (cursor_for observed room) d.input_sequence in
      record {
        nonce =
            rw (advance_cursor-eq room sequence observed t e).1
              ((observe_nonce-le room d.nonce s).1);
        cursor = omega (arith, cursor_for-advance_cursor room sequence observed t e);
      }

  Triple-persist : Triple Known (persist_recovered_state room d) (λ _. Saved) (λ _. Known)
  unfolding persist_recovered_state
  Triple-persist =
      bind (λ s w. G w.wire × (s ≡ w.state)) (Triple-gets (λ w. w.state))
        λ s.
          let observed = observe_nonce room d.nonce s in
          let sequence = max (cursor_for observed room) d.input_sequence in
          bind (λ _. Known) (Triple-put_state observed λ w h. h.0)
            λ _.
              bind (λ t w. G w.wire × (advance_cursor room sequence observed ≡ ok t))
                (Triple-lift (advance_cursor room sequence observed))
                λ t. given λ e.
                  bind (λ _. Covered) (Triple-put_state t λ w h. (h, covers s t e))
                    λ _.
                      weaken
                        (Triple-save {P = Covered} {Q = Saved}
                          (Stable-view λ v. G v.wire × Covers room d v.state)
                          (Stable-view λ v.
                            (G v.wire × Covers room d v.state)
                            × (v.state_file ≡ some (written (Payload.to_payload v.state))))
                          (λ w h. (h, refl)))
                        (λ w h. h) (λ _ w h. h) (λ _ w h. elim h [ inl a ↦ a.0 | inr b ↦ b.0.0 ])

  Triple-clear_saved : Triple Saved clear (λ _. Over) (λ _. Known)
  Triple-clear_saved =
      weaken
        (Triple-clear {P = Saved} {Q = Over}
          (Stable-view λ v.
            (G v.wire × Covers room d v.state)
            × (v.state_file ≡ some (written (Payload.to_payload v.state))))
          (Stable-view λ v. G v.wire × Settled room d v)
          (λ w h e. (h.0.0, record { covers = h.0.1; saved = h.1; no_journal = e }))
          (λ w h. (h.0.0, record { covers = h.0.1; saved = h.1; no_journal = refl })))
        (λ w h. h) (λ _ w h. h) (λ _ w h. elim h [ inl a ↦ a.0.0 | inr b ↦ b.0 ])

  pub Triple-finalize_recovery :
      (n : ℕ) → Triple Known (finalize_recovery p room d n) (λ _. Over) (λ _. Known)
  unfolding finalize_recovery
  Triple-finalize_recovery n =
      handle (λ _. Known)
        (bind (λ _. Known)
          (weaken
            (Triple-acknowledge {P = Known} {Q = Known} (Stable-view λ v. G v.wire)
              (Stable-view λ v. G v.wire) p n (λ w d' s h l e. h))
            (λ w h. h) (λ _ w h. h) (λ _ w h. elim h [ inl a ↦ a | inr b ↦ b ]))
          λ _. bind (λ _. Saved) Triple-persist λ _. Triple-clear_saved)
        λ e. Triple-raise (uncertain_recovery e)
