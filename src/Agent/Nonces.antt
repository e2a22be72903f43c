-- ===== src/Agent/Nonces.antt =====
-- No nonce stands twice: those on the wire grow, and stay at or below the stored one.
use mathlib.Core.Path.{subst}
use technocore_safe_agent.Base.{
  ℕ, ◌+◌, ◌≤◌, ◌<◌, String, false, ◌≡◌, refl, List, [], ◌∷◌, inl, inr, ok, arith,
}
use technocore_safe_agent.Base.Dict.{Dict, get_or}
use technocore_safe_agent.Json.{nat}
use technocore_safe_agent.Crypto.{sign_room_message}
use technocore_safe_agent.Crypto.Decimal.{render}
use technocore_safe_agent.Crypto.Library.{Primitives}
use technocore_safe_agent.State.{AgentState, next_nonce}
use technocore_safe_agent.State.Laws.{stored_nonce, next_nonce-IsNextNonce}
use technocore_safe_agent.World.{World, Envelope}
use technocore_safe_agent.Exec.Triple.{
  Pred, Ends, Triple, Keeps, bind, handle, weaken, returns, given, Triple-lift, Triple-gets,
  Triple-raise, Keeps-bind, Keeps-lift, Keeps-pure, Keeps-when, Keeps-raise, Keeps-try_except,
}
use technocore_safe_agent.Exec.Frame.{Stable, Triple-put_state}
use technocore_safe_agent.Protocol.{RoomSnapshot}
use technocore_safe_agent.Protocol.Request.{envelope_of, acknowledged}
use technocore_safe_agent.Protocol.Client.{send_signed_message}
use technocore_safe_agent.Delivery.{create}
use technocore_safe_agent.Delivery.Journal.{require_empty}
use technocore_safe_agent.Delivery.Durability.{
  Triple-require_empty, Triple-prepare, Triple-acknowledge,
}
use technocore_safe_agent.Agent.Actions.{Keeps-request, Keeps-take_clock_ns, Triple-post}
use technocore_safe_agent.Agent.Evidence.{IsMadeOf, envelope_of-IsMadeOf}
use technocore_safe_agent.Agent.Frame.{Holds, Stable-Holds, Keeps-process_snapshot}
use technocore_safe_agent.Agent.{
  Responder, send_text, reserve_nonce, prepare_delivery, post_reply, acknowledge_delivery,
  uncertain_send, uncertain_delivery, process_snapshot,
}

-- The nonces of the signed writes, the latest first, are decimal numbers that fall strictly, from
-- below `n`.
abbrev pub NoncesBelow : ℕ → List Envelope → Type 0
NoncesBelow n [] = Unit
NoncesBelow n (e ∷ es) = (k : ℕ) × (e.nonce ≡ render k) × (k < n) × NoncesBelow k es

pub NoncesBelow-mono : (m n : ℕ) (es : List Envelope) → m ≤ n → NoncesBelow m es → NoncesBelow n es
NoncesBelow-mono m n [] h b = tt
NoncesBelow-mono m n (e ∷ es) h (k, same, below, rest) = (k, same, omega arith, rest)

-- The writes have used each nonce once, and none above the stored one.
abbrev pub NoncesUsed : String → Dict ℕ → List Envelope → Type 0
NoncesUsed room nonces wire = NoncesBelow (get_or room 0 nonces + 1) wire

module _ (p : Primitives) (r : Responder) where
  abbrev Used : Pred
  Used = Holds (NoncesUsed r.room)

  -- The stored nonce is `n`, and no write has used it.
  abbrev Unused : ℕ → Pred
  Unused n = Holds (λ nonces wire. (get_or r.room 0 nonces ≡ n) × NoncesBelow n wire)

  Stable-Used : Stable Used
  Stable-Used = Stable-Holds (NoncesUsed r.room)

  Stable-Unused : (n : ℕ) → Stable (Unused n)
  Stable-Unused n = Stable-Holds (λ nonces wire. (get_or r.room 0 nonces ≡ n) × NoncesBelow n wire)

  used : (n : ℕ) (w : World) → Unused n w → Used w
  used n w (same, below) = rw same (NoncesBelow-mono n (n + 1) w.wire (omega arith) below)

  unused :
      (clock_value : ℕ) (w : World) (selected : ℕ × AgentState)
      → next_nonce r.room clock_value w.state ≡ ok selected
      → Used w
      → Unused (selected.0) (record w { state = selected.1 })
  unused clock_value w selected e h =
      let next = next_nonce-IsNextNonce r.room clock_value w.state (selected.0) (selected.1) e in
      (
        next.remembered,
        NoncesBelow-mono (stored_nonce r.room w.state + 1) (selected.0) w.wire
            (omega (arith, next.grows)) h,
      )

  Triple-reserve_nonce : Triple Used (reserve_nonce p r) Unused (λ _. Used)
  unfolding reserve_nonce
  Triple-reserve_nonce =
      bind (λ _. Used) (Keeps-take_clock_ns Stable-Used)
        λ clock_value.
          bind (λ s w. Used w × (s ≡ w.state)) (Triple-gets (λ w. w.state))
            λ s.
              bind
                (λ selected w.
                  (Used w × (s ≡ w.state)) × (next_nonce r.room clock_value s ≡ ok selected))
                (weaken (Triple-lift (next_nonce r.room clock_value s)) (λ w h. h) (λ _ w h. h)
                  (λ _ w h. h.0))
                λ selected. given λ e.
                  bind (λ _. Unused (selected.0))
                    (Triple-put_state (selected.1) λ w h.
                      unused clock_value w selected
                        (subst (λ x. next_nonce r.room clock_value x ≡ ok selected) (h.1) e) (h.0))
                    λ _. returns (selected.0) λ w h. h

  Keeps-require_empty : Keeps Used (require_empty p)
  Keeps-require_empty =
      weaken (Triple-require_empty {P = Used} Stable-Used p) (λ w h. h) (λ _ w h. h.0) (λ _ w h. h)

  Keeps-prepare_delivery :
      (n sequence : ℕ) (text signature : String)
      → Keeps (Unused n) (prepare_delivery p r sequence n text signature)
  unfolding prepare_delivery
  Keeps-prepare_delivery n sequence text signature =
      Keeps-bind (Keeps-lift (create p r.room sequence r.did n text signature)) λ d.
        weaken
          (Triple-prepare {P = Unused n} {Q = Unused n} (Stable-Unused n) (Stable-Unused n) d
            (λ w h. h))
          (λ w h. h) (λ _ w h. h) (λ _ w h. elim h [ inl a ↦ a | inr b ↦ b ])

  Triple-post_reply :
      (n : ℕ) (text signature : String)
      → Triple (Unused n) (post_reply p r n text signature) (λ _. Used) (λ _. Used)
  unfolding post_reply send_signed_message
  Triple-post_reply n text signature =
      handle (λ _. Used)
        (bind
          (λ e w. Unused n w × (envelope_of p r.client r.room r.did signature (nat n) text ≡ ok e))
          (weaken (Triple-lift (envelope_of p r.client r.room r.did signature (nat n) text))
            (λ w h. h) (λ _ w h. h) (λ _ w h. used n w h))
          λ e. given λ made.
            bind (λ _. Used)
              (Triple-post e λ w h. (
                n,
                IsMadeOf.nonce_eq
                    (envelope_of-IsMadeOf p r.client r.room r.did signature n text e made),
                omega (arith, h.0),
                h.1,
              ))
              λ _.
                Keeps-bind (Keeps-request Stable-Used)
                  λ payload. Keeps-lift (acknowledged e payload))
        λ e. Triple-raise (uncertain_send e)

  Keeps-acknowledge_delivery : (n : ℕ) → Keeps Used (acknowledge_delivery p r n)
  unfolding acknowledge_delivery
  Keeps-acknowledge_delivery n =
      Keeps-try_except
        (Keeps-bind
          (weaken
            (Triple-acknowledge {P = Used} {Q = Used} Stable-Used Stable-Used p n
              (λ w d s h l e. h))
            (λ w h. h) (λ _ w h. h) (λ _ w h. elim h [ inl a ↦ a | inr b ↦ b ]))
          λ _. Keeps-pure tt)
        λ e. Keeps-raise (uncertain_delivery e)

  pub Keeps-send_text : (text : String) (sequence : ℕ) → Keeps Used (send_text p r text sequence)
  unfolding send_text
  Keeps-send_text text sequence = Keeps-bind (Keeps-when r.has_journal Keeps-require_empty) λ _.
      bind Unused Triple-reserve_nonce λ n.
        bind (λ _. Unused n)
          (weaken (Keeps-lift (sign_room_message p r.key r.room n text)) (λ w h. h) (λ _ w h. h)
            (λ _ w h. used n w h))
          λ signed.
            bind (λ _. Unused n)
              (weaken
                (Keeps-when r.has_journal (Keeps-prepare_delivery n sequence signed.0 signed.1))
                (λ w h. h) (λ _ w h. h) (λ _ w h. used n w h))
              λ _.
                bind (λ _. Used) (Triple-post_reply n signed.0 signed.1)
                  λ posted.
                    Keeps-bind (Keeps-when r.has_journal (Keeps-acknowledge_delivery posted.seq))
                      λ _. Keeps-pure posted

module _ (p : Primitives) (r : Responder) (snapshot : RoomSnapshot) (w : World) where
  -- If the nonces of the writes sent so far fall strictly from the room's stored nonce, the latest
  -- first, then they do so after `process_snapshot` too, whether it returns or raises: no write
  -- uses a nonce twice.
  pub process_snapshot-NoncesUsed :
      NoncesUsed r.room w.state.nonces w.wire
      → Ends
          (λ _ w'. NoncesUsed r.room w'.state.nonces w'.wire)
          (λ _ w'. NoncesUsed r.room w'.state.nonces w'.wire)
          (process_snapshot p r snapshot w)
  process_snapshot-NoncesUsed =
      (Keeps-process_snapshot (NoncesUsed r.room) p r (λ _. Keeps-send_text p r) snapshot).at w

  -- Without `send`, whatever the room holds, `process_snapshot` sends nothing and reserves no nonce.
  pub process_snapshot-dry :
      r.send ≡ false
      → Ends
          (λ _ w'. (w'.state.nonces ≡ w.state.nonces) × (w'.wire ≡ w.wire))
          (λ _ w'. (w'.state.nonces ≡ w.state.nonces) × (w'.wire ≡ w.wire))
          (process_snapshot p r snapshot w)
  process_snapshot-dry dry =
      (Keeps-process_snapshot (λ nonces wire. (nonces ≡ w.state.nonces) × (wire ≡ w.wire)) p r
          (λ sends. cc) snapshot).at
        w (refl, refl)
