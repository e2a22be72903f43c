-- ===== src/Agent/SendText.antt =====
-- What a call of `_send_text` of agent.py leaves, however it ends.
use technocore_safe_agent.Base.{
  ℕ, String, true, ◌≡◌, refl, sym, ap, ◌∙◌, none, some, inl, ok, nat_eq,
}
use technocore_safe_agent.Crypto.{sign_room_message}
use technocore_safe_agent.Crypto.Library.{Primitives}
use technocore_safe_agent.World.{World, File}
use technocore_safe_agent.Exec.Triple.{
  Ends, Triple, bind, weaken, returns, given, Triple-lift, Triple-when_true,
}
use technocore_safe_agent.Exec.Frame.{View, view, Stable-view}
use technocore_safe_agent.Delivery.Journal.{require_empty}
use technocore_safe_agent.Delivery.Durability.{Triple-require_empty}
use technocore_safe_agent.Agent.{Responder, send_text}
use technocore_safe_agent.Agent.Evidence.{Unsent, Evidenced}
use technocore_safe_agent.Agent.WriteAhead.{
  Ready, Failed, Chosen, HeldFor, SomeSent, AcknowledgedBy, Triple-reserve_nonce,
  Triple-prepare_delivery, Triple-post_reply, Triple-acknowledge_delivery,
}

module _ (p : Primitives) (r : Responder) (old : View) (seq : ℕ) where
  Triple-send_text :
      (text : String)
      → r.has_journal ≡ true
      → Triple
          (λ w. view w ≡ old)
          (send_text p r text seq)
          (λ posted. (AcknowledgedBy p r old seq) posted.seq)
          (Failed p r old seq)
  unfolding send_text
  Triple-send_text text journaled =
      bind (λ _. (Ready p r old seq))
        (Triple-when_true r.has_journal (require_empty p) journaled (
          weaken (Triple-require_empty {P = λ w. view w ≡ old} (Stable-view λ v. v ≡ old) p)
            (λ w h. h) (λ _ w h. ready w h.0 h.1) (λ _ w h. inl (unsent_of w h))))
        λ _. bind (Chosen p r old seq) (Triple-reserve_nonce p r old seq) λ n.
          bind
            (λ signed w.
              (Chosen p r old seq) n w × (sign_room_message p r.key r.room n text ≡ ok signed))
            (weaken (Triple-lift _) (λ w h. h) (λ _ w h. h) (λ _ w h. inl h.0))
            λ signed. given λ _.
              bind (λ _. (HeldFor p r old seq) n signed.0 signed.1)
                (Triple-when_true r.has_journal _ journaled
                  ((Triple-prepare_delivery p r old seq) n signed.0 signed.1))
                λ _.
                  bind (λ _. (SomeSent p r old seq))
                    ((Triple-post_reply p r old seq) n signed.0 signed.1)
                    λ posted.
                      bind (λ _. (AcknowledgedBy p r old seq) posted.seq)
                        (Triple-when_true r.has_journal _ journaled
                          ((Triple-acknowledge_delivery p r old seq) posted.seq))
                        λ _. returns posted λ w h. h
    where
      unsent_of : (w : World) → view w ≡ old → Unsent old (view w)
      unsent_of w h = record {
        wire = ap View.wire h;
        state_file = ap View.state_file h;
        audit_file = ap View.audit_file h;
      }

      ready : (w : World) → view w ≡ old → w.journal_file ≡ none → (Ready p r old seq) w
      ready w h e = (unsent_of w h, e, ap View.state h)

none-some : {f : File} → none ≡ some f → ⊥
none-some e = cc

module _ (p : Primitives) (r : Responder) (text : String) (input_sequence : ℕ) (w : World) where
  -- With a journal, a call of `_send_text` that returns has sent one envelope, under a nonce above
  -- the stored one of the room and now stored; the journal holds the acknowledged record of it and
  -- of the message it answers, below the reply's sequence. A call that raises, at any point and for
  -- any faults and answers, has sent nothing, or one such envelope that the journal's record describes.
  pub send_text-Evidenced :
      r.has_journal ≡ true
      → Ends
          (λ posted w'. AcknowledgedBy p r (view w) input_sequence posted.seq w')
          (λ _ w'. Evidenced r.room input_sequence (view w) (view w'))
          (send_text p r text input_sequence w)
  send_text-Evidenced journaled =
      (Triple-send_text p r (view w) input_sequence text journaled).at w refl

  -- While a journal file is there, with any content, `_send_text` raises: it sends nothing, and the
  -- files and the state are as before.
  pub send_text-Refused :
      (file : File)
      → r.has_journal ≡ true
      → w.journal_file ≡ some file
      → Ends (λ _ _. ⊥) (λ _ w'. view w' ≡ view w) (send_text p r text input_sequence w)
  unfolding send_text
  send_text-Refused file journaled present =
      (bind (λ _ _. ⊥)
          (Triple-when_true r.has_journal (require_empty p) journaled (
            weaken (Triple-require_empty {P = λ v. view v ≡ view w} (Stable-view λ v. v ≡ view w) p)
              (λ v h. h) (λ _ v h. absurd (still_there v h.0 h.1)) (λ _ v h. h)))
          λ _. record { at = λ v h. absurd h }).at
        w refl
    where
      still_there : (v : World) → view v ≡ view w → v.journal_file ≡ none → ⊥
      still_there v h e = none-some (sym e ∙ (ap View.journal_file h ∙ present))
