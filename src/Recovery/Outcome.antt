-- ===== src/Recovery/Outcome.antt =====
-- What a call of `recover_delivery` leaves, however it ends.
use mathlib.Core.Path.{subst}
use technocore_safe_agent.Base.{
  List, String, Bool, ◌≡◌, refl, ap, ◌&&◌, not, Option, none, some, inl, ok, ◌==◌, string_eq,
  delivery_error,
}
use technocore_safe_agent.Crypto.{validate_did, validate_room}
use technocore_safe_agent.Crypto.Library.{Primitives}
use technocore_safe_agent.World.{World, Reply}
use technocore_safe_agent.Exec.Triple.{
  Ends, Triple, bind, weaken, given, returns, Triple-lift, Keeps-lift, Keeps-require,
}
use technocore_safe_agent.Exec.Frame.{View, view, Stable-view}
use technocore_safe_agent.Protocol.Request.{TechnocoreClient}
use technocore_safe_agent.Delivery.{DeliveryRecord, verify_for_room}
use technocore_safe_agent.Delivery.Durability.{LoadedFrom, Triple-load}
use technocore_safe_agent.Agent.Evidence.{validate_room-eq}
use technocore_safe_agent.Recovery.Reads.{Unread, Unread-load, both}
use technocore_safe_agent.Recovery.Retry.{
  SentAtMost, Reported, Asked, Outcome, Failed, Triple-by_status,
}
use technocore_safe_agent.Recovery.{no_pending_delivery, recover_loaded, recover_delivery}

module _ (p : Primitives) (client : TechnocoreClient) (apply confirm_retry : Bool) (old : View)
    (replies : List Reply) where
  Triple-recover_loaded :
      (room did : String) (loaded : Option DeliveryRecord)
      → LoadedFrom p old.journal_file loaded
      → Triple
          (Asked p room apply confirm_retry old replies)
          (recover_loaded p client room did loaded apply confirm_retry)
          (Outcome p room apply confirm_retry old replies)
          (Failed p room apply confirm_retry old replies)
  Triple-recover_loaded room did none from =
      returns no_pending_delivery λ w h. (inl (ap View.wire h.0), h.0)
  Triple-recover_loaded room did (some d) from =
      bind (λ _. Asked p room apply confirm_retry old replies)
        (weaken (Keeps-lift (verify_for_room p room d)) (λ w h. h) (λ _ w h. h)
          (λ _ w h. inl (ap View.wire h.0)))
        λ _.
          bind (λ _. Asked p room apply confirm_retry old replies)
            (weaken (Keeps-require (d.did == did) delivery_error) (λ w h. h) (λ _ w h. h)
              (λ _ w h. inl (ap View.wire h.0)))
            λ _. Triple-by_status p room apply confirm_retry old replies d from client d.status refl

  abbrev Here : World → Type 0
  Here w = (view w ≡ old) × Unread replies w

  -- The room that the rest of the call works on is the one that was asked for.
  Triple-recover_delivery :
      (room did : String)
      → Triple
          (Asked p room apply confirm_retry old replies)
          (recover_delivery p client room did apply confirm_retry)
          (Outcome p room apply confirm_retry old replies)
          (Failed p room apply confirm_retry old replies)
  unfolding recover_delivery
  Triple-recover_delivery room did =
      bind (λ valid w. Here w × (validate_room room ≡ ok valid))
        (weaken (Triple-lift (validate_room room)) (λ w h. h) (λ _ w h. h)
          (λ _ w h. inl (ap View.wire h.0)))
        λ valid. given λ e.
          bind (λ _. Here)
            (weaken (Keeps-lift (validate_did did)) (λ w h. h) (λ _ w h. h)
              (λ _ w h. inl (ap View.wire h.0)))
            λ valid_did.
              bind (λ _. Here)
                (weaken (Keeps-require (not (confirm_retry && not apply)) delivery_error) (λ w h. h)
                  (λ _ w h. h) (λ _ w h. inl (ap View.wire h.0)))
                λ _.
                  bind (λ loaded w. Here w × LoadedFrom p old.journal_file loaded)
                    (weaken
                      (both (Triple-load {P = λ w. view w ≡ old} (Stable-view λ v. v ≡ old) p)
                        (Unread-load replies p))
                      (λ w h. h)
                      (λ loaded w h.
                        ((h.0.0, h.1), subst (λ v. LoadedFrom p v.journal_file loaded) h.0.0 h.0.1))
                      (λ _ w h. inl (ap View.wire h.0)))
                    λ loaded. given λ from.
                      subst
                        (λ (x : String).
                          Triple Here
                            (recover_loaded p client valid valid_did loaded apply confirm_retry)
                            (Outcome p x apply confirm_retry old replies)
                            (Failed p x apply confirm_retry old replies))
                        (validate_room-eq room e)
                        (Triple-recover_loaded valid valid_did loaded from)

module _ (p : Primitives) (client : TechnocoreClient) (room did : String)
    (apply confirm_retry : Bool) (w : World) where
  -- For any faults and answers, `recover_delivery` sends at most one envelope. It sends one only with
  -- `apply` and `confirm_retry`, for a pending record that the journal holds, with the record's own
  -- signature, nonce and text, and after the next reply was a snapshot of the room, complete from
  -- the record's input on, in which no message matches the record.
  -- Where it returns `delivery_recovered` or `delivery_retried`, the journal is gone and the state
  -- file holds a state whose nonce and cursor cover the record; where it returns another event,
  -- the state, the files and the wire are as they were.
  pub recover_delivery-Reported :
      Ends
        (λ result w'.
          SentAtMost p room (apply && confirm_retry) (view w) w.replies w'.wire
          × Reported p room (view w) result (view w'))
        (λ _ w'. SentAtMost p room (apply && confirm_retry) (view w) w.replies w'.wire)
        (recover_delivery p client room did apply confirm_retry w)
  recover_delivery-Reported =
      (Triple-recover_delivery p client apply confirm_retry (view w) w.replies room did).at w
        (refl, refl)
