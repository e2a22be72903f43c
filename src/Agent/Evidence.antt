-- ===== src/Agent/Evidence.antt =====
-- What a signed write leaves as evidence: the envelope on the wire, and the journal's record of it.
use technocore_safe_agent.Base.{
  ℕ, ◌<◌, String, ◌≡◌, Option, none, some, ◌∷◌, ◌⊎◌, ok, arith, require, >>=-eq-ok,
  protocol_value_error, ◌&&◌, ◌==◌, length, nat_eq,
}
use technocore_safe_agent.Json.{nat}
use technocore_safe_agent.Crypto.{validate_room, validate_did, validate_nonce}
use technocore_safe_agent.Crypto.Chars.{codes}
use technocore_safe_agent.Crypto.Decimal.{render, render_int}
use technocore_safe_agent.Crypto.Library.{Primitives}
use technocore_safe_agent.State.Laws.{stored_nonce}
use technocore_safe_agent.World.{File, Envelope, written}
use technocore_safe_agent.Exec.Frame.{View}
use technocore_safe_agent.Protocol.Request.{TechnocoreClient, envelope_of, canonical_signature}
use technocore_safe_agent.Delivery.{DeliveryRecord, to_payload, from_payload}
use technocore_safe_agent.Delivery.Records.{Describes}
use technocore_safe_agent.Delivery.Durability.{LoadedFrom}

-- Nothing has been sent, and the state file and the audit log are as they were.
pub record Unsent (old v : View) : Type 0 where
  pub wire : v.wire ≡ old.wire
  pub state_file : v.state_file ≡ old.state_file
  pub audit_file : v.audit_file ≡ old.audit_file

-- `nonce` was never reserved for the room, and is remembered.
pub record Reserved (room : String) (nonce : ℕ) (old v : View) : Type 0 where
  pub fresh : stored_nonce room old.state < nonce
  pub remembered : stored_nonce room v.state ≡ nonce
  pub state_file : v.state_file ≡ old.state_file
  pub audit_file : v.audit_file ≡ old.audit_file

-- One envelope is sent, and `r`, in the journal, is the evidence of it.
pub record InFlight (room : String) (input_sequence : ℕ) (r : DeliveryRecord) (old v : View)
    : Type 0 where
  pub envelope : Envelope
  pub sent_once : v.wire ≡ envelope ∷ old.wire
  pub in_room : envelope.room ≡ room
  pub described : Describes r envelope
  pub journaled : v.journal_file ≡ some (written (to_payload r))
  pub answers : r.input_sequence ≡ input_sequence
  pub reserved : Reserved room r.nonce old v

-- An envelope has the fields that it is made of.
pub record IsMadeOf (e : Envelope) (room did signature : String) (nonce : ℕ) (text : String)
    : Type 0 where
  pub room_eq : e.room ≡ room
  pub did_eq : e.did ≡ did
  pub signature_eq : e.signature ≡ signature
  pub nonce_eq : e.nonce ≡ render nonce
  pub text_eq : e.text ≡ text

pub validate_room-eq : (s : String) {t : String} → validate_room s ≡ ok t → t ≡ s
unfolding validate_room
validate_room-eq s h = ground arith

validate_did-eq : (s : String) {t : String} → validate_did s ≡ ok t → t ≡ s
unfolding validate_did
validate_did-eq s h = ground arith

validate_nonce-nat : (n : ℕ) {t : String} → validate_nonce (nat n) ≡ ok t → t ≡ render n
unfolding validate_nonce render_int
validate_nonce-nat n h = ground arith

pub envelope_of-IsMadeOf :
    (p : Primitives) (client : TechnocoreClient) (room did signature : String) (nonce : ℕ)
    (text : String) (e : Envelope)
    → envelope_of p client room did signature (nat nonce) text ≡ ok e
    → IsMadeOf e room did signature nonce text
unfolding envelope_of
envelope_of-IsMadeOf p client room did signature nonce text e h =
    let (_, e₁, h₁) = >>=-eq-ok (validate_room room) _ h in
    let (_, e₂, h₂) = >>=-eq-ok (validate_did did) _ h₁ in
    let (_, e₃, h₃) = >>=-eq-ok (validate_nonce (nat nonce)) _ h₂ in
    let (_, _, h₄) =
      >>=-eq-ok
        (require (length (codes signature) == 86 && canonical_signature (codes signature))
          protocol_value_error)
        _ h₃ in
    ground (arith, validate_room-eq room e₁, validate_did-eq did e₂, validate_nonce-nat nonce e₃)

pub reread :
    (p : Primitives) (file : Option File) (d d' : DeliveryRecord)
    → file ≡ some (written (to_payload d))
    → LoadedFrom p file (some d')
    → from_payload p (to_payload d) ≡ ok d'
reread p none d d' e loaded = cc
reread p (some file) d d' e (d'', payload, same, content, parsed) =
    ground (arith, e, same, content, parsed)

-- After a raise: nothing was sent, or the one envelope that was is in the journal.
abbrev pub Evidenced : String → ℕ → View → View → Type 0
Evidenced room input_sequence old v =
    Unsent old v ⊎ ((record' : DeliveryRecord) × InFlight room input_sequence record' old v)
