-- ===== src/Audit/Frame.antt =====
-- The audit log's `append` changes the log alone, and `verify` nothing.
use technocore_safe_agent.Base.{
  ℕ, String, Bool, Option, none, some, List, zero, suc, audit_error, true, false, not,
  if◌then◌else◌, ◌++◌, ◌∷◌, [], ◌+◌, leb, length, ◌==◌, string_eq, protocol_value_as,
}
use technocore_safe_agent.Crypto.Library.{Primitives, PrivateKey}
use technocore_safe_agent.World.{World, ByteFile}
use technocore_safe_agent.Exec.{Exec, os_call, modify, os_error_as}
use technocore_safe_agent.Exec.Triple.{
  Pred, Keeps, Keeps-bind, Keeps-pure, Keeps-raise, Keeps-lift, Keeps-gets, Keeps-try_except,
  Keeps-require, Keeps-modify,
}
use technocore_safe_agent.Exec.Frame.{Stable, Keeps-os_call}
use technocore_safe_agent.Crypto.{validate_did, did_from_private_key}
use technocore_safe_agent.Audit.{verify_bytes, payload_of, validate_payload, entry_hash}
use technocore_safe_agent.Audit.Log.{
  Observation, append, append_locked, append_bytes, set_audit, take_datetime, take_write, write_all,
  check_open, read_bounded, is_empty, opened, may_extend, entry_for, wrapper_for, max_audit_bytes,
  guarded, verify, verify_file, same_head,
}

pub Keeps-if :
    {A : Type 0} {P : Pred} (b : Bool) {m n : Exec A}
    → Keeps P m
    → Keeps P n
    → Keeps P (if b then m else n)
Keeps-if true h k = h
Keeps-if false h k = k

-- `verify` reads the log.
module _ {P : Pred} (s : Stable P) where
  Keeps-check_open : (file : ByteFile) → Keeps P (check_open file)
  unfolding check_open
  Keeps-check_open file = Keeps-bind (Keeps-os_call s) λ _.
      Keeps-bind (Keeps-require file.is_regular audit_error)
        λ _. Keeps-bind (Keeps-require file.is_private audit_error) λ _. Keeps-os_call s

  Keeps-read_bounded : (file : ByteFile) → Keeps P (read_bounded file)
  unfolding read_bounded
  Keeps-read_bounded file =
      Keeps-bind (Keeps-os_call s)
        λ _. Keeps-bind (Keeps-require _ audit_error) λ _. Keeps-pure file.bytes

  Keeps-verify_file :
      (p : Primitives) (expected_head : Option String) (file : Option ByteFile)
      → Keeps P (verify_file p expected_head file)
  unfolding verify_file
  Keeps-verify_file p expected_head none = Keeps-raise audit_error
  Keeps-verify_file p expected_head (some file) =
      Keeps-bind
        (Keeps-try_except
          (Keeps-bind (Keeps-os_call s)
            λ _. Keeps-bind (Keeps-check_open file) λ _. Keeps-read_bounded file)
          (λ e. Keeps-raise (os_error_as audit_error e)))
        λ raw. Keeps-bind (Keeps-lift (verify_bytes p raw)) λ summary.
          Keeps-bind (Keeps-require (same_head p expected_head summary) audit_error)
            λ _. Keeps-pure summary

  pub Keeps-verify :
      (p : Primitives) (expected_head : Option String) → Keeps P (verify p expected_head)
  unfolding verify
  Keeps-verify p expected_head =
      Keeps-bind (Keeps-gets (λ w. w.audit_file)) λ file. Keeps-verify_file p expected_head file

-- `log` : what is known does not depend on the log.
module _ {P : Pred} (s : Stable P)
    (log : (w : World) (f : ByteFile) → P w → P (set_audit f w)) where
  pub Keeps-take_datetime : Keeps P take_datetime
  unfolding take_datetime
  Keeps-take_datetime = record { at = λ w h. s.datetimes w _ h }

  Keeps-take_write : (remaining : List ℕ) → Keeps P (take_write remaining)
  unfolding take_write
  Keeps-take_write remaining = record { at = λ w h. s.writes w _ h }

  Keeps-set_audit : (file : ByteFile) → Keeps P (modify (set_audit file))
  Keeps-set_audit file = Keeps-modify (set_audit file) λ w h. log w file h

  Keeps-append_bytes : (bs : List ℕ) → Keeps P (modify (append_bytes bs))
  Keeps-append_bytes bs = Keeps-modify (append_bytes bs) λ w h. log w _ h

  Keeps-write_all : (fuel : ℕ) (remaining : List ℕ) → Keeps P (write_all fuel remaining)
  unfolding write_all
  Keeps-write_all zero remaining = Keeps-pure tt
  Keeps-write_all (suc fuel) remaining = Keeps-if (is_empty remaining) (Keeps-pure tt) (
      Keeps-bind (Keeps-os_call s) λ _. Keeps-bind (Keeps-take_write remaining) λ parts.
        Keeps-bind (Keeps-require (not (is_empty parts.0)) audit_error)
          λ _. Keeps-bind (Keeps-append_bytes parts.0) λ _. Keeps-write_all fuel parts.1)

  Keeps-append_locked :
      (p : Primitives) (issuer : String) (key : PrivateKey) (observed_at : String) (o : Observation)
      → Keeps P (append_locked p issuer key observed_at o)
  unfolding append_locked
  Keeps-append_locked p issuer key observed_at o = Keeps-bind (Keeps-os_call s) λ _.
      Keeps-bind (Keeps-gets (λ w. opened w.audit_file)) λ file.
        Keeps-bind (Keeps-set_audit file) λ _. Keeps-bind (Keeps-check_open s file) λ _.
          Keeps-bind (Keeps-read_bounded s file) λ raw.
            Keeps-bind (Keeps-lift (verify_bytes p raw)) λ summary.
              Keeps-bind (Keeps-require (may_extend summary.issuer issuer) audit_error) λ _.
                let payload = payload_of (entry_for summary issuer observed_at o) in
                Keeps-bind (Keeps-lift (validate_payload p payload)) λ _.
                  Keeps-bind (Keeps-lift (wrapper_for p key payload)) λ wrapper.
                    let rendered = p.canonical_json wrapper ++ 10 ∷ [] in
                    Keeps-bind (Keeps-require (leb (length rendered) 16_384) audit_error) λ _.
                      Keeps-bind
                        (Keeps-require (leb (length raw + length rendered) max_audit_bytes)
                          audit_error)
                        λ _.
                          Keeps-bind (Keeps-write_all (length rendered) rendered)
                            λ _. Keeps-bind (Keeps-os_call s) λ _. Keeps-pure wrapper

  Keeps-guarded_call : Keeps P (guarded os_call)
  unfolding guarded
  Keeps-guarded_call =
      Keeps-try_except (Keeps-os_call s) (λ e. Keeps-raise (os_error_as audit_error e))

  pub Keeps-append :
      (p : Primitives) (issuer : String) (key : PrivateKey) (observed_at : String) (o : Observation)
      → Keeps P (append p issuer key observed_at o)
  unfolding append
  Keeps-append p issuer key observed_at o =
      Keeps-bind (Keeps-lift (protocol_value_as audit_error (validate_did issuer))) λ valid_issuer.
        Keeps-bind (Keeps-lift (did_from_private_key key)) λ derived.
          Keeps-bind (Keeps-require (derived == valid_issuer) audit_error) λ _.
            Keeps-bind Keeps-guarded_call λ _.
              Keeps-bind
                (Keeps-try_except (Keeps-append_locked p valid_issuer key observed_at o)
                  (λ e. Keeps-raise (os_error_as audit_error e)))
                λ wrapper.
                  Keeps-bind Keeps-guarded_call
                    λ _. Keeps-bind Keeps-guarded_call λ _. Keeps-pure (entry_hash p wrapper)
