-- ===== src/Capabilities/Frame.antt =====
-- Reading the capability policy changes nothing.
use technocore_safe_agent.Base.{Option, none, some, leb, capability_error, os_error}
use technocore_safe_agent.Crypto.Library.{Primitives}
use technocore_safe_agent.World.{File}
use technocore_safe_agent.Exec.{os_error_as}
use technocore_safe_agent.Exec.Triple.{
  Keeps, Pred, Keeps-bind, Keeps-raise, Keeps-lift, Keeps-try_except, Keeps-require,
}
use technocore_safe_agent.Exec.Frame.{Stable, Keeps-os_call}
use technocore_safe_agent.Capabilities.{parse_policy}
use technocore_safe_agent.Capabilities.Limiter.{
  take_policy_file, read_policy, load, decoded_content,
}

module _ {P : Pred} (s : Stable P) where
  Keeps-take_policy_file : Keeps P take_policy_file
  unfolding take_policy_file
  Keeps-take_policy_file = record { at = λ w h. s.policy_files w _ h }

  Keeps-read_policy : (file : Option File) → Keeps P (read_policy file)
  unfolding read_policy
  Keeps-read_policy none = Keeps-raise os_error
  Keeps-read_policy (some file) = Keeps-bind (Keeps-os_call s) λ _.
      Keeps-bind (Keeps-os_call s) λ _.
        Keeps-bind (Keeps-require file.is_regular capability_error) λ _.
          Keeps-bind (Keeps-require file.is_private capability_error) λ _.
            Keeps-bind (Keeps-require file.is_owned capability_error) λ _.
              Keeps-bind (Keeps-os_call s) λ _.
                Keeps-bind (Keeps-require (leb file.size 65_536) capability_error)
                  λ _. Keeps-lift (decoded_content file.content)

  pub Keeps-load : (p : Primitives) → Keeps P (load p)
  unfolding load
  Keeps-load p = Keeps-bind Keeps-take_policy_file λ file.
      Keeps-bind
        (Keeps-try_except (Keeps-read_policy file)
          (λ e. Keeps-raise (os_error_as capability_error e)))
        λ payload. Keeps-lift (parse_policy p payload)
