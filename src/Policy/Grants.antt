-- ===== src/Policy/Grants.antt =====
-- The grant of a sender in the capability file, and what it allows.
use technocore_safe_agent.Base.{
  String, Bool, true, false, ◌≡◌, refl, sym, ap, ◌∙◌, Option, none, some, List, [], ◌∷◌, ◌⊎◌, inl,
  inr, ok, string_eq, str_eq_iff, contains, leb, capability_error, os_error, arith, if◌then◌else◌,
  Bool-cases, nat_eq,
}
use technocore_safe_agent.Base.Dict.{lookup}
use technocore_safe_agent.Json.{Value}
use technocore_safe_agent.Crypto.Chars.{codes}
use technocore_safe_agent.Crypto.Library.{Primitives}
use technocore_safe_agent.Github.{ends_with}
use technocore_safe_agent.World.{World, File, next_or}
use technocore_safe_agent.Exec.{os_call, require, os_error_as, pure, ◌>>=◌}
use technocore_safe_agent.Exec.Triple.{Triple, bind, weaken, returns}
use technocore_safe_agent.Exec.Returns.{
  Returns, Returns-any, Returns-raise, Returns-lift, Returns-bind, Returns-try_except,
}
use technocore_safe_agent.Capabilities.{
  CapabilityGrant, CapabilityPolicy, parse_policy, grant_for, scope_allows, any_scope_allows,
  allows_repository, count_slashes, starts_with, but_last,
}
use technocore_safe_agent.Capabilities.Limiter.{
  take_policy_file, read_policy, load, decoded_content,
}
use technocore_safe_agent.Policy.{
  CommandPolicy, ParsedCommand, grant_of, misses_command, denied_by_grant,
}

-- The capability file that the next read finds, decoded.
abbrev pub IsLoaded : Primitives → World → CapabilityPolicy → Type 0
IsLoaded p w capabilities =
    (file : File) × (payload : Value) × (next_or none w.policy_files ≡ some file)
    × (file.content ≡ some payload)
    × (parse_policy p payload ≡ ok capabilities)

-- Without a capability file there is no grant; with one, it is what stands under the sender's DID.
abbrev pub IsGrantOf : Primitives → World → String → Bool → Option CapabilityGrant → Type 0
IsGrantOf p w did false grant = grant ≡ none
IsGrantOf p w did true grant =
    (capabilities : CapabilityPolicy) × IsLoaded p w capabilities
    × (grant ≡ lookup did capabilities.principals)

-- The repository is the scope, or one of the owner's whose scope is `owner/*`.
abbrev pub InScope : String → String → Type 0
InScope candidate scope =
    (candidate ≡ scope)
    ⊎ (ends_with (codes "/*") (codes scope) ≡ true)
      × (starts_with (codes candidate) (but_last (codes scope)) ≡ true)
      × (count_slashes (codes candidate) ≡ 1)

abbrev pub CommandGranted : Option CapabilityGrant → String → Type 0
CommandGranted none name = Unit
CommandGranted (some g) name = contains g.commands name ≡ true

abbrev pub RepositoryGranted : Primitives → Option CapabilityGrant → Option String → Type 0
RepositoryGranted p none repository = Unit
RepositoryGranted p (some g) none = Unit
RepositoryGranted p (some g) (some repository) =
    (scope : String) × (contains g.repositories scope ≡ true)
    × InScope (p.casefold repository) scope

pub misses_command-CommandGranted :
    (grant : Option CapabilityGrant) (name : String)
    → misses_command grant name ≡ false
    → CommandGranted grant name
misses_command-CommandGranted none name h = tt
misses_command-CommandGranted (some g) name h = ground arith

scope_allows-InScope :
    (candidate scope : String) → scope_allows candidate scope ≡ true → InScope candidate scope
unfolding scope_allows
scope_allows-InScope candidate scope h = elim (Bool-cases (ends_with (codes "/*") (codes scope))) [
  | inl all ↦ inr (all, ground arith, ground arith)
  | inr one ↦ inl (ground (arith, str_eq_iff candidate scope))
]

any_scope_allows-InScope :
    (candidate : String) (scopes : List String)
    → any_scope_allows candidate scopes ≡ true
    → (scope : String) × (contains scopes scope ≡ true) × InScope candidate scope
unfolding any_scope_allows
any_scope_allows-InScope candidate [] h = cc
any_scope_allows-InScope candidate (scope ∷ scopes) h =
    elim (Bool-cases (scope_allows candidate scope)) [
      | inl allowed ↦ (
        scope,
        ground (arith, str_eq_iff scope scope),
        scope_allows-InScope candidate scope allowed,
      )
      | inr other ↦
          let (found, among, covers) = any_scope_allows-InScope candidate scopes (ground arith) in
          (found, ground arith, covers)
    ]

pub denied_by_grant-RepositoryGranted :
    (p : Primitives) (grant : Option CapabilityGrant) (parsed : ParsedCommand)
    (repository : Option String)
    → parsed.repository ≡ repository
    → denied_by_grant p grant parsed ≡ false
    → RepositoryGranted p grant repository
unfolding denied_by_grant allows_repository
denied_by_grant-RepositoryGranted p none parsed repository e h = tt
denied_by_grant-RepositoryGranted p (some g) parsed none e h = tt
denied_by_grant-RepositoryGranted p (some g) parsed (some repository) e h =
    any_scope_allows-InScope (p.casefold repository) g.repositories (ground arith)

module _ (p : Primitives) (w : World) where
  Returns-read_policy :
      (found : Option File)
      → Returns
          (read_policy found)
          (λ payload. (file : File) × (found ≡ some file) × (file.content ≡ some payload))
  unfolding read_policy
  Returns-read_policy none = Returns-raise os_error
  Returns-read_policy (some file) =
      Returns-bind (λ _. Unit {0}) (Returns-any os_call)
        λ _ _.
          Returns-bind (λ _. Unit {0}) (Returns-any os_call)
            λ _ _.
              Returns-bind (λ _. Unit {0}) (Returns-any (require file.is_regular capability_error))
                λ _ _.
                  Returns-bind (λ _. Unit {0})
                    (Returns-any (require file.is_private capability_error))
                    λ _ _.
                      Returns-bind (λ _. Unit {0})
                        (Returns-any (require file.is_owned capability_error))
                        λ _ _.
                          Returns-bind (λ _. Unit {0}) (Returns-any os_call)
                            λ _ _.
                              Returns-bind (λ _. Unit {0})
                                (Returns-any (require (leb file.size 65_536) capability_error))
                                λ _ _.
                                  weaken (Returns-lift (decoded_content file.content)) (λ _ h. h)
                                    (λ payload _ h. (file, refl, content-eq file.content h))
                                    (λ _ _ h. h)
    where
      content-eq :
          (content : Option Value) {payload : Value}
          → decoded_content content ≡ ok payload
          → content ≡ some payload
      content-eq none h = cc
      content-eq (some payload) h = cc

  Triple-load :
      Triple (λ w'. w' ≡ w) (load p) (λ capabilities _. IsLoaded p w capabilities) (λ _ _. Unit {0})
  unfolding load take_policy_file ◌>>=◌
  Triple-load =
      bind (λ found _. found ≡ next_or none w.policy_files) taken
        λ found. record {
          at = λ w' same.
              (Returns-bind {F = λ capabilities. IsLoaded p w capabilities}
                  (λ payload. (file : File) × (found ≡ some file) × (file.content ≡ some payload))
                  (Returns-try_except (Returns-read_policy found)
                    (λ e. Returns-raise (os_error_as capability_error e)))
                  λ payload read.
                    weaken (Returns-lift (parse_policy p payload)) (λ _ h. h)
                      (λ capabilities _ parsed.
                        (read.0, payload, sym same ∙ read.1, read.2, parsed))
                      (λ _ _ h. h)).at
                w' tt;
        }
    where
      taken :
          Triple
            (λ w'. w' ≡ w)
            take_policy_file
            (λ found _. found ≡ next_or none w.policy_files)
            (λ _ _. Unit {0})
      taken = record { at = λ w' same. ap (λ (x : World). next_or none x.policy_files) same }

  pub Triple-grant_of :
      (policy : CommandPolicy) (did : String)
      → Triple
          (λ w'. w' ≡ w)
          (grant_of p policy did)
          (λ grant _. IsGrantOf p w did policy.has_capabilities grant)
          (λ _ _. Unit {0})
  unfolding grant_of grant_for
  Triple-grant_of policy did = by_kind policy.has_capabilities
    where
      by_kind :
          (capabilities : Bool)
          → Triple
              (λ w'. w' ≡ w)
              (if capabilities then (do found ← load p; pure (grant_for found did)) else pure none)
              (λ grant _. IsGrantOf p w did capabilities grant)
              (λ _ _. Unit {0})
      by_kind true =
          bind (λ capabilities _. IsLoaded p w capabilities) Triple-load
            λ capabilities. returns _ λ _ loaded. (capabilities, loaded, refl)
      by_kind false = returns none λ _ _. refl
