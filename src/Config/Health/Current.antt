-- ===== src/Config/Health/Current.antt =====
-- What an inspection that finds no problem guarantees of the state file.
use mathlib.Core.Path.{subst}
use technocore_safe_agent.Base.{
  ℕ, ◌≤◌, String, Bool, true, false, Option, none, some, List, [], ◌∷◌, ◌++◌, string_eq, ◌≡◌, refl,
  ◌∙◌, arith, ok, state_error, Error,
}
use technocore_safe_agent.Base.Dict.{lookup}
use technocore_safe_agent.Json.{Value}
use technocore_safe_agent.Crypto.Library.{Primitives}
use technocore_safe_agent.Crypto.Decimal.{parse}
use technocore_safe_agent.State.{AgentState, fresh}
use technocore_safe_agent.State.Payload.{from_payload}
use technocore_safe_agent.State.Store
use technocore_safe_agent.World.{File, json_of, json_of-eq}
use technocore_safe_agent.Exec.Triple.{
  Pred, Triple, bind, handle, weaken, given, returns, raises, Triple-gets, Triple-lift,
  Keeps-try_except,
}
use technocore_safe_agent.Exec.Frame.{Stable, Stable-view, Keeps-os_call, Keeps-os_error_as}
use technocore_safe_agent.Config.{AgentConfig}
use technocore_safe_agent.Config.Health.{
  Disk, Checked, caught, is_state_error, judge_state, state_problems, cursor_problems,
  nonce_problems,
}
use technocore_safe_agent.Config.Health.Checks.{state_check}
use technocore_safe_agent.Config.Health.Ready.{Triple-look}

-- What `AgentState.load` returns for a file.
abbrev pub StateLoaded : Option File → AgentState → Type 0
StateLoaded none state = state ≡ fresh
StateLoaded (some file) state =
    (payload : Value) × (file.content ≡ some payload) × (from_payload payload ≡ ok state)

abbrev pub file_is : Option File → Pred
file_is file w = w.state_file ≡ file

pub Stable-file_is : (file : Option File) → Stable (file_is file)
Stable-file_is file = Stable-view (λ v. v.state_file ≡ file)

Triple-load_file :
    (kept file : Option File)
    → Triple
        (file_is kept)
        (Store.load_file file)
        (λ state w. file_is kept w × StateLoaded file state)
        (λ _. file_is kept)
unfolding Store.load_file
Triple-load_file kept none = returns fresh λ w h. (h, refl)
Triple-load_file kept (some file) =
    bind (λ _. file_is kept)
      (Keeps-try_except (Keeps-os_call (Stable-file_is kept))
        (λ e. Keeps-os_error_as state_error e))
      λ _.
        bind (λ v w. file_is kept w × (json_of state_error file ≡ ok v)) (Triple-lift _)
          λ v. given λ decoded.
            weaken (Triple-lift (from_payload v)) (λ w h. h)
              (λ state w h. (h.0, (v, json_of-eq state_error file decoded, h.1))) (λ _ w h. h)

Triple-load_state :
    (file : Option File)
    → Triple
        (file_is file)
        Store.load
        (λ state w. file_is file w × StateLoaded file state)
        (λ _. file_is file)
unfolding Store.load
Triple-load_state file =
    bind (λ found w. file_is file w × (found ≡ w.state_file)) (Triple-gets (λ w. w.state_file))
      λ found.
        weaken
          (given {F = found ≡ file} λ same.
            weaken (Triple-load_file file found) (λ w h. h)
              (λ state w h. (h.0, subst (λ f. StateLoaded f state) same h.1)) (λ _ w h. h))
          (λ w h. (h.0, h.1 ∙ h.0)) (λ _ w h. h) (λ _ w h. h)

-- The state has the configured room's cursor and nonce, and neither lies behind the configuration.
pub record UpToDate (state : AgentState) (config : AgentConfig) : Type 0 where
  pub cursor : ℕ
  pub nonce : ℕ
  pub cursor_field : lookup config.room state.cursors ≡ some cursor
  pub nonce_field : lookup config.room state.nonces ≡ some nonce
  pub cursor_bound : (sequence : ℕ) → config.provisioned_seq ≡ some sequence → sequence ≤ cursor
  pub nonce_bound : parse config.provision_nonce ≤ nonce

pub append-empty : (xs ys : List String) → xs ++ ys ≡ [] → (xs ≡ []) × (ys ≡ [])
append-empty [] ys h = (refl, h)
append-empty (x ∷ xs) ys h = cc

cursor_lem :
    (found provisioned : Option ℕ)
    → cursor_problems found provisioned ≡ []
    → (cursor : ℕ) × (found ≡ some cursor)
      × ((sequence : ℕ) → provisioned ≡ some sequence → sequence ≤ cursor)
cursor_lem none provisioned h = cc
cursor_lem (some cursor) none h = (cursor, refl, λ sequence e. cc)
cursor_lem (some cursor) (some provisioned) h = (cursor, refl, λ sequence e. ground arith)

nonce_lem :
    (found : Option ℕ) (provision : ℕ)
    → nonce_problems found provision ≡ []
    → (nonce : ℕ) × (found ≡ some nonce) × (provision ≤ nonce)
nonce_lem none provision h = cc
nonce_lem (some nonce) provision h = (nonce, refl, ground arith)

state_problems-UpToDate :
    (state : AgentState) (config : AgentConfig)
    → state_problems state config ≡ []
    → UpToDate state config
unfolding state_problems
state_problems-UpToDate state config h =
    let (of_cursor, of_nonce) =
      append-empty (cursor_problems (lookup config.room state.cursors) config.provisioned_seq) _
        h in
    let (cursor, cursor_field, cursor_bound) =
      cursor_lem (lookup config.room state.cursors) config.provisioned_seq of_cursor in
    let (nonce, nonce_field, nonce_bound) =
      nonce_lem (lookup config.room state.nonces) (parse config.provision_nonce) of_nonce in
    record {
      cursor = cursor;
      nonce = nonce;
      cursor_field = cursor_field;
      nonce_field = nonce_field;
      cursor_bound = cursor_bound;
      nonce_bound = nonce_bound;
    }

-- What the check of the state guarantees without a problem.
abbrev pub Current : Option File → Option AgentConfig → Checked (Unit {0}) → Type 0
Current file found c =
    c.problems ≡ []
    → (config : AgentConfig) → found ≡ some config
    → (state : AgentState) × StateLoaded file state × UpToDate state config

Triple-judge_state :
    (file : Option File) (state : AgentState) (config : Option AgentConfig)
    → StateLoaded file state
    → Triple
        (file_is file)
        (judge_state state config)
        (λ c w. file_is file w × Current file config c)
        (λ _. file_is file)
unfolding judge_state
Triple-judge_state file state none loaded = returns _ λ w h. (h, λ _ config e. cc)
Triple-judge_state file state (some own) loaded = returns _ λ w h. (
  h,
  λ e config same.
      (state, loaded, subst (UpToDate state) (some-eq same) (state_problems-UpToDate state own e)),
)
  where
    some-eq : {a b : AgentConfig} → some a ≡ some b → a ≡ b
    some-eq h = cc

pub Triple-state_check :
    (p : Primitives) (disk : Disk) (file : Option File) (config : Option AgentConfig)
    → Triple
        (file_is file)
        (state_check p disk config)
        (λ c w. file_is file w × Current file config c)
        (λ _. file_is file)
unfolding state_check
Triple-state_check p disk file config =
    handle (λ _. file_is file)
      (Triple-look disk.state_looks (returns _ λ w h. (h, λ e. cc)) (
        bind (λ state w. file_is file w × StateLoaded file state) (Triple-load_state file)
          λ state. given λ loaded. Triple-judge_state file state config loaded))
      (λ e. caught_Current (is_state_error e) e)
  where
    caught_Current :
        (is_caught : Bool) (e : Error)
        → Triple
            (file_is file)
            (caught is_caught "state_invalid" tt e)
            (λ c w. file_is file w × Current file config c)
            (λ _. file_is file)
    caught_Current true e = returns _ λ w h. (h, λ e. cc)
    caught_Current false e = raises e λ w h. h
