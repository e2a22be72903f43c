-- ===== src/Exec/Frame.antt =====
-- Predicates on the durable and the shared part of the world, which no script of answers touches,
-- and the rules of the file operations for them.
use technocore_safe_agent.Base.{ℕ, String, List, Option, Error, ◌⊎◌, inl, inr, os_error}
use technocore_safe_agent.State.{AgentState}
use technocore_safe_agent.World.{
  World, File, ByteFile, Envelope, Fault, works, fails, crashes, Reply, Reading, Issue, next_or,
}
use technocore_safe_agent.Exec.{
  raise, modify, put_state, os_call, outcome_of, stage, atomic_write, remove_temporary, os_error_as,
}
use technocore_safe_agent.Exec.Triple.{
  Pred, Either, Ends, Triple, Keeps, bind, handle, weaken, Triple-raise, Keeps-raise,
}

-- `P` says nothing of the scripts.
pub record Stable (P : Pred) : Type 0 where
  pub faults : (w : World) (x : List Fault) → P w → P (record w { faults = x })
  pub replies : (w : World) (x : List Reply) → P w → P (record w { replies = x })
  pub clock_ns : (w : World) (x : List ℕ) → P w → P (record w { clock_ns = x })
  pub clock : (w : World) (x : List Reading) → P w → P (record w { clock = x })
  pub datetimes : (w : World) (x : List String) → P w → P (record w { datetimes = x })
  pub policy_files : (w : World) (x : List (Option File)) → P w → P (record w { policy_files = x })
  pub issues : (w : World) (x : List Issue) → P w → P (record w { issues = x })
  pub writes : (w : World) (x : List ℕ) → P w → P (record w { writes = x })

os_call-Ends :
    (P : Pred) (fault : Fault) (w : World)
    → P w
    → Ends {A = Unit {0}} (λ _. P) (λ _. P) (outcome_of fault, w)
os_call-Ends P works w h = h
os_call-Ends P fails w h = h
os_call-Ends P crashes w h = h

module _ {P : Pred} (s : Stable P) where
  pub Keeps-os_call : Keeps P os_call
  unfolding os_call
  Keeps-os_call = record { at = λ w h. os_call-Ends P (next_or works w.faults) _ (s.faults w _ h) }

pub Keeps-os_error_as :
    {A : Type 0} {P : Pred} (e error : Error) → Keeps P (raise {A = A} (os_error_as e error))
Keeps-os_error_as e error = Keeps-raise (os_error_as e error)

-- What the process keeps in memory and on disk, and what it has sent.
pub record View : Type 0 where
  pub state : AgentState
  pub state_file : Option File
  pub journal_file : Option File
  pub audit_file : Option ByteFile
  pub wire : List Envelope

abbrev pub view : World → View
view w = record {
  state = w.state;
  state_file = w.state_file;
  journal_file = w.journal_file;
  audit_file = w.audit_file;
  wire = w.wire;
}

pub Stable-view : (P : View → Type 0) → Stable (λ w. P (view w))
Stable-view P = record {
  faults = λ w x h. h;
  replies = λ w x h. h;
  clock_ns = λ w x h. h;
  clock = λ w x h. h;
  datetimes = λ w x h. h;
  policy_files = λ w x h. h;
  issues = λ w x h. h;
  writes = λ w x h. h;
}

pub Stable-and : {P : Pred} {F : Type 0} → Stable P → Stable (λ w. P w × F)
Stable-and s = record {
  faults = λ w x h. (s.faults w x h.0, h.1);
  replies = λ w x h. (s.replies w x h.0, h.1);
  clock_ns = λ w x h. (s.clock_ns w x h.0, h.1);
  clock = λ w x h. (s.clock w x h.0, h.1);
  datetimes = λ w x h. (s.datetimes w x h.0, h.1);
  policy_files = λ w x h. (s.policy_files w x h.0, h.1);
  issues = λ w x h. (s.issues w x h.0, h.1);
  writes = λ w x h. (s.writes w x h.0, h.1);
}

or_map : {A B C D : Type 0} → (A → C) → (B → D) → A ⊎ B → C ⊎ D
or_map f g (inl a) = inl (f a)
or_map f g (inr b) = inr (g b)

pub Stable-or : {P Q : Pred} → Stable P → Stable Q → Stable (λ w. P w ⊎ Q w)
unfolding or_map
Stable-or s t = record {
  faults = λ w x. or_map (s.faults w x) (t.faults w x);
  replies = λ w x. or_map (s.replies w x) (t.replies w x);
  clock_ns = λ w x. or_map (s.clock_ns w x) (t.clock_ns w x);
  clock = λ w x. or_map (s.clock w x) (t.clock w x);
  datetimes = λ w x. or_map (s.datetimes w x) (t.datetimes w x);
  policy_files = λ w x. or_map (s.policy_files w x) (t.policy_files w x);
  issues = λ w x. or_map (s.issues w x) (t.issues w x);
  writes = λ w x. or_map (s.writes w x) (t.writes w x);
}

-- A write goes from `P` to `Q` in one step: after a return `Q` holds, after a raise one of the two.
module _ {P Q : Pred} (sp : Stable P) (sq : Stable Q) (replace : World → World)
    (step : (w : World) → P w → Q (replace w)) where
  Triple-call : Triple P os_call (λ _. P) (Either P Q)
  Triple-call = weaken (Keeps-os_call sp) (λ w h. h) (λ _ w h. h) (λ _ w h. inl h)

  Triple-last_call : Triple Q os_call (λ _. Q) (Either P Q)
  Triple-last_call = weaken (Keeps-os_call sq) (λ w h. h) (λ _ w h. h) (λ _ w h. inr h)

  Triple-replace : Triple P (modify replace) (λ _. Q) (Either P Q)
  unfolding modify
  Triple-replace = record { at = step }

  Triple-stage : Triple P (stage replace) (λ _. Q) (Either P Q)
  unfolding stage
  Triple-stage =
      bind (λ _. P) Triple-call
        λ _.
          bind (λ _. P) Triple-call
            λ _. bind (λ _. P) Triple-call λ _. bind (λ _. P) Triple-call λ _. Triple-replace

  abbrev Both : Pred
  Both w = P w ⊎ Q w

  Triple-remove_temporary :
      (e error : Error) → Triple Both (remove_temporary e error) (λ _. Q) (Either P Q)
  Triple-remove_temporary e os_error =
      bind (λ _. Both) (Keeps-os_call (Stable-or sp sq)) λ _. Triple-raise e
  Triple-remove_temporary e error = Triple-raise error

  as_error :
      (e error : Error)
      → Triple P (raise {A = Unit {0}} (os_error_as e error)) (λ _. P) (Either P Q)
  as_error e error = weaken (Keeps-os_error_as e error) (λ w h. h) (λ _ w h. h) (λ _ w h. inl h)

  as_last_error :
      (e error : Error)
      → Triple Both (raise {A = Unit {0}} (os_error_as e error)) (λ _. Q) (Either P Q)
  as_last_error e error = Triple-raise (os_error_as e error)

  pub Triple-atomic_write : (e : Error) → Triple P (atomic_write e replace) (λ _. Q) (Either P Q)
  unfolding atomic_write
  Triple-atomic_write e =
      bind (λ _. P) (handle (λ _. P) (Keeps-os_call sp) (as_error e))
        λ _.
          bind (λ _. Q) (handle (λ _. Both) Triple-stage (Triple-remove_temporary e))
            λ _. handle (λ _. Both) Triple-last_call (as_last_error e)

pub Keeps-atomic_write :
    {P : Pred}
    → Stable P
    → (e : Error) (replace : World → World) → ((w : World) → P w → P (replace w))
    → Keeps P (atomic_write e replace)
Keeps-atomic_write s e replace step =
    weaken (Triple-atomic_write s s replace step e) (λ w h. h) (λ _ w h. h)
      (λ _ w h. elim h [ inl a ↦ a | inr b ↦ b ])

pub Stable-both : {P Q : Pred} → Stable P → Stable Q → Stable (λ w. P w × Q w)
Stable-both s t = record {
  faults = λ w x h. (s.faults w x h.0, t.faults w x h.1);
  replies = λ w x h. (s.replies w x h.0, t.replies w x h.1);
  clock_ns = λ w x h. (s.clock_ns w x h.0, t.clock_ns w x h.1);
  clock = λ w x h. (s.clock w x h.0, t.clock w x h.1);
  datetimes = λ w x h. (s.datetimes w x h.0, t.datetimes w x h.1);
  policy_files = λ w x h. (s.policy_files w x h.0, t.policy_files w x h.1);
  issues = λ w x h. (s.issues w x h.0, t.issues w x h.1);
  writes = λ w x h. (s.writes w x h.0, t.writes w x h.1);
}

pub Triple-put_state :
    {P Q : Pred} {E : Error → Pred} (t : AgentState)
    → ((w : World) → P w → Q (record w { state = t }))
    → Triple P (put_state t) (λ _. Q) E
unfolding put_state modify
Triple-put_state t h = record { at = h }
