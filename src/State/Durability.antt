-- ===== src/State/Durability.antt =====
-- `save` of state.py replaces the state file in one step, for every script of faults.
use mathlib.Core.Path.{subst}
use technocore_safe_agent.Base.{◌≡◌, sym, inl, inr, state_error}
use technocore_safe_agent.State.Store.{save, set_state_file}
use technocore_safe_agent.World.{World}
use technocore_safe_agent.Exec.Triple.{Pred, Either, Triple, Keeps, bind, weaken, Triple-gets}
use technocore_safe_agent.Exec.Frame.{
  Stable, Stable-both, Stable-view, Keeps-os_call, Triple-atomic_write,
}

-- From `P` to `Q`; after a raise one of the two holds.
module _ {P Q : Pred} (sp : Stable P) (sq : Stable Q)
    (step : (w : World) → P w → Q (set_state_file w.state w)) where
  pub Triple-save : Triple P save (λ _. Q) (Either P Q)
  unfolding save
  Triple-save =
      bind (λ _. P) (weaken (Keeps-os_call sp) (λ w h. h) (λ _ w h. h) (λ _ w h. inl h))
        λ _.
          bind (λ s w. P w × (s ≡ w.state)) (Triple-gets (λ w. w.state))
            λ s.
              weaken
                (Triple-atomic_write (Stable-both sp (Stable-view λ v. s ≡ v.state)) sq
                  (set_state_file s)
                  (λ w h. subst (λ t. Q (set_state_file t w)) (sym h.1) (step w h.0)) state_error)
                (λ w h. h) (λ _ w h. h) (λ _ w h. elim h [ inl a ↦ inl a.0 | inr b ↦ inr b ])

pub Keeps-save :
    {P : Pred} → Stable P → ((w : World) → P w → P (set_state_file w.state w)) → Keeps P save
Keeps-save s step =
    weaken (Triple-save s s step) (λ w h. h) (λ _ w h. h)
      (λ _ w h. elim h [ inl a ↦ a | inr b ↦ b ])
