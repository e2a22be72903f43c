-- ===== src/Exec/Returns.antt =====
-- What holds of the value that an action returns, in any world.
use technocore_safe_agent.Base.{Bool, true, false, ◌≡◌, refl, if◌then◌else◌, Error, Result, ok, err}
use technocore_safe_agent.World.{World}
use technocore_safe_agent.Exec.{Exec, pure, raise, lift, try_except, ◌>>=◌}
use technocore_safe_agent.Exec.Triple.{Ends, Triple, Keeps, Pred, bind, handle, returns, raises}

abbrev pub Returns : {A : Type 0} → Exec A → (A → Type 0) → Type 0
Returns m F = Triple (λ _. Unit {0}) m (λ a _. F a) (λ _ _. Unit {0})

any_Ends : {A : Type 0} (r : Result A × World) → Ends (λ _ _. Unit {0}) (λ _ _. Unit {0}) r
any_Ends (ok a, w) = tt
any_Ends (err e, w) = tt

pub Returns-any : {A : Type 0} (m : Exec A) → Returns m (λ _. Unit {0})
Returns-any m = record { at = λ w _. any_Ends (m w) }

pub Returns-pure : {A : Type 0} {F : A → Type 0} (a : A) → F a → Returns (pure a) F
Returns-pure a h = returns a λ _ _. h

pub Returns-raise : {A : Type 0} {F : A → Type 0} (e : Error) → Returns (raise e) F
Returns-raise e = raises e λ _ _. tt

lift_Ends :
    {A : Type 0} (r s : Result A) (w : World)
    → r ≡ s
    → Ends {A = A} (λ a _. r ≡ ok a) (λ _ _. Unit {0}) (s, w)
lift_Ends r (ok a) w h = h
lift_Ends r (err e) w h = tt

pub Returns-lift : {A : Type 0} (r : Result A) → Returns (lift r) (λ a. r ≡ ok a)
unfolding lift
Returns-lift r = record { at = λ w _. lift_Ends r r w refl }

pub Returns-bind :
    {A B : Type 0} {m : Exec A} {f : A → Exec B} {F : B → Type 0} (R : A → Type 0)
    → Returns m R
    → ((a : A) → R a → Returns (f a) F)
    → Returns (m >>= f) F
Returns-bind R h k = bind (λ a _. R a) h λ a. record { at = λ w x. (k a x).at w tt }

pub Returns-if :
    {A : Type 0} {F : A → Type 0} (b : Bool) {m n : Exec A}
    → (b ≡ true → Returns m F)
    → (b ≡ false → Returns n F)
    → Returns (if b then m else n) F
Returns-if true h k = h refl
Returns-if false h k = k refl

pub Returns-try_except :
    {A : Type 0} {F : A → Type 0} {m : Exec A} {handler : Error → Exec A}
    → Returns m F
    → ((e : Error) → Returns (handler e) F)
    → Returns (try_except m handler) F
Returns-try_except h k = handle (λ _ _. Unit {0}) h k

both_Ends :
    {A : Type 0} (F : A → Type 0) (P : Pred) (r : Result A × World)
    → Ends (λ _. P) (λ _. P) r
    → Ends (λ a _. F a) (λ _ _. Unit {0}) r
    → Ends (λ a w. P w × F a) (λ _. P) r
both_Ends F P (ok a, w) h k = (h, k)
both_Ends F P (err e, w) h k = h

-- What is kept, and what holds of the value.
pub Triple-returns :
    {A : Type 0} {F : A → Type 0} {P : Pred} {m : Exec A}
    → Keeps P m
    → Returns m F
    → Triple P m (λ a w. P w × F a) (λ _. P)
Triple-returns {F} {P} {m} h k = record { at = λ w x. both_Ends F P (m w) (h.at w x) (k.at w tt) }
