-- ===== src/Exec/Triple.antt =====
-- Hoare triples for `Exec`, with a postcondition for the return and one for the raise, and one rule
-- for each way to build an action.
use technocore_safe_agent.Base.{
  Bool, true, false, if◌then◌else◌, Error, Result, ok, err, ◌≡◌, refl, ◌⊎◌,
}
use technocore_safe_agent.World.{World}
use technocore_safe_agent.Exec.{
  Exec, Done, pure, raise, lift, gets, modify, try_except, when, require, ◌>>=◌, continue, catch,
}

abbrev pub Pred : Type 1
Pred = World → Type 0

-- `Q a w` after a return of `a`, `E e w` after a raise of `e`.
abbrev pub Ends : {A : Type 0} → (A → Pred) → (Error → Pred) → Result A × World → Type 0
Ends Q E (ok a, w) = Q a w
Ends Q E (err e, w) = E e w

-- After a raise one of the two holds.
abbrev pub Either : Pred → Pred → Error → Pred
Either P Q _ w = P w ⊎ Q w

pub record Triple {A : Type 0} (P : Pred) (m : Exec A) (Q : A → Pred) (E : Error → Pred)
    : Type 0 where
  pub at : (w : World) → P w → Ends Q E (m w)

continue-Ends :
    {A B : Type 0} (R : A → Pred) (Q : B → Pred) (E : Error → Pred) (f : A → Exec B)
    (r : Result A × World)
    → Ends R E r
    → ((a : A) → Triple (R a) (f a) Q E)
    → Ends Q E (continue f r)
continue-Ends R Q E f (ok a, w) h k = (k a).at w h
continue-Ends R Q E f (err e, w) h k = h

catch-Ends :
    {A : Type 0} (Q : A → Pred) (F E : Error → Pred) (handler : Error → Exec A)
    (r : Result A × World)
    → Ends Q F r
    → ((e : Error) → Triple (F e) (handler e) Q E)
    → Ends Q E (catch handler r)
catch-Ends Q F E handler (ok a, w) h k = h
catch-Ends Q F E handler (err e, w) h k = (k e).at w h

pub weaken-Ends :
    {A : Type 0} (Q Q' : A → Pred) (E E' : Error → Pred) (r : Result A × World)
    → Ends Q E r
    → ((a : A) (w : World) → Q a w → Q' a w)
    → ((e : Error) (w : World) → E e w → E' e w)
    → Ends Q' E' r
weaken-Ends Q Q' E E' (ok a, w) h f g = f a w h
weaken-Ends Q Q' E E' (err e, w) h f g = g e w h

pub bind :
    {A B : Type 0} {P : Pred} {m : Exec A} {f : A → Exec B} {Q : B → Pred} {E : Error → Pred}
    (R : A → Pred)
    → Triple P m R E
    → ((a : A) → Triple (R a) (f a) Q E)
    → Triple P (m >>= f) Q E
unfolding ◌>>=◌
bind {m} {f} {Q} {E} R h k = record { at = λ w p. continue-Ends R Q E f (m w) (h.at w p) k }

pub handle :
    {A : Type 0} {P : Pred} {m : Exec A} {handler : Error → Exec A} {Q : A → Pred}
    {E : Error → Pred} (F : Error → Pred)
    → Triple P m Q F
    → ((e : Error) → Triple (F e) (handler e) Q E)
    → Triple P (try_except m handler) Q E
unfolding try_except
handle {m} {handler} {Q} {E} F h k = record {
  at = λ w p. catch-Ends Q F E handler (m w) (h.at w p) k;
}

pub weaken :
    {A : Type 0} {P P' : Pred} {m : Exec A} {Q Q' : A → Pred} {E E' : Error → Pred}
    → Triple P m Q E
    → ((w : World) → P' w → P w)
    → ((a : A) (w : World) → Q a w → Q' a w)
    → ((e : Error) (w : World) → E e w → E' e w)
    → Triple P' m Q' E'
weaken {m} {Q} {Q'} {E} {E'} h p f g = record {
  at = λ w x. weaken-Ends Q Q' E E' (m w) (h.at w (p w x)) f g;
}

module _ {A : Type 0} {Q : A → Pred} {E : Error → Pred} where
  pub Triple-pure : (a : A) → Triple (Q a) (pure a) Q E
  unfolding pure
  Triple-pure a = record { at = λ w h. h }

  pub Triple-raise : (e : Error) → Triple (E e) (raise e) Q E
  unfolding raise
  Triple-raise e = record { at = λ w h. h }

pub returns :
    {A : Type 0} {P : Pred} {Q : A → Pred} {E : Error → Pred} (a : A)
    → ((w : World) → P w → Q a w)
    → Triple P (pure a) Q E
unfolding pure
returns a h = record { at = h }

pub raises :
    {A : Type 0} {P : Pred} {Q : A → Pred} {E : Error → Pred} (e : Error)
    → ((w : World) → P w → E e w)
    → Triple P (raise e) Q E
unfolding raise
raises e h = record { at = h }

pub Triple-gets :
    {A : Type 0} {P : Pred} {E : Error → Pred} (f : World → A)
    → Triple P (gets f) (λ a w. P w × (a ≡ f w)) E
unfolding gets
Triple-gets f = record { at = λ w h. (h, refl) }

known-Ends :
    {A : Type 0} (P : Pred) (r s : Result A) (w : World)
    → P w
    → r ≡ s
    → Ends {A = A} (λ a w'. P w' × (r ≡ ok a)) (λ _. P) (s, w)
known-Ends P r (ok a) w h e = (h, e)
known-Ends P r (err x) w h e = h

pub Triple-lift :
    {A : Type 0} {P : Pred} (r : Result A) → Triple P (lift r) (λ a w. P w × (r ≡ ok a)) (λ _. P)
unfolding lift
Triple-lift {P} r = record { at = λ w h. known-Ends P r r w h refl }

pub Triple-modify :
    {P Q : Pred} {E : Error → Pred} (f : World → World)
    → ((w : World) → P w → Q (f w))
    → Triple P (modify f) (λ _. Q) E
unfolding modify
Triple-modify f h = record { at = h }

pub Triple-when_true :
    {P : Pred} {Q : Unit {0} → Pred} {E : Error → Pred} (b : Bool) (m : Done)
    → b ≡ true
    → Triple P m Q E
    → Triple P (when b m) Q E
Triple-when_true true m e h = h
Triple-when_true false m e h = cc

pub Triple-require :
    {P : Pred} (b : Bool) (e : Error) → Triple P (require b e) (λ _ w. P w × (b ≡ true)) (λ _. P)
Triple-require true e =
    weaken (Triple-pure {Q = λ _. _} tt) (λ w h. h) (λ _ w h. (h, refl)) (λ _ w h. h)
Triple-require {P} false e = Triple-raise e

pub Triple-if :
    {A : Type 0} {P : Pred} {Q : A → Pred} {E : Error → Pred} (b : Bool) {m n : Exec A}
    → Triple P m Q E
    → Triple P n Q E
    → Triple P (if b then m else n) Q E
Triple-if true h k = h
Triple-if false h k = k

-- A statement that is known before stays known after: it does not mention the world.
pub given :
    {A : Type 0} {P : Pred} {m : Exec A} {Q : A → Pred} {E : Error → Pred} {F : Type 0}
    → (F → Triple P m Q E)
    → Triple (λ w. P w × F) m Q E
given h = record { at = λ w x. (h x.1).at w x.0 }

-- `m` keeps `P`, whether it returns or raises.
abbrev pub Keeps : {A : Type 0} → Pred → Exec A → Type 0
Keeps P m = Triple P m (λ _. P) (λ _. P)

lift-Ends :
    {A : Type 0} (P : Pred) (r : Result A) (w : World) → P w → Ends {A = A} (λ _. P) (λ _. P) (r, w)
lift-Ends P (ok a) w h = h
lift-Ends P (err e) w h = h

module _ {A : Type 0} {P : Pred} where
  pub Keeps-pure : (a : A) → Keeps P (pure a)
  Keeps-pure a = Triple-pure a

  pub Keeps-raise : (e : Error) → Keeps P (raise {A = A} e)
  Keeps-raise e = Triple-raise e

  pub Keeps-lift : (r : Result A) → Keeps P (lift r)
  unfolding lift
  Keeps-lift r = record { at = λ w h. lift-Ends P r w h }

  pub Keeps-gets : (f : World → A) → Keeps P (gets f)
  unfolding gets
  Keeps-gets f = record { at = λ w h. h }

  pub Keeps-try_except :
      {m : Exec A} {handler : Error → Exec A}
      → Keeps P m
      → ((e : Error) → Keeps P (handler e))
      → Keeps P (try_except m handler)
  Keeps-try_except h k = handle (λ _. P) h k

pub Keeps-bind :
    {A B : Type 0} {P : Pred} {m : Exec A} {f : A → Exec B}
    → Keeps P m
    → ((a : A) → Keeps P (f a))
    → Keeps P (m >>= f)
Keeps-bind {P} h k = bind (λ _. P) h k

module _ {P : Pred} where
  pub Keeps-modify : (f : World → World) → ((w : World) → P w → P (f w)) → Keeps P (modify f)
  unfolding modify
  Keeps-modify f h = record { at = h }

  pub Keeps-when : (b : Bool) {m : Done} → Keeps P m → Keeps P (when b m)
  Keeps-when true h = h
  Keeps-when false h = Keeps-pure tt

  pub Keeps-require : (b : Bool) (e : Error) → Keeps P (require b e)
  Keeps-require true e = Keeps-pure tt
  Keeps-require false e = Keeps-raise e
