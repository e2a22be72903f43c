-- ===== src/Audit/Writes.antt =====
-- `_write_all` of audit.py: however few bytes each `os.write` takes, all are written, or a prefix of
-- them before a raise.
use mathlib.Core.Path.{subst}
use mathlib.Core.List.{append-nil, append_assoc}
use technocore_safe_agent.Base.{
  ℕ, zero, suc, ◌≤◌, ◌<◌, true, ◌≡◌, refl, sym, ap, ◌∙◌, not, List, [], ◌∷◌, ◌++◌, length, arith,
  audit_error,
}
use technocore_safe_agent.World.{World, next_or}
use technocore_safe_agent.Exec.Triple.{
  Pred, Ends, Triple, bind, weaken, given, returns, Triple-modify, Triple-require,
}
use technocore_safe_agent.Exec.Frame.{Stable, Stable-view, Keeps-os_call}
use technocore_safe_agent.Audit.Log.{
  opened, append_bytes, split_at, is_empty, take_write, write_all,
}

-- The bytes of the log.
abbrev pub content : World → List ℕ
content w = (opened w.audit_file).bytes

split_at-++ : (n : ℕ) (bs : List ℕ) → (split_at n bs).0 ++ (split_at n bs).1 ≡ bs
unfolding split_at
split_at-++ zero bs = refl
split_at-++ (suc n) [] = refl
split_at-++ (suc n) (b ∷ bs) = ap (λ x. b ∷ x) (split_at-++ n bs)

shorter : (xs ys : List ℕ) → not (is_empty xs) ≡ true → length ys < length (xs ++ ys)
shorter [] ys h = cc
shorter (x ∷ []) ys h = omega arith
shorter (x ∷ y ∷ xs) ys h = omega (arith, shorter (y ∷ xs) ys refl)

-- A prefix of `bs` follows `old`.
pub record WrittenUpTo (old bs : List ℕ) (now : List ℕ) : Type 0 where
  pub done : List ℕ
  pub rest : List ℕ
  pub parts : done ++ rest ≡ bs
  pub appended : now ≡ old ++ done

module _ (old : List ℕ) where
  abbrev At : List ℕ → Pred
  At bs w = content w ≡ old ++ bs

  Stable-At : (bs : List ℕ) → Stable (At bs)
  Stable-At bs = Stable-view λ v. (opened v.audit_file).bytes ≡ old ++ bs

  Triple-take_write :
      (done remaining : List ℕ)
      → Triple
          (At done)
          (take_write remaining)
          (λ parts w. At done w × (parts.0 ++ parts.1 ≡ remaining))
          (λ _. At done)
  unfolding take_write
  Triple-take_write done remaining = record {
    at = λ w h. (h, split_at-++ (next_or (length remaining) w.writes) remaining);
  }

  -- `done` is written, and `remaining` is still to be.
  Triple-write_all :
      (fuel : ℕ) (done remaining : List ℕ)
      → length remaining ≤ fuel
      → Triple
          (At done)
          (write_all fuel remaining)
          (λ _. At (done ++ remaining))
          (λ _ w. WrittenUpTo old (done ++ remaining) (content w))
  unfolding write_all
  Triple-write_all zero done [] enough =
      returns tt λ w h. h ∙ ap (λ x. old ++ x) (sym (append-nil done))
  Triple-write_all zero done (b ∷ bs) enough = absurd (omega arith)
  Triple-write_all (suc fuel) done [] enough =
      returns tt λ w h. h ∙ ap (λ x. old ++ x) (sym (append-nil done))
  Triple-write_all (suc fuel) done (b ∷ bs) enough =
      bind (λ _. At done)
        (weaken (Keeps-os_call (Stable-At done)) (λ w h. h) (λ _ w h. h) (λ _ w h. up_to w h))
        λ _.
          bind (λ parts w. At done w × (parts.0 ++ parts.1 ≡ b ∷ bs))
            (weaken (Triple-take_write done (b ∷ bs)) (λ w h. h) (λ _ w h. h) (λ _ w h. up_to w h))
            λ parts. given λ split.
              bind (λ _ w. At done w × (not (is_empty (parts.0)) ≡ true))
                (weaken (Triple-require (not (is_empty (parts.0))) audit_error) (λ w h. h)
                  (λ _ w h. h) (λ _ w h. up_to w h))
                λ _. given λ some_written.
                  bind (λ _. At (done ++ parts.0))
                    (Triple-modify (append_bytes (parts.0))
                      λ w h. ap (λ x. x ++ parts.0) h ∙ append_assoc old done (parts.0))
                    λ _.
                      weaken
                        (Triple-write_all fuel (done ++ parts.0) (parts.1)
                          (enough_left parts split some_written))
                        (λ w h. h) (λ _ w h. h ∙ ap (λ x. old ++ x) (whole parts split))
                        (λ _ w h. record {
                          done = h.done;
                          rest = h.rest;
                          parts = h.parts ∙ whole parts split;
                          appended = h.appended;
                        })
    where
      up_to : (w : World) → At done w → WrittenUpTo old (done ++ (b ∷ bs)) (content w)
      up_to w h = record { done = done; rest = b ∷ bs; parts = refl; appended = h }

      whole :
          (parts : List ℕ × List ℕ)
          → parts.0 ++ parts.1 ≡ b ∷ bs
          → (done ++ parts.0) ++ parts.1 ≡ done ++ (b ∷ bs)
      whole parts split = append_assoc done (parts.0) (parts.1) ∙ ap (λ x. done ++ x) split

      enough_left :
          (parts : List ℕ × List ℕ)
          → parts.0 ++ parts.1 ≡ b ∷ bs
          → not (is_empty (parts.0)) ≡ true
          → length (parts.1) ≤ fuel
      enough_left parts split some_written =
          let less =
            subst (λ x. length (parts.1) < length x) split
              (shorter (parts.0) (parts.1) some_written) in
          omega (arith, less, enough)

-- With a round for each byte, `_write_all` returns with all bytes after those that the log had; where
-- it raises, a prefix of them stands there, and what the log had is still before it.
pub write_all-Appends :
    (fuel : ℕ) (bs : List ℕ) (w : World)
    → length bs ≤ fuel
    → Ends
        (λ _ w'. content w' ≡ content w ++ bs)
        (λ _ w'. WrittenUpTo (content w) bs (content w'))
        (write_all fuel bs w)
write_all-Appends fuel bs w enough =
    (Triple-write_all (content w) fuel [] bs enough).at w (sym (append-nil (content w)))
