-- ===== src/Delivery/Durability.antt =====
-- Triples of the journal's operations (`DeliveryJournal` of delivery.py), for every script of faults.
use mathlib.Core.Path.{subst}
use technocore_safe_agent.Base.{ℕ, ◌≡◌, refl, sym, Option, none, some, ok, inl, inr, delivery_error}
use technocore_safe_agent.Json.{Value}
use technocore_safe_agent.Crypto.Library.{Primitives}
use technocore_safe_agent.World.{json_of, json_of-eq, World, File, written}
use technocore_safe_agent.Exec.{pure, raise, modify, ◌>>◌}
use technocore_safe_agent.Exec.Triple.{
  Pred, Either, Triple, Keeps, returns, raises, bind, weaken, given, Triple-gets, Triple-lift,
  Triple-modify, Keeps-bind, Keeps-require, Keeps-try_except,
}
use technocore_safe_agent.Exec.Frame.{
  Stable, Stable-view, Stable-both, Keeps-os_call, Keeps-os_error_as, Triple-atomic_write,
}
use technocore_safe_agent.Delivery.{DeliveryRecord, to_payload, from_payload}
use technocore_safe_agent.Delivery
use technocore_safe_agent.Delivery.Journal.{
  guarded_call, fsync_directory, set_journal, write, clear, load_file, load, require_empty,
  refuse_pending, or_missing, acknowledge, prepare,
}

-- What `load` makes of the journal's file.
abbrev pub LoadedFrom : Primitives → Option File → Option DeliveryRecord → Type 0
LoadedFrom p none loaded = loaded ≡ none
LoadedFrom p (some file) loaded =
    (r : DeliveryRecord) × (payload : Value) × (loaded ≡ some r)
    × (file.content ≡ some payload)
    × (from_payload p payload ≡ ok r)

module _ {P : Pred} (s : Stable P) where
  pub Keeps-guarded_call : Keeps P guarded_call
  unfolding guarded_call
  Keeps-guarded_call = Keeps-try_except (Keeps-os_call s) (Keeps-os_error_as delivery_error)

  pub Keeps-fsync_directory : Keeps P fsync_directory
  unfolding fsync_directory
  Keeps-fsync_directory = Keeps-bind Keeps-guarded_call λ _. Keeps-guarded_call

  pub Triple-load_file :
      (p : Primitives) (file : Option File)
      → Triple P (load_file p file) (λ loaded w. P w × LoadedFrom p file loaded) (λ _. P)
  unfolding load_file
  Triple-load_file p none = returns none λ w h. (h, refl)
  Triple-load_file p (some file) =
      bind (λ _. P) Keeps-guarded_call
        λ _.
          bind (λ _. P) (Keeps-require file.is_private delivery_error)
            λ _.
              bind (λ _. P) Keeps-guarded_call
                λ _.
                  bind (λ v w. P w × (json_of delivery_error file ≡ ok v)) (Triple-lift _)
                    λ v. given λ decoded.
                      bind (λ r w. P w × (from_payload p v ≡ ok r)) (Triple-lift _)
                        λ r. given λ parsed.
                          returns (some r)
                            λ w h. (h, (r, v, refl, json_of-eq delivery_error file decoded, parsed))

abbrev journal_is : Option File → Pred
journal_is file w = file ≡ w.journal_file

LoadedFrom-none : (p : Primitives) (file : Option File) → LoadedFrom p file none → file ≡ none
LoadedFrom-none p none h = refl
LoadedFrom-none p (some file) h = cc (h.2)

module _ {P : Pred} (s : Stable P) (p : Primitives) where
  pub Triple-load :
      Triple P (load p) (λ loaded w. P w × LoadedFrom p w.journal_file loaded) (λ _. P)
  unfolding load
  Triple-load =
      bind (λ file w. P w × journal_is file w) (Triple-gets _)
        λ file.
          weaken
            (Triple-load_file (Stable-both s (Stable-view (λ v. file ≡ v.journal_file))) p file)
            (λ w h. h) (λ loaded w h. (h.0.0, subst (λ f. LoadedFrom p f loaded) h.0.1 h.1))
            (λ _ w h. h.0)

  refuse :
      (loaded : Option DeliveryRecord)
      → Triple
          (λ w. P w × LoadedFrom p w.journal_file loaded)
          (refuse_pending p loaded)
          (λ _ w. P w × (w.journal_file ≡ none))
          (λ _. P)
  refuse none = returns tt λ w h. (h.0, LoadedFrom-none p w.journal_file h.1)
  refuse (some r) = raises delivery_error λ w h. h.0

  -- While a journal file is there, whatever it holds, `require_empty` raises.
  pub Triple-require_empty :
      Triple P (require_empty p) (λ _ w. P w × (w.journal_file ≡ none)) (λ _. P)
  unfolding require_empty
  Triple-require_empty =
      bind (λ loaded w. P w × LoadedFrom p w.journal_file loaded) Triple-load refuse

-- `_write` replaces the journal in one step, from `P` to `Q`; after a raise one of the two holds.
module _ {P Q : Pred} (sp : Stable P) (sq : Stable Q) (r : DeliveryRecord)
    (step : (w : World) → P w → Q (set_journal (some (written (to_payload r))) w)) where
  pub Triple-write : Triple P (write r) (λ _. Q) (Either P Q)
  unfolding write
  Triple-write =
      bind (λ _. P) (weaken (Keeps-os_call sp) (λ w h. h) (λ _ w h. h) (λ _ w h. inl h))
        λ _.
          bind (λ _. Q) (Triple-atomic_write sp sq _ step delivery_error)
            λ _. weaken (Keeps-fsync_directory sq) (λ w h. h) (λ _ w h. h) (λ _ w h. inr h)

  prepare_on :
      (file : Option File)
      → Triple P
          (elim file [ none ↦ write r | some _ ↦ raise delivery_error ])
          (λ _. Q)
          (Either P Q)
  prepare_on none = Triple-write
  prepare_on (some file) = raises delivery_error λ w h. inl h

  pub Triple-prepare : Triple P (prepare r) (λ _. Q) (Either P Q)
  unfolding prepare
  Triple-prepare =
      bind (λ _. P) (weaken (Triple-gets _) (λ w h. h) (λ _ w h. h.0) (λ _ w h. h)) prepare_on

-- `clear` goes from `P` to `Q` by removing the file.
module _ {P Q : Pred} (sp : Stable P) (sq : Stable Q)
    (absent : (w : World) → P w → w.journal_file ≡ none → Q w)
    (step : (w : World) → P w → Q (set_journal none w)) where
  clear_file :
      (file : Option File)
      → Triple
          (λ w. P w × journal_is file w)
          (elim file [
            | none ↦ pure tt
            | some _ ↦ do guarded_call; modify (set_journal none); fsync_directory
          ])
          (λ _. Q)
          (Either P Q)
  clear_file none = returns tt λ w h. absent w h.0 (sym h.1)
  clear_file (some file) =
      bind (λ _. P) (weaken (Keeps-guarded_call sp) (λ w h. h.0) (λ _ w h. h) (λ _ w h. inl h))
        λ _.
          bind (λ _. Q) (Triple-modify _ step)
            λ _. weaken (Keeps-fsync_directory sq) (λ w h. h) (λ _ w h. h) (λ _ w h. inr h)

  pub Triple-clear : Triple P clear (λ _. Q) (Either P Q)
  unfolding clear
  Triple-clear = bind (λ file w. P w × journal_is file w) (Triple-gets _) clear_file

-- `acknowledge` rewrites the record that it loads, with the reply's sequence.
module _ {P Q : Pred} (sp : Stable P) (sq : Stable Q) (p : Primitives) (n : ℕ)
    (step : (w : World) (r s : DeliveryRecord)
      → P w
      → LoadedFrom p w.journal_file (some r)
      → Delivery.acknowledge n r ≡ ok s
      → Q (set_journal (some (written (to_payload s))) w)) where
  abbrev Loaded : DeliveryRecord → Pred
  Loaded r w = P w × LoadedFrom p w.journal_file (some r)

  Stable-Loaded : (r : DeliveryRecord) → Stable (Loaded r)
  Stable-Loaded r = Stable-both sp (Stable-view (λ v. LoadedFrom p v.journal_file (some r)))

  found :
      (loaded : Option DeliveryRecord)
      → Triple
          (λ w. P w × LoadedFrom p w.journal_file loaded)
          (or_missing p loaded)
          Loaded
          (Either P Q)
  found none = raises delivery_error λ w h. inl h.0
  found (some r) = returns r λ w h. h

  write_acknowledged :
      (r s : DeliveryRecord)
      → Delivery.acknowledge n r ≡ ok s
      → Triple (Loaded r) (do write s; pure s) (λ _. Q) (Either P Q)
  write_acknowledged r s e =
      bind (λ _. Q)
        (weaken (Triple-write (Stable-Loaded r) sq s (λ w h. step w r s h.0 h.1 e)) (λ w h. h)
          (λ _ w h. h) (λ _ w h. elim h [ inl a ↦ inl a.0 | inr b ↦ inr b ]))
        λ _. returns s λ w h. h

  pub Triple-acknowledge : Triple P (acknowledge p n) (λ _. Q) (Either P Q)
  unfolding acknowledge
  Triple-acknowledge =
      bind (λ loaded w. P w × LoadedFrom p w.journal_file loaded)
        (weaken (Triple-load sp p) (λ w h. h) (λ _ w h. h) (λ _ w h. inl h))
        λ loaded. bind Loaded (found loaded) λ r.
          bind (λ s w. Loaded r w × (Delivery.acknowledge n r ≡ ok s))
            (weaken (Triple-lift _) (λ w h. h) (λ _ w h. h) (λ _ w h. inl h.0))
            λ s. given (write_acknowledged r s)
