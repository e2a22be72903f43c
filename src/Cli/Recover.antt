-- ===== src/Cli/Recover.antt =====
-- The `recover-delivery` command of cli.py.
use mathlib.Core.Path.{subst}
use technocore_safe_agent.Base.{ok, inr, ◌⊎◌, ◌∙◌}
use technocore_safe_agent.Config.{IdentityRecord, AgentConfig}
use technocore_safe_agent.Base.{ℕ, String, Bool, ◌&&◌, ◌≡◌, refl, Option, Result, List, inl}
use technocore_safe_agent.Crypto.Library.{Primitives}
use technocore_safe_agent.State.Store as Store
use technocore_safe_agent.World.{World, File, Envelope}
use technocore_safe_agent.Recovery.Reads.{Unread, Unread-load_state, both}
use technocore_safe_agent.Exec.{Exec, lift, put_state, ◌>>=◌, ◌>>◌}
use technocore_safe_agent.Exec.Triple.{
  Triple, Pred, Ends, bind, given, Triple-lift, weaken, weaken-Ends,
}
use technocore_safe_agent.Exec.Frame.{View, view, Triple-put_state}
use technocore_safe_agent.Protocol.Request.{TechnocoreClient}
use technocore_safe_agent.Protocol.BaseUrl.{technocore_client}
use technocore_safe_agent.Config.{TextFile, load_identity}
use technocore_safe_agent.Config.Health.Frame.{Keeps-load_state}
use technocore_safe_agent.Recovery.{Recovered, recover_delivery}
use technocore_safe_agent.Recovery.Retry.{SentAtMost, Retried, Reported}
use technocore_safe_agent.Recovery.Outcome.{recover_delivery-Reported}
use technocore_safe_agent.Cli.Target.{load_active_config, room_for, given_or, default_url}
use technocore_safe_agent.Cli.Started.{Start, Stable-Start}

pub record RecoverArgs : Type 0 where
  pub room : Option String
  pub base_url : Option String
  pub timeout : ℕ
  pub apply : Bool
  pub confirm_retry : Bool

module _ (p : Primitives) (args : RecoverArgs) (identity : TextFile) (config_file : Option TextFile)
    (lock : Result (Unit {0})) where
  -- Under the process lock, of which `lock` is the outcome.
  unfoldable pub recover_locked : String → String → String → Exec Recovered
  unfolding ◌>>=◌ Store.load technocore_client recover_delivery
  recover_locked room base_url did = do
    state ← Store.load
    put_state state
    client ← lift (technocore_client p base_url args.timeout)
    recover_delivery p client room did args.apply args.confirm_retry

  -- `_recover_delivery`. It checks the configuration as `_load_active_config` does, and selects the
  -- room and the URL as `_resolve_runtime_target` does.
  unfoldable pub recover_delivery_command : Exec Recovered
  unfolding ◌>>=◌ load_identity load_active_config room_for recover_locked
  recover_delivery_command = do
    record' ← lift (load_identity p identity)
    config ← lift (load_active_config p record' config_file)
    room ← lift (room_for args.room config)
    lift lock
    recover_locked room (given_or (default_url config) args.base_url) record'.did

  module _ (w : World) where
    -- The room is the argument's, or that of the identity's active configuration.
    abbrev pub IsSelected : String → Type 0
    IsSelected room =
        (record' : IdentityRecord) × (config : Option AgentConfig) × (load_identity p identity
          ≡ ok record')
        × (load_active_config p record' config_file ≡ ok config)
        × (room_for args.room config ≡ ok room)

    -- At most one envelope is sent: with `apply` and `confirm_retry`, the pending one of the journal
    -- as it is at the start, after the next reply was a complete history of the room without it.
    abbrev pub RecoveredAtMost : World → Type 0
    RecoveredAtMost w' =
        (w'.wire ≡ w.wire)
        ⊎ (room : String) × (old : View) × IsSelected room
          × (old.wire ≡ w.wire)
          × (old.journal_file ≡ w.journal_file)
          × Retried p room (args.apply && args.confirm_retry) old w.replies w'.wire

    abbrev Unchanged : List Envelope → Option File → Type 0
    Unchanged wire journal = (wire ≡ w.wire) × (journal ≡ w.journal_file)

    -- Nothing has been sent or read yet.
    abbrev Fresh : Pred
    Fresh w' = Start Unchanged w' × Unread w.replies w'

    unsent : (w' : World) → Fresh w' → RecoveredAtMost w'
    unsent w' h = inl h.0.0

    sent_at_most :
        (room : String) (old : View) (w' : World)
        → IsSelected room
        → old.wire ≡ w.wire
        → old.journal_file ≡ w.journal_file
        → SentAtMost p room (args.apply && args.confirm_retry) old w.replies w'.wire
        → RecoveredAtMost w'
    sent_at_most room old w' selected same journal (inl none_sent) = inl (none_sent ∙ same)
    sent_at_most room old w' selected same journal (inr retried) =
        inr (room, old, selected, same, journal, retried)

    Triple-recovered :
        (client : TechnocoreClient) (room did : String)
        → IsSelected room
        → Triple Fresh
            (recover_delivery p client room did args.apply args.confirm_retry)
            (λ _. RecoveredAtMost)
            (λ _. RecoveredAtMost)
    Triple-recovered client room did selected = record {
      at = λ x h.
          weaken-Ends _ (λ _. RecoveredAtMost) _ (λ _. RecoveredAtMost)
            (recover_delivery p client room did args.apply args.confirm_retry x)
            (subst
              (λ replies.
                Ends
                  (λ result w'.
                    SentAtMost p room (args.apply && args.confirm_retry) (view x) replies w'.wire
                    × Reported p room (view x) result (view w'))
                  (λ _ w'.
                    SentAtMost p room (args.apply && args.confirm_retry) (view x) replies w'.wire)
                  (recover_delivery p client room did args.apply args.confirm_retry x))
              h.1 (recover_delivery-Reported p client room did args.apply args.confirm_retry x))
            (λ _ w' r. sent_at_most room (view x) w' selected h.0.0 h.0.1 r.0)
            (λ _ w' r. sent_at_most room (view x) w' selected h.0.0 h.0.1 r);
    }

    lifted :
        {A : Type 0} (r : Result A)
        → Triple Fresh (lift r) (λ a w'. Fresh w' × (r ≡ ok a)) (λ _. RecoveredAtMost)
    lifted r = weaken (Triple-lift r) (λ w' h. h) (λ _ w' h. h) (λ _. unsent)

    Triple-recover_locked :
        (room base_url did : String)
        → IsSelected room
        → Triple Fresh
            (recover_locked room base_url did)
            (λ _. RecoveredAtMost)
            (λ _. RecoveredAtMost)
    unfolding recover_locked
    Triple-recover_locked room base_url did selected =
        bind (λ _. Fresh)
          (weaken (both (Keeps-load_state (Stable-Start Unchanged)) (Unread-load_state w.replies))
            (λ w' h. h) (λ _ w' h. h) (λ _. unsent))
          λ state.
            bind (λ _. Fresh) (Triple-put_state state λ w' h. h)
              λ _.
                bind
                  (λ client w'. Fresh w' × (technocore_client p base_url args.timeout ≡ ok client))
                  (lifted (technocore_client p base_url args.timeout))
                  λ client. given λ _. Triple-recovered client room did selected

    -- However it ends, the command sends at most one envelope: only with `apply` and
    -- `confirm_retry`, the pending one of the journal that it started with, as it was signed, after
    -- the next reply was a snapshot of the selected room, complete from the record's input on, in which
    -- no message matches the record.
    pub recover_delivery_command-RecoveredAtMost :
        Ends (λ _. RecoveredAtMost) (λ _. RecoveredAtMost) (recover_delivery_command w)
    unfolding recover_delivery_command
    recover_delivery_command-RecoveredAtMost =
        (bind _ (lifted (load_identity p identity)) λ record'. given λ is_identity.
            bind _ (lifted (load_active_config p record' config_file)) λ config. given λ is_config.
              bind _ (lifted (room_for args.room config)) λ room. given λ is_room.
                bind _ (lifted lock) λ _. given λ _.
                  Triple-recover_locked room (given_or (default_url config) args.base_url)
                    record'.did (record', config, is_identity, is_config, is_room)).at
          w ((refl, refl), refl)
