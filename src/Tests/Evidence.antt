-- ===== src/Tests/Evidence.antt =====
-- The properties of receipts and work receipts at concrete inputs: the witnesses.
use technocore_safe_agent.Base.{ℕ, true, false, ◌≡◌, ◌↔◌, ◌+◌, ◌≤◌, some, none, [], ◌∷◌, ok}
use technocore_safe_agent.Receipt.Ci.{Answers, is_green, inspect-success}
use technocore_safe_agent.Receipt.Guarantee.{Sound, verify_signed_receipt-Sound}
use technocore_safe_agent.Receipt.Cooldown.{last_attempt, issue-spaced}
use technocore_safe_agent.Tests.Cooldown.{asks_first, asks_later}
use technocore_safe_agent.WorkReceipt.Attested.{Attested, verify_envelope-Attested}
use technocore_safe_agent.WorkReceipt.Countersign.{
  Countersigns, countersign_work_receipt-Countersigns,
}
use technocore_safe_agent.Base.{arith, refl}
use technocore_safe_agent.Base.Dict.{lookup}
use technocore_safe_agent.Agent.Nonces.{NoncesUsed}
use technocore_safe_agent.Cli.{poll}
use technocore_safe_agent.Cli.Waits.{AllBounded, poll-AllBounded}
use technocore_safe_agent.Cli.Nonces.{poll-NoncesUsed, poll-dry}
use technocore_safe_agent.Tests.Data.{library, responder, responder_with, world, options, pauses}
use technocore_safe_agent.Tests.Runs.{render_five}
use technocore_safe_agent.Agent.Nonces.{NoncesBelow}
use technocore_safe_agent.Cli.Run.{run_with_identity}
use technocore_safe_agent.Cli.Authorised.{
  SentOnlyIf, run_with_identity-SentOnlyIf, run_with_identity-NoncesBelow,
}
use technocore_safe_agent.Tests.Poll.{run_args, identity_record, asked_world}
use technocore_safe_agent.World.{World, written}
use technocore_safe_agent.Delivery.{to_payload}
use technocore_safe_agent.Tests.Data.{created}
use technocore_safe_agent.Cli.Recover.{
  RecoverArgs, recover_delivery_command, RecoveredAtMost, recover_delivery_command-RecoveredAtMost,
}
use technocore_safe_agent.Exec.Triple.{Ends}
use technocore_safe_agent.Exec.Frame.{view}
use technocore_safe_agent.Config.Health.Report.{inspect_operational_health}
use technocore_safe_agent.Config.Health.Frame.{inspect-view}
use technocore_safe_agent.Tests.Health.{disk, provisioned}
use technocore_safe_agent.Tests.Data.{key, own_did}
use technocore_safe_agent.Tests.Receipts.{
  github, transport, reference, evidence, payload, noon, service, call_at, inspect_run, verify_run,
}
use technocore_safe_agent.Tests.Work.{
  digits_library, envelope, countersigned, scene, summary, verify_countersigned, countersign_run,
}

inspect_example :
    (a : Answers github transport reference evidence.head_sha) × ((evidence.ci ≡ "success")
      ↔ (is_green evidence.head_sha a.checks a.statuses ≡ true))
inspect_example = inspect-success github transport reference inspect_run

verify_example : Sound github payload
verify_example = verify_signed_receipt-Sound github "receipt" verify_run

cooldown_example : 5 + 60 ≤ 65
unfolding last_attempt
cooldown_example =
    issue-spaced github service none [] (call_at 30 ∷ []) (call_at 5) (call_at 65) asks_first
      asks_later

envelope_example : Attested digits_library summary
envelope_example = verify_envelope-Attested digits_library countersigned verify_countersigned

countersign_example : Countersigns digits_library envelope countersigned scene
countersign_example =
    countersign_work_receipt-Countersigns digits_library envelope own_did key none scene noon
      countersign_run

health_view_example :
    Ends
      (λ _ w'. view w' ≡ view provisioned)
      (λ _ w'. view w' ≡ view provisioned)
      (inspect_operational_health github disk none false provisioned)
health_view_example = inspect-view github disk none false provisioned

poll_nonces_example :
    Ends
      (λ _ w'. NoncesUsed "lobby" w'.state.nonces w'.wire)
      (λ _ w'. NoncesUsed "lobby" w'.state.nonces w'.wire)
      (poll library responder options 1_000 pauses world)
unfolding lookup
poll_nonces_example =
    poll-NoncesUsed library responder options pauses world (5, render_five, omega arith, tt)

poll_dry_example :
    Ends
      (λ _ w'. (w'.state.nonces ≡ world.state.nonces) × (w'.wire ≡ world.wire))
      (λ _ w'. (w'.state.nonces ≡ world.state.nonces) × (w'.wire ≡ world.wire))
      (poll library (responder_with false) options 1_000 pauses world)
poll_dry_example = poll-dry library (responder_with false) options pauses world refl

poll_waits_example :
    Ends
      (λ steps _. AllBounded pauses steps)
      (λ _ _. Unit {0})
      (poll library responder options 1_000 pauses world)
poll_waits_example = poll-AllBounded library responder options pauses world

run_example :
    Ends
      (λ _. SentOnlyIf github run_args identity_record key none pauses asked_world)
      (λ _. SentOnlyIf github run_args identity_record key none pauses asked_world)
      (run_with_identity github run_args identity_record key none pauses asked_world)
run_example =
    run_with_identity-SentOnlyIf github run_args identity_record key none pauses asked_world

run_nonces_example :
    Ends
      (λ _ w'. (n : ℕ) × NoncesBelow n w'.wire)
      (λ _ w'. (n : ℕ) × NoncesBelow n w'.wire)
      (run_with_identity github run_args identity_record key none pauses asked_world)
run_nonces_example =
    run_with_identity-NoncesBelow github run_args identity_record key none pauses asked_world refl

abbrev recover_args : RecoverArgs
recover_args = record {
  room = none;
  base_url = none;
  timeout = 20_000;
  apply = true;
  confirm_retry = true;
}

abbrev interrupted : World
interrupted = record asked_world { journal_file = some (written (to_payload created)) }

recover_example :
    Ends
      (λ _.
        RecoveredAtMost github recover_args disk.identity (some disk.config) (ok tt) interrupted)
      (λ _.
        RecoveredAtMost github recover_args disk.identity (some disk.config) (ok tt) interrupted)
      (recover_delivery_command github recover_args disk.identity
        (some disk.config)
        (ok tt)
        interrupted)
recover_example =
    recover_delivery_command-RecoveredAtMost github recover_args disk.identity (some disk.config)
      (ok tt) interrupted
