-- ===== src/Eval/Outcomes.antt =====
-- src/reclaimos/eval/harness.py: the rows of a whole split, for a policy and for the ceiling; and
-- domain/models.py (`RecordOutcome`). none is the exception that ends the
-- rows: the KeyError of a dict without a record's id, or one of a run.
pub mod Ceiling
use reclaim_os.Prelude.{
  ℕ, ◌+◌, ◌*◌, Text, Bool, true, false, Option, none, some, List, [], ◌∷◌, if◌then◌else◌,
}
use mathlib.Core.Option.{map as map_option}
use reclaim_os.Prelude.Int.{ℤ, sub_ℕ}
use reclaim_os.Prelude.Dict.{Dict, lookup, insert, or_default}
use reclaim_os.Domain.Declines.{DeclineClass}
use reclaim_os.Domain.Models.{
  SubscriptionRecord, retry_charge, send_payment_link, Decision, TerminalReason, recovered,
  policy_stopped,
}
use reclaim_os.Domain.Real.{Reals}
use reclaim_os.Generator.World.{WorldRecord}
use reclaim_os.Generator.Oracle.{OracleResult, oracle_recovers}
use reclaim_os.Policy.Config.{LoopState}
use reclaim_os.Eval.Harness.{Run, run_record, cost_of}

pub record RecordOutcome (Real : Type 0) : Type 0 where
  pub subscription_id : Text
  pub is_recovered : Bool
  pub amount_recovered_paise : ℕ
  pub charge_attempts : ℕ
  pub contact_actions : ℕ
  pub cost_paise : ℕ
  pub hours_to_resolution : Option Real
  pub terminal_reason : TerminalReason
  pub predicted_recoverable : Bool
  pub true_recoverable : Bool
  pub true_class : DeclineClass
  pub hard_decline_retries : ℕ
  pub mandate_violations : ℕ
  pub decisions : List (Decision Real)

abbrev pub net_recovered_paise : {Real : Type 0} → RecordOutcome Real → ℤ
net_recovered_paise o = sub_ℕ o.amount_recovered_paise o.cost_paise

module _ (R : Reals) where
  open R use {Real}

  -- What `run_record` returns for the local variables at the end of its loop.
  unfoldable pub outcome_of :
      SubscriptionRecord
      → WorldRecord Real
      → OracleResult Real
      → TerminalReason
      → Run Real
      → RecordOutcome Real
  outcome_of r truth oracle terminal run = record {
    subscription_id = r.subscription_id;
    is_recovered = run.is_recovered;
    amount_recovered_paise = run.amount_recovered;
    charge_attempts = run.charge_attempts;
    contact_actions = run.contact_actions;
    cost_paise = run.cost;
    hours_to_resolution = run.hours_to_resolution;
    terminal_reason = terminal;
    predicted_recoverable = run.predicted_recoverable;
    true_recoverable = oracle.recovered;
    true_class = truth.true_class;
    hard_decline_retries = run.hard_decline_retries;
    mandate_violations = run.mandate_violations;
    decisions = run.decisions;
  }

  -- The row of `run_oracle` for one record.
  unfoldable pub oracle_outcome :
      SubscriptionRecord → WorldRecord Real → OracleResult Real → RecordOutcome Real
  oracle_outcome r truth oracle = record {
    subscription_id = r.subscription_id;
    is_recovered = oracle.recovered;
    amount_recovered_paise = if oracle.recovered then r.plan_amount_paise else 0;
    charge_attempts = oracle.charge_attempts;
    contact_actions = oracle.contact_actions;
    cost_paise =
        oracle.charge_attempts * cost_of retry_charge
        + oracle.contact_actions * cost_of send_payment_link;
    hours_to_resolution = if oracle.recovered then some oracle.hours else none;
    terminal_reason = if oracle.recovered then recovered else policy_stopped;
    predicted_recoverable = oracle.recovered;
    true_recoverable = oracle.recovered;
    true_class = truth.true_class;
    hard_decline_retries = 0;
    mandate_violations = 0;
    decisions = [];
  }

  module _ (world : Dict (WorldRecord Real)) (max_attempts : ℕ) where
    -- The comprehension of `compute_oracles`, with what it has so far.
    unfoldable pub oracles_from :
        List SubscriptionRecord → Dict (OracleResult Real) → Option (Dict (OracleResult Real))
    oracles_from [] done = some done
    oracles_from (r ∷ rs) done = elim (lookup r.subscription_id world) [
      | none ↦ none
      | some truth ↦ elim (oracle_recovers R r truth max_attempts) [
        | none ↦ none
        | some oracle ↦ oracles_from rs (insert r.subscription_id oracle done)
      ]
    ]

    unfoldable pub compute_oracles : List SubscriptionRecord → Option (Dict (OracleResult Real))
    unfolding oracles_from
    compute_oracles records = oracles_from records []

    -- The given dict's entry, or a computed one where no dict is given.
    unfoldable pub oracle_for :
        Option (Dict (OracleResult Real))
        → SubscriptionRecord
        → WorldRecord Real
        → Option (OracleResult Real)
    oracle_for none r truth = oracle_recovers R r truth max_attempts
    oracle_for (some oracles) r truth = lookup r.subscription_id oracles

    unfoldable pub run_oracle :
        Option (Dict (OracleResult Real))
        → List SubscriptionRecord
        → Option (List (RecordOutcome Real))
    run_oracle oracles [] = some []
    run_oracle oracles (r ∷ rs) =
        let rest = run_oracle oracles rs in
        elim (lookup r.subscription_id world) [
          | none ↦ none
          | some truth ↦ elim (oracle_for oracles r truth) [
            | none ↦ none
            | some oracle ↦ map_option (◌∷◌ (oracle_outcome r truth oracle)) rest
          ]
        ]

    module _ {Q : Type 0} (decide : LoopState Real → Q → Option (Decision Real × Q)) where
      unfoldable pub run_policy :
          Option (Dict (OracleResult Real))
          → List SubscriptionRecord
          → Q
          → Option (List (RecordOutcome Real) × Q)
      run_policy oracles [] q = some ([], q)
      run_policy oracles (r ∷ rs) q = elim (lookup r.subscription_id world) [
        | none ↦ none
        | some truth ↦ elim (oracle_for oracles r truth) [
          | none ↦ none
          | some oracle ↦ elim (run_record R r truth decide q) [
            | none ↦ none
            | some (terminal, run, q') ↦
                map_option (λ (rows, q''). (outcome_of r truth oracle terminal run ∷ rows, q''))
                  (run_policy oracles rs q')
          ]
        ]
      ]
