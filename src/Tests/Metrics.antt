-- ===== src/Tests/Metrics.antt =====
-- The metrics of two rows, and the evaluation of the agent on one record.
use reclaim_os.Prelude.{
  ℕ, ◌≡◌, refl, codes, true, false, some, none, List, [], ◌∷◌, length, All, Option, text_eq,
}
use reclaim_os.Prelude.Dict.{Dict, lookup}
use reclaim_os.Domain.Declines.{soft_insufficient_funds, hard_risk_flagged}
use reclaim_os.Domain.Models.{recovered, policy_stopped}
use reclaim_os.Generator.World.{WorldRecord}
use reclaim_os.Policy.Review.{ReviewQueue}
use reclaim_os.Policy.Agent.{decide}
use reclaim_os.Eval.Harness.AgentRun.{agent-Decides}
use reclaim_os.Eval.Runner.{Policy, Collected, evaluate}
use reclaim_os.Eval.Runner.Complete.{IsComplete, evaluate-IsComplete}
use reclaim_os.Eval.Outcomes.{RecordOutcome}
use reclaim_os.Eval.Metrics.{PolicyMetrics, compute}
use reclaim_os.Eval.Metrics.Totals.{IsBalanced, compute-IsBalanced}
use reclaim_os.Tests.Fixtures.{
  fixed_point, fixed_point-IsOrdered, signing, calendar, config, subscription, world,
}

abbrev won : RecordOutcome ℕ
won = record {
  subscription_id = codes "sub_1";
  is_recovered = true;
  amount_recovered_paise = 49900;
  charge_attempts = 1;
  contact_actions = 0;
  cost_paise = 200;
  hours_to_resolution = some 60000;
  terminal_reason = recovered;
  predicted_recoverable = true;
  true_recoverable = true;
  true_class = soft_insufficient_funds;
  hard_decline_retries = 0;
  mandate_violations = 0;
  decisions = [];
}

abbrev lost : RecordOutcome ℕ
lost = record won {
  subscription_id = codes "sub_2";
  is_recovered = false;
  amount_recovered_paise = 0;
  hours_to_resolution = none;
  terminal_reason = policy_stopped;
  true_recoverable = false;
  true_class = hard_risk_flagged;
  hard_decline_retries = 1;
}

abbrev rows : List (RecordOutcome ℕ)
rows = won ∷ (lost ∷ [])

abbrev values : Dict ℕ
values = (codes "sub_1", 49900) ∷ ((codes "sub_2", 19900) ∷ [])

compute-IsBalanced_example :
    (m : PolicyMetrics ℕ) × (compute fixed_point (λ k n. 0) (codes "agent") [] rows values ≡ some m)
    × IsBalanced rows m
unfolding lookup text_eq
compute-IsBalanced_example =
    compute-IsBalanced fixed_point (λ k n. 0) (codes "agent") [] rows values (refl, (refl, tt))

abbrev split_world : Dict (WorldRecord ℕ)
split_world = (codes "sub_1", world) ∷ []

abbrev agent : Policy ℕ
agent = record {
  name = codes "agent";
  description = [];
  State = Option ReviewQueue;
  initial = some [];
  decide = decide fixed_point signing calendar config (codes "rev_1");
}

evaluate-IsComplete_example :
    (end : Collected ℕ) × (evaluate fixed_point
        (λ k n. 0)
        split_world
        3
        (subscription ∷ [])
        (agent ∷ [])
      ≡ some end)
    × (length end.metrics ≡ 2)
    × All (IsComplete 1) end.metrics
evaluate-IsComplete_example =
    evaluate-IsComplete fixed_point (λ k n. 0) split_world 3 (subscription ∷ [])
      (unfold lookup text_eq in (refl, tt)) (agent ∷ [])
      (
        agent-Decides fixed_point signing calendar config fixed_point-IsOrdered (codes "rev_1")
            subscription world refl,
        tt,
      )
