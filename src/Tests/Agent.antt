-- ===== src/Tests/Agent.antt =====
-- The agent and the harness on an ambiguous decline.
use reclaim_os.Prelude.{
  ℕ, codes, ◌≡◌, refl, true, not, ◌&&◌, ◌||◌, text_eq, Option, some, any, [], ◌∷◌,
}
use reclaim_os.Prelude.Dict.{is_some}
use reclaim_os.Domain.Declines.{
  decline_codes, same_class, is_hard, soft_insufficient_funds, hard_do_not_honor,
  soft_issuer_technical,
}
use reclaim_os.Domain.Models.{Decision}
use reclaim_os.Diagnose.Classifier.{
  key_of, same_key, attempt_key, index_of, add_code, add_owner, candidates_for, owns, classify,
  Classification,
}
use reclaim_os.Diagnose.Classifier.Index.{index_of-candidates, has}
use reclaim_os.Diagnose.Classifier.Verdict.{classify_verdict}
use reclaim_os.Diagnose.Propensity.{score}
use reclaim_os.Diagnose.Propensity.Bounds.{score_bounds}
use reclaim_os.Policy.Review.{ReviewQueue}
use reclaim_os.Policy.Config.{LoopState}
use reclaim_os.Policy.Agent.{decide}
use reclaim_os.Policy.Agent.Safety.{Decided, decide_outcome}
use reclaim_os.Eval.Harness.{run_record}
use reclaim_os.Eval.Harness.Total.{Ends, run_record-Ends}
use reclaim_os.Eval.Harness.AgentRun.{EndsWithin, agent-Decides, run_record-agent}
use reclaim_os.Tests.Fixtures.{
  fixed_point, fixed_point-IsOrdered, signing, calendar, config, failed, subscription, first_slot,
  world,
}

abbrev c : Classification ℕ
c = classify fixed_point failed

-- The tuple belongs to three classes, and the soft one is preferred.
candidates_of_failed :
    candidates_for (attempt_key failed) (index_of decline_codes)
    ≡ some (soft_insufficient_funds ∷ (soft_issuer_technical ∷ (hard_do_not_honor ∷ [])))
unfolding candidates_for index_of add_code same_key text_eq add_owner owns same_class
candidates_of_failed = refl

classify_verdict_example :
    (owns c.decline_class c.candidates ≡ true)
    × (c.hard_possible ≡ (
        not (any (λ o. same_key (key_of o) (attempt_key failed)) decline_codes)
        || any is_hard c.candidates))
classify_verdict_example = classify_verdict fixed_point failed

index_of-candidates_example :
    (is_some (candidates_for (attempt_key failed) (index_of decline_codes))
      ≡ any (λ o. same_key (key_of o) (attempt_key failed)) decline_codes)
    × (has hard_do_not_honor (candidates_for (attempt_key failed) (index_of decline_codes))
        ≡ any
            (λ o.
              same_key (key_of o) (attempt_key failed) && same_class o.true_class hard_do_not_honor)
            decline_codes)
index_of-candidates_example =
    index_of-candidates decline_codes (attempt_key failed) hard_do_not_honor

score_bounds_example :
    let p = score fixed_point subscription c 1 in
    (fixed_point.leb (fixed_point.lit 0 0) p.score ≡ true)
    × (fixed_point.leb p.score (fixed_point.lit 1 0) ≡ true)
score_bounds_example = score_bounds fixed_point fixed_point-IsOrdered subscription c 1

decide_outcome_example :
    Decided fixed_point signing calendar config
      (codes "rev_1")
      first_slot
      (some [])
      (decide fixed_point signing calendar config (codes "rev_1") first_slot (some []))
decide_outcome_example =
    decide_outcome fixed_point signing calendar config fixed_point-IsOrdered (codes "rev_1")
      first_slot (some [])

abbrev agent : LoopState ℕ → Option ReviewQueue → Option (Decision ℕ × Option ReviewQueue)
agent = decide fixed_point signing calendar config (codes "rev_1")

run_record-Ends_example :
    Ends fixed_point subscription world agent
      (run_record fixed_point subscription world agent (some []))
run_record-Ends_example =
    run_record-Ends fixed_point subscription world agent refl
      (agent-Decides fixed_point signing calendar config fixed_point-IsOrdered (codes "rev_1")
        subscription world refl)
      (some [])

run_record-agent_example :
    EndsWithin fixed_point signing calendar config fixed_point-IsOrdered
      (codes "rev_1")
      subscription
      world
      (run_record fixed_point subscription world agent (some []))
run_record-agent_example =
    run_record-agent fixed_point signing calendar config fixed_point-IsOrdered (codes "rev_1")
      subscription world refl refl (some [])
