-- ===== src/Tests/Explainer.antt =====
-- The explainer with a client that answers a fenced object, and one whose answer is too deep.
use reclaim_os.Prelude.{
  ℕ, Text, codes, ◌≡◌, refl, false, none, some, [], ◌∷◌, text_eq, if◌then◌else◌, starts_with,
}
use reclaim_os.Store.Canonical.{object, field, end, str}
use reclaim_os.Diagnose.Classifier.{Classification, classify}
use reclaim_os.Diagnose.Propensity.{Propensity, score}
use reclaim_os.Diagnose.Explainer.{
  Narration, loaded, recursion_error, Client, answered, en, raised_recursion, explain, answer_reply,
  answer_reading, parse_reply, read_loaded, unfenced, behind_newline, before_fence, without_prefix,
}
use reclaim_os.Diagnose.Explainer.Prompt.{explain_decision}
use reclaim_os.Diagnose.Explainer.Fallback.{Answers, explain_decision-Answers}
use reclaim_os.Tests.Fixtures.{fixed_point, failed, subscription}

abbrev deep : Text
deep = codes "deep"

abbrev py : Narration ℕ
py = record {
  sub_pattern = λ p t. t;
  search_pattern = λ p t. false;
  strip = λ t. t;
  json_loads = λ t.
      if text_eq t deep
      then recursion_error
      else loaded (
          object
            (field (codes "root_cause") (str t) (field (codes "customer_message") (str t) end)));
  json_dumps = λ v. codes "{}";
  repr = λ x. x ∷ [];
}

abbrev c : Classification ℕ
c = classify fixed_point failed

abbrev p : Propensity ℕ
p = score fixed_point subscription c 0

abbrev client : Text → Client
client reply = record { model = none; complete = λ system user. answered reply }

-- A code fence is taken off.
unfenced_of_fence : unfenced py (codes "```json\n{}```") ≡ codes "{}"
unfolding unfenced behind_newline before_fence without_prefix starts_with
unfenced_of_fence = refl

-- json.loads gives up on a deep reply, and so does the explainer.
explain_of_deep :
    explain_decision fixed_point py
      (codes "m")
      subscription
      c
      p
      (codes "retry")
      (some (client deep))
      en
    ≡ raised_recursion
unfolding explain_decision explain answer_reply answer_reading parse_reply read_loaded unfenced
    text_eq starts_with
explain_of_deep = refl

explain_decision-Answers_example :
    Answers fixed_point py
      (codes "m")
      subscription
      c
      p
      (codes "retry")
      (some (client (codes "fine")))
      en
      (explain_decision fixed_point py
        (codes "m")
        subscription
        c
        p
        (codes "retry")
        (some (client (codes "fine")))
        en)
explain_decision-Answers_example =
    explain_decision-Answers fixed_point py (codes "m") subscription c p (codes "retry")
      (some (client (codes "fine"))) en
