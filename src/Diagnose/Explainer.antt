-- ===== src/Diagnose/Explainer.antt =====
-- src/reclaimos/diagnose/explainer.py and redact.py: the prose about a decision that is already
-- made. The regular expressions, `str.strip`, the JSON of Python and repr of a float are an
-- interface; the model's client answers a text or raises.
pub mod Fallback
pub mod Prompt
use reclaim_os.Prelude.{
  ℕ, ◌+◌, ◌-◌, Text, codes, Bool, true, false, not, ◌&&◌, ◌||◌, Option, none, some, List, [], ◌∷◌,
  ◌++◌, any, foldl, length, leb, take, drop, starts_with, is_empty, ◌==◌, get_or, if◌then◌else◌,
}
use reclaim_os.Prelude.Int.{pos}
use reclaim_os.Prelude.Dict.{or_default}
use reclaim_os.Store.Canonical.{Value, object, str}
use reclaim_os.Ingest.Json.{get_value, is_object}
use reclaim_os.Money.{format_inr}
use reclaim_os.Domain.Declines.{name}
use reclaim_os.Domain.Models.{SubscriptionRecord, method_value}
use reclaim_os.Domain.Real.{Reals}
use reclaim_os.Diagnose.Classifier.{Classification}
use reclaim_os.Diagnose.Propensity.{Propensity}

abbrev pub max_root_cause_chars : ℕ
max_root_cause_chars = 400

abbrev pub max_message_chars : ℕ
max_message_chars = 480

-- `PATTERNS` of redact.py, in their order.
pub data Pattern : Type 0 where
  card email upi phone ifsc : Pattern

abbrev pub patterns : List Pattern
patterns = card ∷ (email ∷ (upi ∷ (phone ∷ (ifsc ∷ []))))

pub data Language : Type 0 where
  en hinglish : Language

pub data Source : Type 0 where
  by_model by_template : Source

pub record Explanation : Type 0 where
  pub root_cause : Text
  pub customer_message : Text
  pub language : Language
  pub source : Source
  pub model_id : Option Text
  pub fallback_reason : Text

-- How json.loads ends: RecursionError is not among the errors that `explain` catches.
pub data Loaded : Type 0 where
  loaded : Value → Loaded
  json_decode_error : Loaded
  recursion_error : Loaded

pub record Narration (Real : Type 0) : Type 0 where
  -- pattern.sub(REDACTED, text) and pattern.search(text)
  pub sub_pattern : Pattern → Text → Text
  pub search_pattern : Pattern → Text → Bool
  pub strip : Text → Text
  pub json_loads : Text → Loaded
  -- json.dumps(payload, indent=2, ensure_ascii=False), and repr of a float
  pub json_dumps : Value → Text
  pub repr : Real → Text

-- A call of the client: a text, or an exception of the named type.
pub data Reply : Type 0 where
  answered : Text → Reply
  failed : Text → Reply

pub record Client : Type 0 where
  pub model : Option Text
  pub complete : Text → Text → Reply

-- What `_parse` returns or raises.
pub data Reading : Type 0 where
  explanation : Explanation → Reading
  unusable : Text → Reading
  too_deep : Reading

pub data Explained : Type 0 where
  explained : Explanation → Explained
  -- the RecursionError of json.loads, which leaves `explain`
  raised_recursion : Explained

-- text.split("\n", 1)[-1]
unfoldable pub behind_newline : Text → Option Text
behind_newline [] = none
behind_newline (c ∷ s) = let rest = behind_newline s in if c == 10 then some s else rest

-- text.rsplit("```", 1)[0]
unfoldable pub before_fence : Text → Option Text
before_fence [] = none
before_fence (c ∷ s) = elim (before_fence s) [
  | some t ↦ some (c ∷ t)
  | none ↦ if starts_with (c ∷ s) (codes "```") then some [] else none
]

-- text.removeprefix("json")
unfoldable pub without_prefix : Text → Text → Text
without_prefix p s = if starts_with s p then drop (length p) s else s

module _ {Real : Type 0} (py : Narration Real) where
  unfoldable pub redact : Text → Text
  redact text = foldl (λ t p. py.sub_pattern p t) text patterns

  unfoldable pub contains_pii : Text → Bool
  contains_pii text = any (λ p. py.search_pattern p text) patterns

  -- The text of a reply without a code fence.
  unfoldable pub unfenced : Text → Text
  unfolding behind_newline before_fence without_prefix
  unfenced raw =
      let text = py.strip raw in
      let body = or_default (behind_newline text) text in
      let inner = py.strip (or_default (before_fence body) body) in
      if starts_with text (codes "```")
      then py.strip (without_prefix (codes "json") inner)
      else text

  -- `Explanation(...)` of a model's two texts: pydantic checks their lengths.
  unfoldable pub new_explanation : Text → Text → Language → Text → Reading
  new_explanation root_cause customer_message language model_id =
      if leb (length root_cause) max_root_cause_chars
        && leb (length customer_message) max_message_chars
      then explanation (record {
        root_cause = root_cause;
        customer_message = customer_message;
        language = language;
        source = by_model;
        model_id = some model_id;
        fallback_reason = [];
      })
      else unusable (codes "ValidationError")

  -- The tests on the two fields.
  unfoldable pub read_fields : Option Value → Option Value → Language → Text → Reading
  unfolding redact new_explanation
  read_fields (some (str root_cause)) (some (str customer_message)) language model_id =
      if is_empty (py.strip root_cause) || is_empty (py.strip customer_message)
      then unusable (codes "ValueError")
      else new_explanation (redact (py.strip root_cause)) (redact (py.strip customer_message))
          language model_id
  read_fields _ _ language model_id = unusable (codes "TypeError")

  -- What `_parse` does with the loaded JSON.
  unfoldable pub read_loaded : Loaded → Language → Text → Reading
  unfolding read_fields
  read_loaded json_decode_error language model_id = unusable (codes "JSONDecodeError")
  read_loaded recursion_error language model_id = too_deep
  read_loaded (loaded payload) language model_id =
      if is_object payload
      then read_fields (get_value (codes "root_cause") payload)
          (get_value (codes "customer_message") payload) language model_id
      else unusable (codes "ValueError")

  -- `_parse`
  unfoldable pub parse_reply : Text → Language → Text → Reading
  unfolding unfenced read_loaded
  parse_reply raw language model_id = read_loaded (py.json_loads (unfenced raw)) language model_id

module _ (R : Reals) (py : Narration R.Real) where
  open R use {Real, fixed}

  -- evidence.get("error_reason") or "an unspecified error"
  unfoldable pub reason_of : Classification Real → Text
  reason_of c =
      let reason = or_default (get_or c.evidence 3 none) [] in
      if is_empty reason then codes "an unspecified error" else reason

  unfoldable pub template_root_cause :
      SubscriptionRecord → Classification Real → Propensity Real → Text → Text
  template_root_cause r c p action =
      codes "Charge of "
      ++ (format_inr (pos r.plan_amount_paise)
          ++ (codes " on "
              ++ (method_value r.method
                  ++ (codes " failed with "
                      ++ (reason_of c
                          ++ (codes ", classified as "
                              ++ (name c.decline_class
                                  ++ (codes " (rule "
                                      ++ (c.rule_id
                                          ++ (codes "). Recovery propensity "
                                              ++ (fixed 2 p.score
                                                  ++ (codes " via "
                                                      ++ (p.rule_id
                                                          ++ (codes ". Action: "
                                                            ++ (action
                                                            ++ (codes "."
                                                            ++ (if c.ambiguous
                                                            then codes
                                                            " The gateway code is ambiguous, so this is our best reading."
                                                            else [])))))))))))))))))

  unfoldable pub template_message : Language → Text → Text
  template_message hinglish amount =
      codes "Aapka "
      ++ (amount
          ++ codes
              " ka payment complete nahi ho paya. Hum ise dobara try karenge - koi action ki zaroorat nahi hai. Agar aapko koi dikkat ho to hume batayein.")
  template_message en amount =
      codes "We could not complete your payment of "
      ++ (amount
          ++ codes
              ". We will try again shortly - no action is needed from you. Please get in touch if you have any questions.")

  unfoldable pub template_explanation :
      SubscriptionRecord
      → Classification Real
      → Propensity Real
      → Text
      → Language
      → Text
      → Explanation
  template_explanation r c p action language reason = record {
    root_cause = take max_root_cause_chars (redact py (template_root_cause r c p action));
    customer_message =
        take max_message_chars
          (redact py (template_message language (format_inr (pos r.plan_amount_paise))));
    language = language;
    source = by_template;
    model_id = none;
    fallback_reason = reason;
  }

  -- The answer for a reading, with the template for a reason.
  unfoldable pub answer_reading : (Text → Explanation) → Reading → Explained
  answer_reading template (explanation e) = explained e
  answer_reading template (unusable kind) =
      explained (template (codes "unusable model response: " ++ kind))
  answer_reading template too_deep = raised_recursion

  unfoldable pub answer_reply : (Text → Explanation) → Language → Text → Reply → Explained
  unfolding answer_reading parse_reply
  answer_reply template language model_id (failed kind) =
      explained (template (codes "model call failed: " ++ kind))
  answer_reply template language model_id (answered raw) =
      answer_reading template (parse_reply py raw language model_id)

  -- `explain`, for the prompts given and the model id of the settings.
  unfoldable pub explain :
      Text
      → (Language → Text)
      → Text
      → SubscriptionRecord
      → Classification Real
      → Propensity Real
      → Text
      → Option Client
      → Language
      → Explained
  unfolding answer_reply template_explanation
  explain user system llm_model r c p action none language =
      explained (template_explanation r c p action language (codes "no model configured"))
  explain user system llm_model r c p action (some k) language =
      answer_reply (template_explanation r c p action language) language
        (or_default k.model llm_model) (k.complete (system language) user)
