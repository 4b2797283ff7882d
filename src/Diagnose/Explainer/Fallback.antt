-- ===== src/Diagnose/Explainer/Fallback.antt =====
-- `explain` answers an explanation that fits its fields, whatever the client does, but for the one
-- error that it does not catch.
use reclaim_os.Prelude.{
  ◌≤◌, ◌≡◌, refl, arith, Text, codes, false, ◌&&◌, &&-true, Option, none, some, [], length,
  length-take, leb, leb→le, is_empty, ◌||◌, if_both,
}
use reclaim_os.Prelude.Dict.{or_default}
use reclaim_os.Store.Canonical.{Value, str}
use reclaim_os.Ingest.Json.{get_value, is_object}
use reclaim_os.Prelude.Int.{pos}
use reclaim_os.Money.{format_inr}
use reclaim_os.Domain.Models.{SubscriptionRecord}
use reclaim_os.Domain.Real.{Reals}
use reclaim_os.Diagnose.Classifier.{Classification}
use reclaim_os.Diagnose.Propensity.{Propensity}
use reclaim_os.Diagnose.Explainer.{
  Narration, Client, Reply, answered, failed, Language, by_model, by_template, Explanation,
  Explained, explained, raised_recursion, Reading, explanation, unusable, too_deep, Loaded, loaded,
  json_decode_error, recursion_error, max_root_cause_chars, max_message_chars, template_root_cause,
  template_message, answer_reading, answer_reply, new_explanation, read_fields, read_loaded,
  parse_reply, unfenced, redact, template_explanation, explain,
}
use reclaim_os.Diagnose.Explainer.Prompt.{system_for, build_prompt, explain_decision}

-- The lengths that pydantic checks, and the language asked for.
pub record Fits (language : Language) (e : Explanation) : Type 0 where
  pub short_cause : length e.root_cause ≤ max_root_cause_chars
  pub short_message : length e.customer_message ≤ max_message_chars
  pub same_language : e.language ≡ language

module _ {Real : Type 0} (py : Narration Real) (raw : Text) (language : Language)
    (model_id : Text) where
  -- A reading of a reply: a fitting explanation by the model, or why there is none.
  abbrev Readable : Reading → Type 0
  Readable (explanation e) =
      Fits language e
      × (e.source ≡ by_model)
      × (e.model_id ≡ some model_id)
      × (e.fallback_reason ≡ [])
  Readable (unusable kind) = Unit
  Readable too_deep = py.json_loads (unfenced py raw) ≡ recursion_error

  new_explanation-Readable :
      (cause message : Text) → Readable (new_explanation py cause message language model_id)
  unfolding new_explanation
  new_explanation-Readable cause message =
      if_both Readable
        (leb (length cause) max_root_cause_chars && leb (length message) max_message_chars)
        (λ e.
          let (a, b) =
            &&-true (leb (length cause) max_root_cause_chars)
              (leb (length message) max_message_chars) e in
          (
            record {
              short_cause = leb→le (length cause) max_root_cause_chars a;
              short_message = leb→le (length message) max_message_chars b;
              same_language = refl;
            },
            refl,
            refl,
            refl,
          ))
        λ e. tt

  read_fields-Readable :
      (cause message : Option Value) → Readable (read_fields py cause message language model_id)
  unfolding read_fields
  read_fields-Readable (some (str cause)) (some (str message)) =
      if_both Readable (is_empty (py.strip cause) || is_empty (py.strip message)) (λ e. tt)
        λ e. new_explanation-Readable (redact py (py.strip cause)) (redact py (py.strip message))
  read_fields-Readable (some (str cause)) _ = tt
  read_fields-Readable _ _ = tt

  read_loaded-Readable :
      (l : Loaded)
      → py.json_loads (unfenced py raw) ≡ l
      → Readable (read_loaded py l language model_id)
  unfolding read_loaded
  read_loaded-Readable json_decode_error e = tt
  read_loaded-Readable recursion_error e = e
  read_loaded-Readable (loaded payload) e =
      if_both Readable (is_object payload)
        (λ k.
          read_fields-Readable (get_value (codes "root_cause") payload)
            (get_value (codes "customer_message") payload))
        λ k. tt

  parse_reply-Readable : Readable (parse_reply py raw language model_id)
  unfolding parse_reply
  parse_reply-Readable = read_loaded-Readable (py.json_loads (unfenced py raw)) refl

module _ (R : Reals) (py : Narration R.Real) (llm_model : Text) (r : SubscriptionRecord)
    (c : Classification R.Real) (p : Propensity R.Real) (action : Text) where
  -- The client's reply to the prompts of `explain`.
  abbrev pub Replied : Option Client → Language → Reply → Type 0
  Replied client language reply =
      (k : Client) × (client ≡ some k)
      × (k.complete (system_for language) (build_prompt R py r c p action) ≡ reply)

  -- An explanation of the model rests on a reply; one of the template names its reason.
  abbrev pub Sourced : Option Client → Language → Explanation → Type 0
  Sourced client language e = elim e.source [
    | by_model ↦ (raw : Text) × Replied client language (answered raw) × (e.fallback_reason ≡ [])
    | by_template ↦ (e.model_id ≡ none) × (is_empty e.fallback_reason ≡ false)
  ]

  abbrev pub Answers : Option Client → Language → Explained → Type 0
  Answers client language (explained e) = Fits language e × Sourced client language e
  Answers client language raised_recursion =
      (raw : Text) × Replied client language (answered raw)
      × (py.json_loads (unfenced py raw) ≡ recursion_error)

  template-Answers :
      (client : Option Client) (language : Language) (reason : Text)
      → is_empty reason ≡ false
      → Answers client language (explained (template_explanation R py r c p action language reason))
  unfolding template_explanation
  template-Answers client language reason h = (
    record {
      short_cause = omega (
        arith,
        length-take max_root_cause_chars (redact py (template_root_cause R py r c p action)),
      );
      short_message = omega (
        arith,
        length-take max_message_chars
            (redact py (template_message R py language (format_inr (pos r.plan_amount_paise)))),
      );
      same_language = refl;
    },
    (refl, h),
  )

  reading-Answers :
      (k : Client) (language : Language) (raw : Text)
      → k.complete (system_for language) (build_prompt R py r c p action) ≡ answered raw
      → (model_id : Text) (reading : Reading) → Readable py raw language model_id reading
      → Answers
          (some k)
          language
          (answer_reading R py (template_explanation R py r c p action language) reading)
  unfolding answer_reading
  reading-Answers k language raw e model_id (explanation x) h =
      let (fits, by, id, no_reason) = h in (fits, rw by (raw, (k, refl, e), no_reason))
  reading-Answers k language raw e model_id (unusable kind) h =
      template-Answers (some k) language _ refl
  reading-Answers k language raw e model_id too_deep h = (raw, (k, refl, e), h)

  reply-Answers :
      (k : Client) (language : Language) (model_id : Text) (reply : Reply)
      → k.complete (system_for language) (build_prompt R py r c p action) ≡ reply
      → Answers (some k) language (
          answer_reply R py
            (template_explanation R py r c p action language)
            language
            model_id
            reply)
  unfolding answer_reply
  reply-Answers k language model_id (failed kind) e = template-Answers (some k) language _ refl
  reply-Answers k language model_id (answered raw) e =
      reading-Answers k language raw e model_id (parse_reply py raw language model_id)
        (parse_reply-Readable py raw language model_id)

  -- The prose about a decision is always answered, by the model or by the template: of any client,
  -- `explain` returns an explanation of at most 400 and 480 characters in the language asked for.
  -- One by the model rests on a reply of the client, and one by the template has a reason. The one
  -- exception is a reply on which json.loads raises RecursionError: then `explain` raises it.
  pub explain_decision-Answers :
      (client : Option Client) (language : Language)
      → Answers client language (explain_decision R py llm_model r c p action client language)
  unfolding explain_decision explain
  explain_decision-Answers none language = template-Answers none language _ refl
  explain_decision-Answers (some k) language =
      reply-Answers k language (or_default k.model llm_model)
        (k.complete (system_for language) (build_prompt R py r c p action)) refl
