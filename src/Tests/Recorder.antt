-- ===== src/Tests/Recorder.antt =====
-- Two calls of the live gateway that differ in their secrets.
use reclaim_os.Prelude.{
  ℕ, codes, ◌≡◌, refl, true, false, some, none, List, [], ◌∷◌, lower, text_eq, if◌then◌else◌, Text,
}
use reclaim_os.Diagnose.Explainer.{Narration, recursion_error, redact}
use reclaim_os.Live.Recorder.{
  Fields, dict, field, end, text, list, cons, nil, CallRecord, Recorder, call_record, append_call,
  scrub, scrub_fields, is_sensitive,
}
use reclaim_os.Live.Recorder.Secrets.{
  SameFields, same_text, same_list, same_dict, same_nil, same_cons, same_end, same_field, secret,
  append_call-secrets,
}

-- A card number is any text that starts with a 4.
abbrev py : Narration ℕ
py = record {
  sub_pattern = λ p t. elim t [
    | [] ↦ []
    | c ∷ s ↦ if text_eq (c ∷ []) (codes "4") then codes "[redacted]" else c ∷ s
  ];
  search_pattern = λ p t. false;
  strip = λ t. t;
  json_loads = λ t. recursion_error;
  json_dumps = λ v. codes "{}";
  repr = λ x. x ∷ [];
}

abbrev payload : Text → Text → Fields
payload number password =
    field (codes "notes")
      (list (
        cons (dict (field (codes "Password") (text password) (field (codes "n") (text number) end)))
          nil))
      end

abbrev dump_json : CallRecord → Text
dump_json call = call.path

abbrev started : Recorder
started = record { calls = []; transcript = codes "p\n" }

scrub_of_payload :
    scrub_fields py lower (payload (codes "4111") (codes "hunter"))
    ≡ payload (codes "[redacted]") (codes "[redacted]")
unfolding scrub is_sensitive redact text_eq lower
scrub_of_payload = refl

abbrev others : List Text
others =
    codes "token"
    ∷ (codes "card_id"
        ∷ (codes "vpa"
            ∷ (codes "account_number" ∷ (codes "ifsc" ∷ (codes "beneficiary_name" ∷ [])))))

redact_of_cards : redact py (codes "4111") ≡ redact py (codes "4222")
unfolding redact text_eq
redact_of_cards = refl

payloads_same :
    SameFields py lower
      (payload (codes "4111") (codes "hunter"))
      (payload (codes "4222") (codes "x"))
unfolding lower
payloads_same =
    same_field
      (same_list (
        same_cons
          (same_dict (
            secret (codes "key_secret" ∷ (codes "secret" ∷ [])) others refl
              (same_field (same_text redact_of_cards) same_end)))
          same_nil))
      same_end

append_call-secrets_example :
    append_call dump_json
      (call_record py lower
        (codes "t")
        (codes "POST")
        (codes "/v1/orders?x=1")
        (some 200)
        true
        (some (payload (codes "4111") (codes "hunter")))
        none
        (codes "4111")
        [])
      started
    ≡ append_call dump_json
        (call_record py lower
          (codes "t")
          (codes "POST")
          (codes "/v1/orders?x=1")
          (some 200)
          true
          (some (payload (codes "4222") (codes "x")))
          none
          (codes "4222")
          [])
        started
append_call-secrets_example =
    append_call-secrets py lower dump_json started (codes "t") (codes "POST")
      (codes "/v1/orders?x=1") (some 200) true (some (payload (codes "4111") (codes "hunter")))
      (some (payload (codes "4222") (codes "x"))) none none (codes "4111") (codes "4222") []
      payloads_same same_end redact_of_cards
