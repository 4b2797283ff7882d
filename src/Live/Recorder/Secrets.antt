-- ===== src/Live/Recorder/Secrets.antt =====
-- What the transcript of src/reclaimos/live/recorder.py can tell about the secrets of a call.
use reclaim_os.Prelude.{
  ℕ, Text, Bool, List, [], ◌∷◌, ◌++◌, any, text_eq, text_eq_iff, true, Option, ◌≡◌, refl, arith,
}
use reclaim_os.Diagnose.Explainer.{Narration, redact}
use reclaim_os.Live.Recorder.{
  Node, Items, Fields, text, list, dict, nil, cons, end, field, CallRecord, Recorder, or_empty,
  is_sensitive, sensitive_keys, scrub, scrub_items, scrub_fields, call_record, append_call,
}

any-member : (t : Text) (before after : List Text) → any (text_eq t) (before ++ t ∷ after) ≡ true
any-member t [] after = ground (arith, text_eq_iff t t)
any-member t (s ∷ before) after = ground (arith, any-member t before after)

any-equal :
    (t : Text) (keys before after : List Text)
    → keys ≡ before ++ t ∷ after
    → any (text_eq t) keys ≡ true
any-equal t keys before after e = rw e (any-member t before after)

is_sensitive-member :
    {Real : Type 0} (py : Narration Real) (lower : Text → Text) (k : Text)
    (before after : List Text)
    → sensitive_keys ≡ before ++ lower k ∷ after
    → is_sensitive py lower k ≡ true
unfolding is_sensitive
is_sensitive-member py lower k before after e = any-equal (lower k) sensitive_keys before after e

module _ {Real : Type 0} (py : Narration Real) (lower : Text → Text) where
  -- Two payloads that differ, at any depth of dicts and lists, only in what stands under a sensitive key and in what
  -- the redaction of a text removes.
  mutual
    pub data SameButSecrets : Node → Node → Type 0 where
      same : {v : Node} → SameButSecrets v v
      same_text : {s t : Text} → redact py s ≡ redact py t → SameButSecrets (text s) (text t)
      same_list : {xs ys : Items} → SameItems xs ys → SameButSecrets (list xs) (list ys)
      same_dict : {fs gs : Fields} → SameFields fs gs → SameButSecrets (dict fs) (dict gs)

    pub data SameItems : Items → Items → Type 0 where
      same_nil : SameItems nil nil
      same_cons :
          {x y : Node} {xs ys : Items}
          → SameButSecrets x y
          → SameItems xs ys
          → SameItems (cons x xs) (cons y ys)

    pub data SameFields : Fields → Fields → Type 0 where
      same_end : SameFields end end
      same_field :
          {k : Text} {v w : Node} {fs gs : Fields}
          → SameButSecrets v w
          → SameFields fs gs
          → SameFields (field k v fs) (field k w gs)
      secret :
          {k : Text} {v w : Node} {fs gs : Fields} (before after : List Text)
          → sensitive_keys ≡ before ++ lower k ∷ after
          → SameFields fs gs
          → SameFields (field k v fs) (field k w gs)

  mutual
    unfolding scrub

    scrub-same : {v w : Node} → SameButSecrets v w → scrub py lower v ≡ scrub py lower w
    scrub-same same = refl
    scrub-same (same_text e) = ground arith
    scrub-same (same_list h) = ground (arith, scrub_items-same h)
    scrub-same (same_dict h) = ground (arith, scrub_fields-same h)

    scrub_items-same :
        {xs ys : Items} → SameItems xs ys → scrub_items py lower xs ≡ scrub_items py lower ys
    scrub_items-same same_nil = refl
    scrub_items-same (same_cons h hs) = ground (arith, scrub-same h, scrub_items-same hs)

    scrub_fields-same :
        {fs gs : Fields} → SameFields fs gs → scrub_fields py lower fs ≡ scrub_fields py lower gs
    scrub_fields-same same_end = refl
    scrub_fields-same (same_field h hs) = ground (arith, scrub-same h, scrub_fields-same hs)
    scrub_fields-same (secret before after e hs) =
        ground (arith, is_sensitive-member py lower _ before after e, scrub_fields-same hs)

-- Two calls whose request and response differ only in what stands under a sensitive key, at any
-- depth of dicts and lists, and in what the redaction of a str removes, and whose errors are
-- redacted to one text, leave the same recorder behind, with the same file, whatever it was
-- before. What a tuple holds is not scrubbed, and has to be the same.
pub append_call-secrets :
    {Real : Type 0}
    → (py : Narration Real) (lower : Text → Text) (dump_json : CallRecord → Text) (r : Recorder)
      (now method path : Text) (status : Option ℕ) (ok : Bool)
      (request request' response response' : Option Fields) (error error' note : Text)
    → SameFields py lower (or_empty request) (or_empty request')
    → SameFields py lower (or_empty response) (or_empty response')
    → redact py error ≡ redact py error'
    → append_call dump_json
        (call_record py lower now method path status ok request response error note)
        r
      ≡ append_call dump_json
          (call_record py lower now method path status ok request' response' error' note)
          r
unfolding call_record scrub
append_call-secrets py lower dump_json r now method path status ok q q' p p' e e' note hq hp he =
    ground (arith, scrub_fields-same py lower hq, scrub_fields-same py lower hp)
