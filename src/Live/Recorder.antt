-- ===== src/Live/Recorder.antt =====
-- src/reclaimos/live/recorder.py: the scrubbing of a payload and the transcript that it is written
-- to. `str.lower`, and model_dump_json of a call, are parameters; an instant is an ISO text.
pub mod Secrets
use reclaim_os.Prelude.{
  ℕ, Text, codes, Bool, Option, none, some, List, [], ◌∷◌, ◌++◌, any, take, text_eq, if◌then◌else◌,
}
use reclaim_os.Diagnose.Explainer.{Narration, redact}

-- A value as `_scrub` tells them apart: a str (an enum of the program is one), a list, a dict with
-- its keys in order, and any other value, a tuple among them, by its repr.
mutual
  pub data Node : Type 0 where
    text : Text → Node
    list : Items → Node
    dict : Fields → Node
    other : Text → Node

  pub data Items : Type 0 where
    nil : Items
    cons : Node → Items → Items

  pub data Fields : Type 0 where
    end : Fields
    field : Text → Node → Fields → Fields

abbrev pub sensitive_keys : List Text
sensitive_keys =
    codes "key_secret"
    ∷ (codes "secret"
        ∷ (codes "password"
            ∷ (codes "token"
                ∷ (codes "card_id"
                    ∷ (codes "vpa"
                        ∷ (codes "account_number"
                            ∷ (codes "ifsc" ∷ (codes "beneficiary_name" ∷ []))))))))

pub record CallRecord : Type 0 where
  pub at : Text
  pub method : Text
  pub path : Text
  pub status : Option ℕ
  pub ok : Bool
  pub request : Node
  pub response : Node
  pub error : Text
  pub note : Text

-- `Recorder`: the calls of this process, and the text of the transcript's file.
pub record Recorder : Type 0 where
  pub calls : List CallRecord
  pub transcript : Text

-- `request or {}`
abbrev pub or_empty : Option Fields → Fields
or_empty none = end
or_empty (some fs) = fs

module _ {Real : Type 0} (py : Narration Real) (lower : Text → Text) where
  unfoldable pub is_sensitive : Text → Bool
  is_sensitive key = any (text_eq (lower key)) sensitive_keys

  unfoldable mutual
    unfolding is_sensitive

    pub scrub : Node → Node
    scrub (dict fs) = dict (scrub_fields fs)
    scrub (list xs) = list (scrub_items xs)
    scrub (text t) = text (redact py t)
    scrub (other t) = other t

    pub scrub_items : Items → Items
    scrub_items nil = nil
    scrub_items (cons x xs) = cons (scrub x) (scrub_items xs)

    pub scrub_fields : Fields → Fields
    scrub_fields end = end
    scrub_fields (field key v fs) =
        field key (if is_sensitive key then text (codes "[redacted]") else scrub v)
          (scrub_fields fs)

  -- The entry that `record` makes of a call, at the time `now`.
  unfoldable pub call_record :
      Text
      → Text
      → Text
      → Option ℕ
      → Bool
      → Option Fields
      → Option Fields
      → Text
      → Text
      → CallRecord
  unfolding scrub
  call_record now method path status ok request response error note = record {
    at = now;
    method = method;
    path = path;
    status = status;
    ok = ok;
    request = scrub (dict (or_empty request));
    response = scrub (dict (or_empty response));
    error = take 500 (redact py error);
    note = note;
  }

-- The end of `record`: the call is kept, and written as a line of the file.
unfoldable pub append_call : (CallRecord → Text) → CallRecord → Recorder → Recorder
append_call dump_json call r = record {
  calls = r.calls ++ call ∷ [];
  transcript = r.transcript ++ (dump_json call ++ codes "\n");
}
