-- ===== src/Diagnose/Classifier.antt =====
-- src/reclaimos/diagnose/classifier.py: the index of the decline table, and `classify`.
pub mod Index
pub mod Verdict
use reclaim_os.Prelude.{
  ℕ, Text, codes, ◌++◌, Bool, true, false, not, ◌&&◌, ◌||◌, Option, none, some, List, [], ◌∷◌,
  foldl, any, length, find, text_eq, lower, if◌then◌else◌,
}
use reclaim_os.Prelude.Decimal.{decimal}
use reclaim_os.Prelude.Dict.{or_default}
use reclaim_os.Domain.Declines.{
  DeclineClass, DeclineCode, decline_codes, same_class, is_hard, name, soft_insufficient_funds,
  soft_issuer_technical, soft_limit_exceeded, hard_risk_flagged, hard_do_not_honor,
  hard_mandate_revoked, hard_not_permitted, expiry_card_expired, expiry_mandate_expired, unknown,
}
use reclaim_os.Domain.Models.{PaymentAttempt}
use reclaim_os.Domain.Real.{Reals}

-- The tuple (code, source, step, reason).
pub record Key : Type 0 where
  pub code : Text
  pub source : Text
  pub step : Text
  pub reason : Text

unfoldable pub same_key : Key → Key → Bool
same_key k j =
    text_eq k.code j.code
    && (text_eq k.source j.source && (text_eq k.step j.step && text_eq k.reason j.reason))

abbrev pub key_of : DeclineCode → Key
key_of c = record { code = c.code; source = c.source; step = c.step; reason = c.reason }

abbrev pub Owners : Type 0
Owners = List DeclineClass

abbrev pub Index : Type 0
Index = List (Key × Owners)

-- `c in owners`
unfoldable pub owns : DeclineClass → Owners → Bool
owns c = any (λ d. same_class d c)

unfoldable pub add_owner : DeclineClass → Owners → Owners
add_owner c owners = if owns c owners then owners else owners ++ c ∷ []

-- One round of the loop of `_index`: `setdefault`, then the append.
unfoldable pub add_code : Index → DeclineCode → Index
add_code [] c = (key_of c, add_owner c.true_class []) ∷ []
add_code ((k, owners) ∷ rest) c =
    if same_key k (key_of c)
    then (k, add_owner c.true_class owners) ∷ rest
    else (k, owners) ∷ add_code rest c

unfoldable pub index_of : List DeclineCode → Index
index_of = foldl add_code []

-- `TUPLE_INDEX.get(key)`
unfoldable pub candidates_for : Key → Index → Option Owners
candidates_for k [] = none
candidates_for k ((j, owners) ∷ rest) = if same_key j k then some owners else candidates_for k rest

abbrev pub tuple_index : Index
tuple_index = index_of decline_codes

abbrev pub ambiguity_preference : List DeclineClass
ambiguity_preference =
    soft_insufficient_funds ∷ hard_do_not_honor ∷ soft_issuer_technical ∷ soft_limit_exceeded
    ∷ expiry_card_expired ∷ expiry_mandate_expired ∷ hard_risk_flagged ∷ hard_mandate_revoked
    ∷ hard_not_permitted ∷ unknown ∷ []

-- `_prefer`: the first preference among the candidates, else the first candidate `first`.
unfoldable pub prefer : DeclineClass → Owners → DeclineClass
prefer first rest = or_default (find (λ c. owns c (first ∷ rest)) ambiguity_preference) first

pub record Classification (Real : Type 0) : Type 0 where
  pub decline_class : DeclineClass
  pub confidence : Real
  pub rule_id : Text
  pub ambiguous : Bool
  pub candidates : Owners
  pub hard_possible : Bool
  pub evidence : List (Option Text)

abbrev pub attempt_key : PaymentAttempt → Key
attempt_key a = record {
  code = or_default a.error_code [];
  source = or_default a.error_source [];
  step = or_default a.error_step [];
  reason = or_default a.error_reason [];
}

module _ (R : Reals) where
  -- The three ways to answer. A tuple in the index has at least one owner: `[]` does not arise.
  unfoldable pub classify_as : List (Option Text) → Option Owners → Classification R.Real
  classify_as evidence none = record {
    decline_class = unknown;
    confidence = R.lit 20 2;
    rule_id = codes "classify.unrecognised_tuple";
    ambiguous = true;
    candidates = unknown ∷ [];
    hard_possible = true;
    evidence = evidence;
  }
  classify_as evidence (some []) = record {
    decline_class = unknown;
    confidence = R.lit 20 2;
    rule_id = [];
    ambiguous = true;
    candidates = [];
    hard_possible = true;
    evidence = evidence;
  }
  classify_as evidence (some (c ∷ [])) = record {
    decline_class = c;
    confidence = R.lit 95 2;
    rule_id = codes "classify.exact." ++ lower (name c);
    ambiguous = false;
    candidates = c ∷ [];
    hard_possible = is_hard c;
    evidence = evidence;
  }
  classify_as evidence (some (c ∷ (d ∷ rest))) =
      let n = length (c ∷ (d ∷ rest)) in
      record {
        decline_class = prefer c (d ∷ rest);
        confidence = R.round4 (R.div (R.lit 1 0) (R.of_nat n));
        rule_id = codes "classify.ambiguous." ++ (decimal n ++ codes "_candidates");
        ambiguous = true;
        candidates = c ∷ (d ∷ rest);
        hard_possible = any is_hard (c ∷ (d ∷ rest));
        evidence = evidence;
      }

  unfoldable pub classify : PaymentAttempt → Classification R.Real
  classify a =
      classify_as (a.error_code ∷ a.error_source ∷ a.error_step ∷ a.error_reason ∷ [])
        (candidates_for (attempt_key a) tuple_index)
