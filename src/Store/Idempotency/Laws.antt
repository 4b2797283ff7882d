-- ===== src/Store/Idempotency/Laws.antt =====
-- What every idempotency store promises, and that both backends keep it.
use reclaim_os.Prelude.{
  Text, ◌≡◌, Bool, true, false, not, Option, none, some, arith, text_eq, text_eq_iff, if◌then◌else◌,
  Option-cases, inl, inr,
}
use reclaim_os.Prelude.Dict.{lookup, lookup-insert, is_some}
use reclaim_os.Store.Canonical.{
  Value, canonical_json, done, non_canonical, Outcome-cases, canonical_json-done,
}
use reclaim_os.Store.Idempotency.{
  Claim, Recorded, recorded, no_claim, already_recorded, not_canonical, Backend,
}
use reclaim_os.Store.Idempotency.Backends.{
  memory, memory_claim, memory_record_result, sqlite, sqlite_claim, sqlite_get,
  sqlite_record_result,
}

-- The answer of `record_result`, by whether the result can be stored and what the key holds.
abbrev pub answer : Bool → Option Claim → Recorded
answer false o = not_canonical
answer true none = no_claim
answer true (some c) = if is_some c.result then already_recorded else recorded

-- What the key holds afterwards.
abbrev pub completed : Bool → Value → Option Claim → Option Claim
completed false v o = o
completed true v none = none
completed true v (some c) = some (if is_some c.result then c else record c { result = some v })

-- What the key holds after a claim.
abbrev pub claimed : Text → Text → Option Claim → Option Claim
claimed now k none = some (record { key = k; claimed_at = now; result = none })
claimed now k (some c) = some c

-- A store seen through `get`. `accepts` says which results can be stored, and `reread` what a
-- stored result reads back as.
pub record IsBackend {S : Type 0} (b : Backend S) (accepts : Value → Bool) (reread : Value → Value)
    : Type 0 where
  pub claim_answer : (now k : Text) (s : S) → (b.claim now k s).0 ≡ not (is_some (b.get k s))
  pub get-claim :
      (now k j : Text) (s : S)
      → b.get j (b.claim now k s).1 ≡ (if text_eq k j then claimed now k (b.get k s) else b.get j s)
  pub record_answer :
      (k : Text) (v : Value) (s : S) → (b.record_result k v s).0 ≡ answer (accepts v) (b.get k s)
  pub get-record_result :
      (k j : Text) (v : Value) (s : S)
      → b.get j (b.record_result k v s).1
        ≡ (if text_eq k j then completed (accepts v) (reread v) (b.get k s) else b.get j s)

-- The in-memory store keeps the promises; it stores every result, as it is.
pub memory-IsBackend : IsBackend memory (λ v. true) (λ v. v)
unfolding memory_claim memory_record_result
memory-IsBackend = record {
  claim_answer = λ now k s. ground arith;
  get-claim = λ now k j s. ground (
    arith,
    text_eq_iff k j,
    lookup-insert k j (record { key = k; claimed_at = now; result = none }) s,
  );
  record_answer = λ k v s. ground arith;
  get-record_result = λ k j v s. elim (Option-cases (lookup k s)) [
    | inl e ↦ ground (arith, text_eq_iff k j)
    | inr (c, e) ↦
        ground (arith, text_eq_iff k j, lookup-insert k j (record c { result = some v }) s)
  ];
}

-- Does `canonical_json` return?
abbrev pub is_canonical : (Value → Text) → Value → Bool
is_canonical dumps v = elim (canonical_json dumps v) [ done _ ↦ true | non_canonical ↦ false ]

-- The SQLite store keeps the promises; it stores the results that have a canonical text, and
-- reads back what `json.loads` makes of that text.
pub sqlite-IsBackend :
    (dumps : Value → Text) (loads : Text → Value)
    → IsBackend (sqlite dumps loads) (is_canonical dumps) (λ v. loads (dumps v))
unfolding sqlite_claim sqlite_get sqlite_record_result
sqlite-IsBackend dumps loads = record {
  claim_answer = λ now k s. ground arith;
  get-claim = λ now k j s.
      ground
        (arith, text_eq_iff k j, lookup-insert k j (record { claimed_at = now; result = none }) s);
  record_answer = λ k v s. ground arith;
  get-record_result = λ k j v s. elim (Outcome-cases (canonical_json dumps v)) [
    | inl e ↦ ground (arith, text_eq_iff k j)
    | inr (text, e) ↦ elim (Option-cases (lookup k s)) [
      | inl e' ↦ ground (arith, text_eq_iff k j)
      | inr (row, e') ↦ ground (
        arith,
        text_eq_iff k j,
        canonical_json-done dumps v text e,
        lookup-insert k j (record row { result = some text }) s,
      )
    ]
  ];
}
