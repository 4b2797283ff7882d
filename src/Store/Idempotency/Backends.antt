-- ===== src/Store/Idempotency/Backends.antt =====
-- `SqliteIdempotencyStore` over the `idempotency` table of store/db.py, and
-- `InMemoryIdempotencyStore` over its dict.
use reclaim_os.Prelude.{Text, Bool, true, false, Option, none, some, length, if◌then◌else◌}
use reclaim_os.Prelude.Dict.{Dict, lookup, insert, is_some}
use reclaim_os.Store.Canonical.{Value, canonical_json, done, non_canonical}
use reclaim_os.Store.Idempotency.{
  Claim, Recorded, recorded, no_claim, already_recorded, not_canonical, Backend,
}

-- The dict `_claims`.
abbrev pub Memory : Type 0
Memory = Dict Claim

unfoldable pub memory_claim : Text → Text → Memory → Bool × Memory
memory_claim now key m =
    if is_some (lookup key m)
    then (false, m)
    else (true, insert key (record { key = key; claimed_at = now; result = none }) m)

unfoldable pub memory_record_result : Text → Value → Memory → Recorded × Memory
memory_record_result key result m = elim (lookup key m) [
  | none ↦ (no_claim, m)
  | some existing ↦
      if is_some existing.result
      then (already_recorded, m)
      else (recorded, insert key (record existing { result = some result }) m)
]

abbrev pub memory : Backend Memory
memory = record {
  claim = memory_claim;
  record_result = memory_record_result;
  get = lookup;
  count = length;
}

-- A row of the table; the key is the PRIMARY KEY.
pub record ClaimRow : Type 0 where
  pub claimed_at : Text
  pub result : Option Text

abbrev pub Sqlite : Type 0
Sqlite = Dict ClaimRow

-- INSERT INTO idempotency: an IntegrityError if the key is there.
unfoldable pub sqlite_claim : Text → Text → Sqlite → Bool × Sqlite
sqlite_claim now key rows =
    if is_some (lookup key rows)
    then (false, rows)
    else (true, insert key (record { claimed_at = now; result = none }) rows)

-- UPDATE idempotency SET result = ? WHERE key = ? AND result IS NULL: the row that matches.
unfoldable pub matching_row : Text → Sqlite → Option ClaimRow
matching_row key rows = elim (lookup key rows) [
  | none ↦ none
  | some row ↦ if is_some row.result then none else some row
]

module _ (dumps : Value → Text) (loads : Text → Value) where
  read_row : Text → ClaimRow → Claim
  read_row key row = record {
    key = key;
    claimed_at = row.claimed_at;
    result = elim row.result [ none ↦ none | some raw ↦ some (loads raw) ];
  }

  unfoldable pub sqlite_get : Text → Sqlite → Option Claim
  unfolding read_row
  sqlite_get key rows = elim (lookup key rows) [ none ↦ none | some row ↦ some (read_row key row) ]

  unfoldable pub sqlite_record_result : Text → Value → Sqlite → Recorded × Sqlite
  unfolding matching_row
  sqlite_record_result key result rows = elim (canonical_json dumps result) [
    | non_canonical ↦ (not_canonical, rows)
    | done text ↦ elim (matching_row key rows) [
      | some row ↦ (recorded, insert key (record row { result = some text }) rows)
      | none ↦ elim (sqlite_get key rows) [
        | none ↦ (no_claim, rows)
        | some existing ↦ (already_recorded, rows)
      ]
    ]
  ]

  abbrev pub sqlite : Backend Sqlite
  sqlite = record {
    claim = sqlite_claim;
    record_result = sqlite_record_result;
    get = sqlite_get;
    count = length;
  }
