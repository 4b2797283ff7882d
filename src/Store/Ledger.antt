-- ===== src/Store/Ledger.antt =====
-- src/reclaimos/store/ledger.py over the `ledger` table of src/reclaimos/store/db.py.
-- A table is its rows in the order of `seq`, with the last number that AUTOINCREMENT gave out.
-- The clock (`recorded_at`), SHA-256 (`sha`) and `json.dumps` (`dumps`) are parameters.
pub mod Chain
pub mod Append
pub mod Tamper
pub mod Edit
use reclaim_os.Prelude.{
  ℕ, ◌+◌, Text, codes, Bool, true, false, not, Option, none, some, List, [], ◌∷◌, ◌++◌, map, foldl,
  text_eq, any, length, last_or, is_empty, if◌then◌else◌,
}
use reclaim_os.Store.Canonical.{
  Value, Outcome, done, non_canonical, canonical_json, chain_hash, genesis_hash,
}

pub record Row : Type 0 where
  pub seq : ℕ
  pub recorded_at : Text
  pub prev_hash : Text
  pub entry_hash : Text
  pub payload : Text

pub record Table : Type 0 where
  pub rows : List Row
  pub autoincrement : ℕ

abbrev pub empty : Table
empty = record { rows = []; autoincrement = 0 }

-- `LedgerEntry`: what `append` returns; its payload is the one handed in.
pub record LedgerEntry : Type 0 where
  pub seq : ℕ
  pub recorded_at : Text
  pub prev_hash : Text
  pub entry_hash : Text
  pub payload : Value

-- `append` returns an entry, or raises `NonCanonicalPayload` before it touches the table, or
-- lets out the `IntegrityError` of the UNIQUE column after a ROLLBACK.
pub data Appended : Type 0 where
  appended : LedgerEntry → Appended
  not_canonical : Appended
  integrity_error : Appended

abbrev pub entry_hashes : List Row → List Text
entry_hashes = map (λ r. r.entry_hash)

-- `head`: the hash of the row of the greatest `seq`, or the genesis constant.
unfoldable pub head : Table → Text
head t = last_or genesis_hash (entry_hashes t.rows)

unfoldable pub has_hash : Text → List Row → Bool
has_hash h = any (λ r. text_eq r.entry_hash h)

-- The row that an INSERT adds, and the table with it.
abbrev pub new_row : Text → Text → Text → Text → Table → Row
new_row recorded_at prev_hash entry_hash payload t = record {
  seq = t.autoincrement + 1;
  recorded_at = recorded_at;
  prev_hash = prev_hash;
  entry_hash = entry_hash;
  payload = payload;
}

abbrev pub with_row : Row → Table → Table
with_row r t = record { rows = t.rows ++ r ∷ []; autoincrement = r.seq }

-- The INSERT, under the constraint UNIQUE on `entry_hash`; none is the IntegrityError.
unfoldable pub insert_row : Text → Text → Text → Text → Table → Option Table
insert_row recorded_at prev_hash entry_hash payload t =
    if has_hash entry_hash t.rows
    then none
    else some (with_row (new_row recorded_at prev_hash entry_hash payload t) t)

module _ (sha : Text → Text) where
  -- Between BEGIN IMMEDIATE and COMMIT or ROLLBACK.
  unfoldable pub transaction : Text → Value → Text → Table → Appended × Table
  unfolding insert_row
  transaction now payload body t =
      let prev_hash = head t in
      let entry_hash = chain_hash sha prev_hash body in
      elim (insert_row now prev_hash entry_hash body t) [
        | none ↦ (integrity_error, t)
        | some t' ↦ (
          appended (record {
            seq = t'.autoincrement;
            recorded_at = now;
            prev_hash = prev_hash;
            entry_hash = entry_hash;
            payload = payload;
          }),
          t',
        )
      ]

  unfoldable pub append : (Value → Text) → Text → Value → Table → Appended × Table
  append dumps now payload t = elim (canonical_json dumps payload) [
    | non_canonical ↦ (not_canonical, t)
    | done body ↦ transaction now payload body t
  ]

pub data Reason : Type 0 where
  prev_hash_mismatch entry_hash_mismatch : Reason

pub record ChainBreak : Type 0 where
  pub seq : ℕ
  pub reason : Reason
  pub expected : Text
  pub found : Text

pub record ChainVerification : Type 0 where
  pub ok : Bool
  pub entries : ℕ
  pub head : Text
  pub breaks : List ChainBreak

-- The loop variables of `verify`.
pub record Walk : Type 0 where
  pub breaks : List ChainBreak
  pub expected_prev : Text
  pub head : Text

-- One `if … != …: breaks.append(ChainBreak(…))`.
unfoldable pub check_link : ℕ → Reason → Text → Text → List ChainBreak → List ChainBreak
check_link seq reason expected found breaks =
    if text_eq found expected
    then breaks
    else breaks ++ record { seq = seq; reason = reason; expected = expected; found = found } ∷ []

abbrev pub start : Walk
start = record { breaks = []; expected_prev = genesis_hash; head = genesis_hash }

module _ (sha : Text → Text) where
  unfoldable pub verify_row : Walk → Row → Walk
  unfolding chain_hash
  verify_row w r =
      let linked = check_link r.seq prev_hash_mismatch w.expected_prev r.prev_hash w.breaks in
      let recomputed = chain_hash sha r.prev_hash r.payload in
      record {
        breaks = check_link r.seq entry_hash_mismatch recomputed r.entry_hash linked;
        expected_prev = r.entry_hash;
        head = r.entry_hash;
      }

  unfoldable pub verify : Table → ChainVerification
  unfolding verify_row
  verify t =
      let w = foldl verify_row start t.rows in
      record { ok = is_empty w.breaks; entries = length t.rows; head = w.head; breaks = w.breaks }

unfoldable pub count : Table → ℕ
count t = length t.rows
