-- ===== src/Store/Ledger/Append.antt =====
-- `append` keeps the chain, and any history of appends verifies.
use reclaim_os.Prelude.{
  ℕ, ◌+◌, Text, ◌≡◌, refl, ap, ◌∙◌, arith, Bool-cases, ◌⊎◌, false, inl, inr, true, List, [], ◌∷◌,
  ◌++◌, length, length-append, map-append, last_or, last_or-append,
}
use reclaim_os.Store.Canonical.{
  Value, Outcome, done, Outcome-cases, non_canonical, canonical_json, chain_hash, genesis_hash,
}
use reclaim_os.Store.Ledger.{
  Row, Table, Appended, appended, not_canonical, integrity_error, append, transaction, head, verify,
  empty, entry_hashes, count, new_row, with_row, has_hash, LedgerEntry,
}
use reclaim_os.Store.Ledger.Chain.{IsChain, IsChain-append, verify-IsChain}

-- The rows are numbered from `n` on, without a gap.
abbrev pub IsNumbered : ℕ → List Row → Type 0
IsNumbered n [] = Unit
IsNumbered n (r ∷ rs) = (r.seq ≡ n) × IsNumbered (n + 1) rs

IsNumbered-append :
    (n : ℕ) (rs : List Row) (r : Row)
    → IsNumbered n rs
    → r.seq ≡ n + length rs
    → IsNumbered n (rs ++ r ∷ [])
IsNumbered-append n [] r h e = (omega arith, tt)
IsNumbered-append n (q ∷ rs) r h e = (h.0, IsNumbered-append (n + 1) rs r h.1 (omega arith))

module _ (sha : Text → Text) where
  -- What every history of appends keeps.
  pub record IsIntact (t : Table) : Type 0 where
    pub chained : IsChain sha genesis_hash t.rows
    pub numbered : IsNumbered 1 t.rows
    pub last_number : t.autoincrement ≡ length t.rows

  -- The row of an append, and the entry that `append` returns for it.
  abbrev pub row_of : Text → Text → Table → Row
  row_of now body t = new_row now (head t) (chain_hash sha (head t) body) body t

  abbrev pub entry_of : Text → Value → Text → Table → LedgerEntry
  entry_of now payload body t = record {
    seq = t.autoincrement + 1;
    recorded_at = now;
    prev_hash = head t;
    entry_hash = chain_hash sha (head t) body;
    payload = payload;
  }

  pub transaction-cases :
      (now : Text) (payload : Value) (body : Text) (t : Table)
      → ((has_hash (chain_hash sha (head t) body) t.rows ≡ true)
          × (transaction sha now payload body t ≡ (integrity_error, t)))
        ⊎ ((has_hash (chain_hash sha (head t) body) t.rows ≡ false)
            × (transaction sha now payload body t
                ≡ (appended (entry_of now payload body t), with_row (row_of now body t) t)))
  unfolding transaction
  transaction-cases now payload body t =
      elim (Bool-cases (has_hash (chain_hash sha (head t) body) t.rows)) [
        | inl e ↦ inl (e, rw (e, transaction) refl)
        | inr e ↦ inr (e, rw (e, transaction) refl)
      ]

  with_row-IsIntact :
      (now body : Text) (t : Table) → IsIntact t → IsIntact (with_row (row_of now body t) t)
  with_row-IsIntact now body t h = record {
    chained =
        IsChain-append sha genesis_hash t.rows (row_of now body t) h.chained (unfold head in refl)
          refl;
    numbered =
        IsNumbered-append 1 t.rows (row_of now body t) h.numbered (omega (arith, h.last_number));
    last_number = omega (arith, h.last_number, length-append t.rows (row_of now body t ∷ []));
  }

  -- Whatever the outcome of an append, an intact table stays intact: the chain holds, and the
  -- rows are numbered from 1 without a gap.
  pub append-IsIntact :
      (dumps : Value → Text) (now : Text) (payload : Value) (t : Table)
      → IsIntact t
      → IsIntact (append sha dumps now payload t).1
  unfolding append
  append-IsIntact dumps now payload t h = elim (Outcome-cases (canonical_json dumps payload)) [
    | inl e ↦ rw (e, append) h
    | inr (body, e) ↦
        rw (e, append)
          (elim (transaction-cases now payload body t) [
            | inl same ↦ rw (same.1) h
            | inr added ↦ rw (added.1) (with_row-IsIntact now body t h)
          ])
  ]

  -- A history of appends, each with its own time and payload, failed ones included.
  pub append_all : (Value → Text) → List (Text × Value) → Table → Table
  append_all dumps [] t = t
  append_all dumps ((now, payload) ∷ rest) t =
      append_all dumps rest (append sha dumps now payload t).1

  append_all-IsIntact :
      (dumps : Value → Text) (history : List (Text × Value)) (t : Table)
      → IsIntact t
      → IsIntact (append_all dumps history t)
  unfolding append_all
  append_all-IsIntact dumps [] t h = h
  append_all-IsIntact dumps ((now, payload) ∷ rest) t h =
      append_all-IsIntact dumps rest (append sha dumps now payload t).1
        (append-IsIntact dumps now payload t h)

  -- From the empty table, every history of appends, failed ones included, leaves a table that
  -- `verify` accepts with no break, whose rows are numbered 1, 2, 3 and so on.
  pub verify-append_all :
      (dumps : Value → Text) (history : List (Text × Value))
      → let t = append_all dumps history empty in ((verify sha t).ok ≡ true) × IsNumbered 1 t.rows
  verify-append_all dumps history =
      let intact =
        append_all-IsIntact dumps history empty
          (record { chained = tt; numbered = tt; last_number = refl }) in
      ((verify-IsChain sha (append_all dumps history empty)).0.1 intact.chained, intact.numbered)

  -- What an append did, by its outcome: a payload that is not canonical and a hash that the
  -- table already holds change nothing; otherwise one row stands after the old ones, the
  -- entry returned links to the old head, and its hash is the new head.
  abbrev pub Wrote : Table → Text → Value → Outcome Text → Appended × Table → Type 0
  Wrote t now payload non_canonical out = out ≡ (not_canonical, t)
  Wrote t now payload (done body) out =
      ((has_hash (chain_hash sha (head t) body) t.rows ≡ true) × (out ≡ (integrity_error, t)))
      ⊎ ((has_hash (chain_hash sha (head t) body) t.rows ≡ false)
          × (out.0 ≡ appended (entry_of now payload body t))
          × (out.1.rows ≡ t.rows ++ row_of now body t ∷ [])
          × (head out.1 ≡ chain_hash sha (head t) body)
          × (count out.1 ≡ count t + 1))

  head-with_row : (r : Row) (t : Table) → head (with_row r t) ≡ r.entry_hash
  unfolding head
  head-with_row r t =
      ap (last_or genesis_hash) (map-append (λ (q : Row). q.entry_hash) t.rows (r ∷ []))
      ∙ last_or-append genesis_hash r.entry_hash (entry_hashes t.rows)

  -- Every outcome of an append: a payload that is not canonical, or a hash that the table
  -- already holds, changes nothing; otherwise exactly one row is added behind the old ones,
  -- the entry returned links to the old head, and its hash is the new head.
  pub append-Wrote :
      (dumps : Value → Text) (now : Text) (payload : Value) (t : Table)
      → Wrote t now payload (canonical_json dumps payload) (append sha dumps now payload t)
  unfolding append
  append-Wrote dumps now payload t = elim (Outcome-cases (canonical_json dumps payload)) [
    | inl e ↦ rw (e, append) refl
    | inr (body, e) ↦
        rw (e, append)
          (elim (transaction-cases now payload body t) [
            | inl same ↦ inl same
            | inr (fresh, added) ↦ inr (
              fresh,
              ap (λ (o : Appended × Table). o.0) added,
              ap (λ (o : Appended × Table). o.1.rows) added,
              ap (λ (o : Appended × Table). head o.1) added ∙ head-with_row (row_of now body t) t,
              unfold count in
                  (ap (λ (o : Appended × Table). length o.1.rows) added
                    ∙ length-append t.rows (row_of now body t ∷ [])
                    ∙ omega arith),
            )
          ])
  ]
