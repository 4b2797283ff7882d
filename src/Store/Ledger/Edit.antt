-- ===== src/Store/Ledger/Edit.antt =====
-- What `verify` reports of a ledger in which one row was altered in place.
use reclaim_os.Prelude.{
  ℕ, zero, suc, Text, ◌≡◌, ◌≢◌, refl, sym, ap, subst, ◌∙◌, arith, true, false, some, List, [], ◌∷◌,
  ◌++◌, get_elem?, is_empty, text_eq_iff,
}
use reclaim_os.Store.Canonical.{chain_hash, genesis_hash}
use reclaim_os.Store.Ledger.{Row, Table, ChainBreak, entry_hash_mismatch, check_link, verify}
use reclaim_os.Store.Ledger.Chain.{
  IsChain, verify-IsChain, row_breaks, chain_breaks, breaks-verify, row_breaks-nil,
}

-- Another payload in row `i`, as an editor of the database file would write it.
abbrev pub edit_payload : List Row → ℕ → Text → List Row
edit_payload [] i body = []
edit_payload (r ∷ rs) zero body = record r { payload = body } ∷ rs
edit_payload (r ∷ rs) (suc i) body = r ∷ edit_payload rs i body

empty_nil {ℓ} : {A : Type ℓ} (xs : List A) → is_empty xs ≡ true → xs ≡ []
empty_nil [] h = refl
empty_nil (x ∷ xs) h = cc

module _ (sha : Text → Text) where
  ok-verify : (t : Table) → (verify sha t).ok ≡ is_empty (verify sha t).breaks
  unfolding verify
  ok-verify t = refl

  good_row :
      (prev : Text) (r : Row)
      → r.prev_hash ≡ prev
      → chain_hash sha r.prev_hash r.payload ≡ r.entry_hash
      → row_breaks sha prev r ≡ []
  good_row prev r a b = empty_nil (row_breaks sha prev r) ((row_breaks-nil sha prev r).1 (a, b))

  good_chain : (prev : Text) (rs : List Row) → IsChain sha prev rs → chain_breaks sha prev rs ≡ []
  unfolding chain_breaks
  good_chain prev [] h = refl
  good_chain prev (r ∷ rs) h = rw (good_row prev r h.0 h.1) (good_chain r.entry_hash rs h.2)

  abbrev mismatch : Row → Text → ChainBreak
  mismatch r body = record {
    seq = r.seq;
    reason = entry_hash_mismatch;
    expected = chain_hash sha r.prev_hash body;
    found = r.entry_hash;
  }

  edited_row :
      (prev : Text) (r : Row) (body : Text)
      → r.prev_hash ≡ prev
      → chain_hash sha r.prev_hash body ≢ r.entry_hash
      → row_breaks sha prev (record r { payload = body }) ≡ mismatch r body ∷ []
  unfolding row_breaks check_link
  edited_row prev r body a b = ground (
    arith,
    text_eq_iff r.prev_hash prev,
    text_eq_iff r.entry_hash (chain_hash sha r.prev_hash body),
  )

  edited_chain :
      (prev : Text) (rs : List Row) (i : ℕ) (r : Row) (body : Text)
      → IsChain sha prev rs
      → get_elem? rs i ≡ some r
      → chain_hash sha r.prev_hash body ≢ r.entry_hash
      → chain_breaks sha prev (edit_payload rs i body) ≡ mismatch r body ∷ []
  unfolding chain_breaks
  edited_chain prev [] i r body h e b = cc
  edited_chain prev (q ∷ rs) zero r body h e b =
      let same : q ≡ r = cc in
      let b' : chain_hash sha q.prev_hash body ≢ q.entry_hash =
        subst (λ (x : Row). chain_hash sha x.prev_hash body ≢ x.entry_hash) (sym same) b in
      ap (λ bs. bs ++ chain_breaks sha q.entry_hash rs) (edited_row prev q body h.0 b')
      ∙ ap (λ bs. mismatch q body ∷ bs) (good_chain q.entry_hash rs h.2)
      ∙ ap (λ (x : Row). mismatch x body ∷ []) same
  edited_chain prev (q ∷ rs) (suc i) r body h e b =
      rw (good_row prev q h.0 h.1) (edited_chain q.entry_hash rs i r body h.2 e b)

  -- Of a ledger that verifies, write another payload into one row, one that does not hash to
  -- the entry hash that stands there. Then `verify` reports one break and no other: at that
  -- row, for its entry hash, with the recomputed hash expected and the stored one found.
  pub breaks-edit_payload :
      (t : Table) (i : ℕ) (r : Row) (body : Text)
      → (verify sha t).ok ≡ true
      → get_elem? t.rows i ≡ some r
      → chain_hash sha r.prev_hash body ≢ r.entry_hash
      → let v = verify sha (record t { rows = edit_payload t.rows i body }) in
        (v.ok ≡ false) × (v.breaks ≡ mismatch r body ∷ [])
  breaks-edit_payload t i r body h e b =
      let edited = record t { rows = edit_payload t.rows i body } in
      let one : (verify sha edited).breaks ≡ mismatch r body ∷ [] =
        breaks-verify sha edited
        ∙ edited_chain genesis_hash t.rows i r body ((verify-IsChain sha t).0.0 h) e b in
      (ok-verify edited ∙ ap is_empty one, one)
