-- ===== src/Store/Ledger/Chain.antt =====
-- `verify` against a recursive description of an unbroken chain.
use reclaim_os.Prelude.{
  ℕ, Text, ◌≡◌, refl, ◌↔◌, ◌∙◌, arith, Bool-cases, inl, inr, true, List, [], ◌∷◌, ◌++◌, foldl,
  append_assoc, append-nil, is_empty, text_eq_iff, last_or, sym, ap, ap₂, length, &&-true, ◌&&◌,
  is_empty-append, text_eq,
}
use reclaim_os.Store.Canonical.{chain_hash, genesis_hash}
use reclaim_os.Store.Ledger.{
  Row, Table, Walk, ChainBreak, Reason, prev_hash_mismatch, entry_hash_mismatch, check_link,
  verify_row, verify, start, head, entry_hashes,
}

module _ (sha : Text → Text) where
  -- Every row links to the hash before it and carries the hash of its own content.
  abbrev pub IsChain : Text → List Row → Type 0
  IsChain prev [] = Unit
  IsChain prev (r ∷ rs) =
      (r.prev_hash ≡ prev)
      × (chain_hash sha r.prev_hash r.payload ≡ r.entry_hash)
      × IsChain r.entry_hash rs

  -- The breaks of a single row.
  unfoldable pub row_breaks : Text → Row → List ChainBreak
  row_breaks prev r =
      check_link r.seq prev_hash_mismatch prev r.prev_hash []
      ++ check_link r.seq entry_hash_mismatch (chain_hash sha r.prev_hash r.payload) r.entry_hash []

  unfoldable pub chain_breaks : Text → List Row → List ChainBreak
  chain_breaks prev [] = []
  chain_breaks prev (r ∷ rs) = row_breaks prev r ++ chain_breaks r.entry_hash rs

  check_link-append :
      (seq : ℕ) (reason : Reason) (e f : Text) (bs : List ChainBreak)
      → check_link seq reason e f bs ≡ bs ++ check_link seq reason e f []
  unfolding check_link
  check_link-append seq reason e f bs = elim (Bool-cases (text_eq f e)) [
    | inl p ↦ rw p (sym (append-nil bs))
    | inr p ↦ rw p refl
  ]

  breaks-verify_row :
      (w : Walk) (r : Row) → (verify_row sha w r).breaks ≡ w.breaks ++ row_breaks w.expected_prev r
  unfolding verify_row row_breaks
  breaks-verify_row w r =
      let linked = check_link r.seq prev_hash_mismatch w.expected_prev r.prev_hash w.breaks in
      let recomputed = chain_hash sha r.prev_hash r.payload in
      check_link-append r.seq entry_hash_mismatch recomputed r.entry_hash linked
      ∙ ap (λ bs. bs ++ check_link r.seq entry_hash_mismatch recomputed r.entry_hash [])
          (check_link-append r.seq prev_hash_mismatch w.expected_prev r.prev_hash w.breaks)
      ∙ append_assoc w.breaks _ _

  breaks-foldl :
      (w : Walk) (rs : List Row)
      → (foldl (verify_row sha) w rs).breaks ≡ w.breaks ++ chain_breaks w.expected_prev rs
  unfolding chain_breaks
  breaks-foldl w [] = sym (append-nil w.breaks)
  breaks-foldl w (r ∷ rs) =
      breaks-foldl (verify_row sha w r) rs
      ∙ unfold verify_row in
        (ap (λ bs. bs ++ chain_breaks r.entry_hash rs) (breaks-verify_row w r)
          ∙ append_assoc w.breaks _ _)

  -- `verify` reports the breaks of the rows, in their order.
  pub breaks-verify : (t : Table) → (verify sha t).breaks ≡ chain_breaks genesis_hash t.rows
  unfolding verify
  breaks-verify t = breaks-foldl start t.rows

  pub row_breaks-nil :
      (prev : Text) (r : Row)
      → (is_empty (row_breaks prev r) ≡ true)
        ↔ ((r.prev_hash ≡ prev) × (chain_hash sha r.prev_hash r.payload ≡ r.entry_hash))
  unfolding row_breaks check_link
  row_breaks-nil prev r =
      let a = text_eq_iff r.prev_hash prev in
      let b = text_eq_iff r.entry_hash (chain_hash sha r.prev_hash r.payload) in
      (λ h. ground (arith, a, b), λ h. ground (arith, a, b))

  pub chain_breaks-nil :
      (prev : Text) (rs : List Row) → (is_empty (chain_breaks prev rs) ≡ true) ↔ IsChain prev rs
  unfolding chain_breaks
  chain_breaks-nil prev [] = (λ h. tt, λ h. refl)
  chain_breaks-nil prev (r ∷ rs) =
      let a = row_breaks-nil prev r in
      let b = chain_breaks-nil r.entry_hash rs in
      let e = is_empty-append (row_breaks prev r) (chain_breaks r.entry_hash rs) in
      (
        λ h.
            let both = &&-true _ _ (sym e ∙ h) in
            let (linked, hashed) = a.0 both.0 in (linked, hashed, b.0 both.1),
        λ h. e ∙ ap₂ ◌&&◌ (a.1 (h.0, h.1)) (b.1 h.2),
      )

  head-foldl :
      (w : Walk) (rs : List Row)
      → (foldl (verify_row sha) w rs).head ≡ last_or w.head (entry_hashes rs)
  head-foldl w [] = refl
  head-foldl w (r ∷ rs) = head-foldl (verify_row sha w r) rs ∙ unfold verify_row in refl

  -- `verify` answers ok exactly when every row links to the one before it, the first to the
  -- genesis hash, and carries the hash of its own content; and it always reports the number of
  -- rows and the hash that the next row will link to.
  pub verify-IsChain :
      (t : Table)
      → (((verify sha t).ok ≡ true) ↔ IsChain genesis_hash t.rows)
        × ((verify sha t).entries ≡ length t.rows)
        × ((verify sha t).head ≡ head t)
  unfolding verify head
  verify-IsChain t = (
    (
      λ h. (chain_breaks-nil genesis_hash t.rows).0 (sym (ap is_empty (breaks-verify t)) ∙ h),
      λ h. ap is_empty (breaks-verify t) ∙ ((chain_breaks-nil genesis_hash t.rows).1 h),
    ),
    refl,
    head-foldl start t.rows,
  )

  -- A chain followed by one more row that links to its last hash.
  pub IsChain-append :
      (prev : Text) (rs : List Row) (r : Row)
      → IsChain prev rs
      → r.prev_hash ≡ last_or prev (entry_hashes rs)
      → chain_hash sha r.prev_hash r.payload ≡ r.entry_hash
      → IsChain prev (rs ++ r ∷ [])
  IsChain-append prev [] r h linked hashed = (linked, hashed, tt)
  IsChain-append prev (q ∷ rs) r h linked hashed =
      (h.0, h.1, IsChain-append q.entry_hash rs r h.2 linked hashed)
