-- ===== src/Store/Ledger/Tamper.antt =====
-- Two chains that end in the same hash: a reduction to collisions of SHA-256.
use reclaim_os.Prelude.{
  Text, ◌≡◌, refl, sym, ap, ◌∙◌, ◌≢◌, arith, Bool-cases, ◌⊎◌, inl, inr, true, List, [], ◌∷◌, ◌++◌,
  length, map, last_or, text_eq, text_eq_iff, append_split,
}
use reclaim_os.Store.Canonical.{chain_hash, genesis_hash}
use reclaim_os.Store.Ledger.{Row, Table, head, verify, entry_hashes}
use reclaim_os.Store.Ledger.Chain.{IsChain, verify-IsChain}

-- What the hashes are to protect: everything in a row but its number and its time.
abbrev pub content : Row → Text × Text × Text
content r = (r.prev_hash, r.payload, r.entry_hash)

module _ (sha : Text → Text) where
  -- Two different texts with one hash.
  abbrev pub Collision : Type 0
  Collision = (x : Text) × (y : Text) × (x ≢ y) × (sha x ≡ sha y)

  module _ (width : (x : Text) → length (sha x) ≡ 64) where
    same_link :
        (r s : Row)
        → length r.prev_hash ≡ 64
        → length s.prev_hash ≡ 64
        → chain_hash sha r.prev_hash r.payload ≡ r.entry_hash
        → chain_hash sha s.prev_hash s.payload ≡ s.entry_hash
        → r.entry_hash ≡ s.entry_hash
        → Collision ⊎ ((r.prev_hash ≡ s.prev_hash) × (r.payload ≡ s.payload))
    unfolding chain_hash
    same_link r s lr ls hr hs e =
        let x = r.prev_hash ++ r.payload in
        let y = s.prev_hash ++ s.payload in
        elim (Bool-cases (text_eq x y)) [
          | inl same ↦
              inr (append_split r.prev_hash s.prev_hash (omega arith) ((text_eq_iff x y).0 same))
          | inr differ ↦ inl (x, y, (λ p. ground (arith, text_eq_iff x y)), hr ∙ e ∙ sym hs)
        ]

    hash_width : (prev body : Text) {h : Text} → chain_hash sha prev body ≡ h → length h ≡ 64
    unfolding chain_hash
    hash_width prev body e = ap length (sym e) ∙ width (prev ++ body)

    same_rows :
        (p q : Text) (rs ss : List Row)
        → length p ≡ 64
        → length q ≡ 64
        → IsChain sha p rs
        → IsChain sha q ss
        → length rs ≡ length ss
        → last_or p (entry_hashes rs) ≡ last_or q (entry_hashes ss)
        → Collision ⊎ ((p ≡ q) × (map content rs ≡ map content ss))
    same_rows p q [] [] lp lq hr hs n e = inr (e, refl)
    same_rows p q [] (s ∷ ss) lp lq hr hs n e = absurd (omega arith)
    same_rows p q (r ∷ rs) [] lp lq hr hs n e = absurd (omega arith)
    same_rows p q (r ∷ rs) (s ∷ ss) lp lq hr hs n e =
        let wr = hash_width r.prev_hash r.payload hr.1 in
        let ws = hash_width s.prev_hash s.payload hs.1 in
        elim (same_rows r.entry_hash s.entry_hash rs ss wr ws hr.2 hs.2 (omega arith) e) [
          | inl c ↦ inl c
          | inr (eh, rest) ↦
              elim (same_link r s (ap length hr.0 ∙ lp) (ap length hs.0 ∙ lq) hr.1 hs.1 eh) [
                | inl c ↦ inl c
                | inr (prevs, bodies) ↦ inr (sym hr.0 ∙ prevs ∙ hs.0, cc (prevs, bodies, eh, rest))
              ]
        ]

    -- Let SHA-256 give 64 characters. Two ledgers that both verify, with as many entries and
    -- the same head, hold the same payloads and hashes in the same order, unless two different
    -- texts with one SHA-256 are at hand: no payload of a verified ledger can be altered, moved
    -- or replaced behind an unchanged head and count. The number and the time of a row are in
    -- no hash, and nothing is said of them.
    pub same_head :
        (t u : Table)
        → (verify sha t).ok ≡ true
        → (verify sha u).ok ≡ true
        → (verify sha t).entries ≡ (verify sha u).entries
        → (verify sha t).head ≡ (verify sha u).head
        → Collision ⊎ (map content t.rows ≡ map content u.rows)
    same_head t u ht hu n e =
        let (ct, nt, et) = verify-IsChain sha t in
        let (cu, nu, eu) = verify-IsChain sha u in
        elim (same_rows genesis_hash genesis_hash t.rows u.rows refl refl (ct.0 ht) (cu.0 hu)
          (sym nt ∙ n ∙ nu) (unfold head in (sym et ∙ e ∙ eu))) [
            | inl c ↦ inl c
            | inr (_, rows) ↦ inr rows
          ]
