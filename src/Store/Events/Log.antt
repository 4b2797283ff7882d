-- ===== src/Store/Events/Log.antt =====
-- The event log only grows, and holds an id once.
use reclaim_os.Prelude.{
  ℕ, ◌+◌, Text, ◌≡◌, refl, sym, ap, ◌∙◌, true, false, none, some, arith, List, [], ◌∷◌, ◌++◌,
  text_eq, text_eq_iff, Option-cases, Bool-cases, inl, inr, ◌⊎◌, count, count-append, ◌≤◌,
  append_assoc, append-nil,
}
use reclaim_os.Store.Canonical.{
  Value, Outcome-cases, non_canonical, canonical_json, canonical_json-done,
}
use reclaim_os.Store.Events.{
  InboundEvent, EventRow, EventTable, EventAppended, stored, not_canonical, row_for, event_row,
  insert_event, to_event, get_event, read_back, append_event,
}

-- How often an id stands in the table.
abbrev pub copies : Text → List EventRow → ℕ
copies k = count (λ (r : EventRow). text_eq r.event_id k)

row_for-copies : (k : Text) (rs : List EventRow) → row_for k rs ≡ none → copies k rs ≡ 0
unfolding row_for
row_for-copies k [] e = refl
row_for-copies k (r ∷ rs) e = elim (Bool-cases (text_eq r.event_id k)) [
  | inl same ↦ absurd (ground arith)
  | inr other ↦ rw other (omega (arith, row_for-copies k rs (ground arith)))
]

pub row_for-append :
    (k : Text) (rs : List EventRow) (r : EventRow)
    → row_for k rs ≡ none
    → r.event_id ≡ k
    → row_for k (rs ++ r ∷ []) ≡ some r
unfolding row_for
row_for-append k [] r e same = ground (arith, text_eq_iff r.event_id k)
row_for-append k (q ∷ rs) r e same = ground (arith, row_for-append k rs r (ground arith) same)

module _ (dumps : Value → Text) (loads : Text → Value) where
  -- The four ways an append ends.
  abbrev pub EventOutcome : Text → InboundEvent → EventTable → EventAppended × EventTable → Type 0
  EventOutcome now e t out =
      ((canonical_json dumps e.payload ≡ non_canonical) × (out ≡ (not_canonical, t)))
      ⊎ (((old : EventRow) × (row_for e.event_id t.rows ≡ some old)
            × (out ≡ (stored (to_event loads old) false, t)))
          ⊎ ((row_for e.event_id t.rows ≡ none)
              × (out ≡ (
                stored (to_event loads (event_row now (dumps e.payload) e t)) true,
                record {
                  rows = t.rows ++ event_row now (dumps e.payload) e t ∷ [];
                  autoincrement = t.autoincrement + 1;
                },
              ))))

  -- Every append ends in one of three ways. A payload that is not canonical raises and changes
  -- nothing; an id that is there gives back the event first stored under it, marked as not new,
  -- and changes nothing; a new id adds one row behind the old ones, and what is returned is
  -- that row, read back. It never lets an IntegrityError out.
  pub append_event_outcome :
      (now : Text) (e : InboundEvent) (t : EventTable)
      → EventOutcome now e t (append_event dumps loads now e t)
  unfolding append_event
  append_event_outcome now e t = elim (Outcome-cases (canonical_json dumps e.payload)) [
    | inl refused ↦ inl (refused, rw (refused, append_event) refl)
    | inr (body, ok) ↦
        let same : body ≡ dumps e.payload = canonical_json-done dumps e.payload body ok in
        elim (Option-cases (row_for e.event_id t.rows)) [
          | inr (old, found) ↦ inr (
              inl
                (old, found, unfold insert_event read_back get_event in ground (arith, ok, found)))
          | inl free ↦ inr (
              inr (
                free,
                unfold insert_event read_back get_event in
                    ground (
                      arith,
                      ok,
                      free,
                      same,
                      row_for-append e.event_id t.rows (event_row now (dumps e.payload) e t) free
                          refl,
                    ),
              ))
        ]
  ]

  -- A history of appends, each with its clock, failed ones included.
  unfoldable pub append_events : List (Text × InboundEvent) → EventTable → EventTable
  append_events [] t = t
  append_events ((now, e) ∷ rest) t = append_events rest (append_event dumps loads now e t).1

  -- At most one row for the id, and the old rows in front.
  abbrev pub Logged : Text → EventTable → EventTable → Type 0
  Logged k t t' = (copies k t'.rows ≤ 1) × ((more : List EventRow) × (t'.rows ≡ t.rows ++ more))

  unchanged : (k : Text) (t : EventTable) → copies k t.rows ≤ 1 → Logged k t t
  unchanged k t h = (h, ([], sym (append-nil t.rows)))

  copies-new :
      (k : Text) (rs : List EventRow) (r : EventRow)
      → row_for r.event_id rs ≡ none
      → copies k rs ≤ 1
      → copies k (rs ++ r ∷ []) ≤ 1
  copies-new k rs r free h =
      let more = count-append (λ (q : EventRow). text_eq q.event_id k) rs (r ∷ []) in
      elim (Bool-cases (text_eq r.event_id k)) [
        | inl same ↦
            let absent = row_for-copies r.event_id rs free in
            let here : copies k rs ≡ 0 =
              ap (λ j. copies j rs) (sym ((text_eq_iff r.event_id k).0 same)) ∙ absent in
            ground (arith, more, here)
        | inr other ↦ ground (arith, more)
      ]

  append_event-Logged :
      (k now : Text) (e : InboundEvent) (t : EventTable)
      → copies k t.rows ≤ 1
      → Logged k t (append_event dumps loads now e t).1
  append_event-Logged k now e t h = elim (append_event_outcome now e t) [
    | inl (_, out) ↦ rw out (unchanged k t h)
    | inr (inl (old, _, out)) ↦ rw out (unchanged k t h)
    | inr (inr (free, out)) ↦
        let r = event_row now (dumps e.payload) e t in
        rw out (copies-new k t.rows r free h, (r ∷ [], refl))
  ]

  -- In a table where an id stands at most once it still does after any history of appends,
  -- redelivered, refused and new events alike, and no row that was there is changed, moved or
  -- lost: the new rows stand behind the old ones.
  pub append_events-Logged :
      (k : Text) (history : List (Text × InboundEvent)) (t : EventTable)
      → copies k t.rows ≤ 1
      → Logged k t (append_events history t)
  unfolding append_events
  append_events-Logged k [] t h = unchanged k t h
  append_events-Logged k ((now, e) ∷ rest) t h =
      let t1 = (append_event dumps loads now e t).1 in
      let (once, (more, grown)) = append_event-Logged k now e t h in
      let (once', (more', grown')) = append_events-Logged k rest t1 once in
      (
        once',
        (more ++ more', grown' ∙ ap (λ rs. rs ++ more') grown ∙ append_assoc t.rows more more'),
      )
