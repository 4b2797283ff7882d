-- ===== src/Eval/Harness/Accounts.antt =====
-- The books of one run: what every round keeps, and what holds at the end.
use reclaim_os.Prelude.{
  suc, ◌+◌, ◌*◌, ◌≤◌, ◌<◌, ◌≡◌, refl, Bool, true, false, not, Option, none, some, arith, [], ◌∷◌,
  length, length-append, if_both, inl, inr, ◌⊎◌, leb,
}
use reclaim_os.Prelude.Int.{pos}
use reclaim_os.Domain.Models.{
  SubscriptionRecord, ActionType, retry_charge, send_payment_link, request_card_update,
  escalate_human, stop, moves_money, permits, Decision, TerminalReason, recovered,
  mandate_violation_blocked, attempt_cap_reached, recovery_window_closed, escalated_to_human,
  AttemptResult,
}
use reclaim_os.Domain.Real.{Reals}
use reclaim_os.Generator.World.{WorldRecord, max_slots, resolve, recovery_window_hours}
use reclaim_os.Generator.World.Draws.{has_draws, resolve-none}
use reclaim_os.Eval.Harness.{
  Run, booked, answered, present, envelope, act_on, round, note_decision, stop_terminal,
  charge_attempt_cost, contact_cost,
}

abbrev pub is_presented : ActionType → Bool
is_presented retry_charge = true
is_presented send_payment_link = true
is_presented request_card_update = true
is_presented escalate_human = false
is_presented stop = false

module _ (R : Reals) (r : SubscriptionRecord) (truth : WorldRecord R.Real) where
  -- Every presented action is in the history, is paid for at its price, and the slots suffice.
  pub record IsBalanced (run : Run R.Real) : Type 0 where
    pub slots : length run.history ≡ run.charge_attempts + run.contact_actions
    pub paid :
        run.cost ≡ charge_attempt_cost * run.charge_attempts + contact_cost * run.contact_actions
    pub wasted : run.hard_decline_retries ≤ run.charge_attempts
    pub capped : length run.history ≤ max_slots

  -- Between rounds nothing is recovered and no mandate is violated.
  pub record IsOpen (run : Run R.Real) : Type 0 where
    pub books : IsBalanced run
    pub not_recovered : run.is_recovered ≡ false
    pub no_amount : run.amount_recovered ≡ 0
    pub no_violation : run.mandate_violations ≡ 0

  -- Money is recovered exactly once and in full, or not at all; a violation ends the run.
  abbrev pub Settled : TerminalReason → Run R.Real → Type 0
  Settled t run =
      ((run.is_recovered ≡ true)
        × (run.amount_recovered ≡ r.plan_amount_paise)
        × (t ≡ recovered)
        × (run.mandate_violations ≡ 0))
      ⊎ ((run.is_recovered ≡ false)
          × (run.amount_recovered ≡ 0)
          × ((run.mandate_violations ≡ 0)
              ⊎ ((run.mandate_violations ≡ 1) × (t ≡ mandate_violation_blocked))))

  abbrev pub Ended : TerminalReason → Run R.Real → Type 0
  Ended t run = IsBalanced run × Settled t run

  -- After a round: the loop ends, or it goes on with one more slot filled. An exception comes
  -- from a record without draws.
  abbrev pub After : Run R.Real → Option (Option TerminalReason × Run R.Real) → Type 0
  After run none = has_draws truth ≡ false
  After run (some (none, run')) = IsOpen run' × (length run'.history ≡ suc (length run.history))
  After run (some (some t, run')) = Ended t run'

  booked-IsOpen :
      (d : Decision R.Real) (t_hours : R.Real) (result : AttemptResult R.Real) (run : Run R.Real)
      → IsOpen run
      → is_presented d.action ≡ true
      → length run.history < max_slots
      → IsOpen (booked R r truth d t_hours result run)
        × (length (booked R r truth d t_hours result run).history ≡ suc (length run.history))
  unfolding booked
  booked-IsOpen d t_hours result run h a room =
      let longer = length-append run.history ((d, result) ∷ []) in
      (
        record {
          books = ground (arith, longer);
          not_recovered = h.not_recovered;
          no_amount = h.no_amount;
          no_violation = h.no_violation;
        },
        omega (arith, longer),
      )

  -- The world answers, or there is no draw.
  pub present_cases {κ} :
      (P : Option (Option TerminalReason × Run R.Real) → Type κ) (d : Decision R.Real)
      (t_hours : R.Real) (run : Run R.Real)
      → (has_draws truth ≡ false → P none)
      → ((result : AttemptResult R.Real) → P (some (answered R r truth d t_hours run result)))
      → P (present R r truth d t_hours run)
  unfolding present
  present_cases P d t_hours run raised told =
      either
        (resolve R r truth d.action t_hours (length run.history) run.charge_attempts
          run.contact_actions)
        (resolve-none R r truth d.action t_hours (length run.history) run.charge_attempts
          run.contact_actions)
    where
      either :
          (o : Option (AttemptResult R.Real))
          → (o ≡ none → has_draws truth ≡ false)
          → P (elim o [
            | none ↦ none
            | some result ↦ some (answered R r truth d t_hours run result)
          ])
      either none h = raised (h refl)
      either (some result) h = told result

  answered-After :
      (d : Decision R.Real) (t_hours : R.Real) (run : Run R.Real) (result : AttemptResult R.Real)
      → IsOpen run
      → is_presented d.action ≡ true
      → length run.history < max_slots
      → After run (some (answered R r truth d t_hours run result))
  unfolding answered
  answered-After d t_hours run result h a room =
      let (still, longer) = booked-IsOpen d t_hours result run h a room in
      if_both (λ out. After run (some out)) result.succeeded
        (λ hit. (
          record {
            slots = still.books.slots;
            paid = still.books.paid;
            wasted = still.books.wasted;
            capped = still.books.capped;
          },
          inl (refl, refl, refl, still.no_violation),
        ))
        λ miss. (still, longer)

  present-After :
      (d : Decision R.Real) (t_hours : R.Real) (run : Run R.Real)
      → IsOpen run
      → is_presented d.action ≡ true
      → length run.history < max_slots
      → After run (present R r truth d t_hours run)
  present-After d t_hours run h a room =
      present_cases (After run) d t_hours run (λ e. e)
        λ result. answered-After d t_hours run result h a room

  -- A round that ends with nothing recovered and no violation.
  halted : (t : TerminalReason) (run : Run R.Real) → IsOpen run → Ended t run
  halted t run h = (h.books, inr (h.not_recovered, h.no_amount, inl h.no_violation))

  envelope-After :
      (d : Decision R.Real) (run : Run R.Real)
      → IsOpen run
      → is_presented d.action ≡ true
      → After run (envelope R r truth d run)
  unfolding envelope
  envelope-After d run h a =
      let t_hours = R.add run.elapsed d.delay_hours in
      let at = r.charge_at + R.hours t_hours in
      if_both (After run) (leb max_slots (length run.history))
        (λ full. halted attempt_cap_reached run h)
        λ room.
          if_both (After run) (not (R.leb t_hours (recovery_window_hours R)))
            (λ late. halted recovery_window_closed run h)
            λ in_time.
              if_both (After run) (moves_money d.action)
                (λ money.
                  if_both (After run)
                    (not (permits r.mandate (pos r.plan_amount_paise) r.method at))
                    (λ refused. (
                      record {
                        slots = h.books.slots;
                        paid = h.books.paid;
                        wasted = h.books.wasted;
                        capped = h.books.capped;
                      },
                      inr (h.not_recovered, h.no_amount, inr (omega (arith, h.no_violation), refl)),
                    ))
                    λ allowed. present-After d t_hours run h a (ground arith))
                λ contact. present-After d t_hours run h a (ground arith)

  act_on-After :
      (a : ActionType) (d : Decision R.Real) (run : Run R.Real)
      → d.action ≡ a
      → IsOpen run
      → After run (act_on R r truth a d run)
  unfolding act_on
  act_on-After stop d run e h = halted (stop_terminal R r truth d run) run h
  act_on-After escalate_human d run e h = halted escalated_to_human run h
  act_on-After retry_charge d run e h = envelope-After d run h (ground (arith, e))
  act_on-After send_payment_link d run e h = envelope-After d run h (ground (arith, e))
  act_on-After request_card_update d run e h = envelope-After d run h (ground (arith, e))

  pub round-After :
      (d : Decision R.Real) (run : Run R.Real) → IsOpen run → After run (round R r truth d run)
  unfolding round note_decision
  round-After d run h = act_on-After d.action d (note_decision R r truth d run) refl (record {
    books = record {
      slots = h.books.slots;
      paid = h.books.paid;
      wasted = h.books.wasted;
      capped = h.books.capped;
    };
    not_recovered = h.not_recovered;
    no_amount = h.no_amount;
    no_violation = h.no_violation;
  })
