-- ===== src/Generator/Oracle.antt =====
-- src/reclaimos/generator/outcome_model.py: the ceiling, a search that reads the sealed truth.
pub mod Greedy
use reclaim_os.Prelude.{
  ℕ, zero, suc, ◌+◌, Bool, true, false, not, ◌&&◌, Option, none, some, List, [], ◌∷◌, foldl,
  get_clamped, min, if◌then◌else◌,
}
use reclaim_os.Prelude.Int.{pos}
use reclaim_os.Domain.Models.{
  SubscriptionRecord, ActionType, retry_charge, send_payment_link, request_card_update, moves_money,
  permits,
}
use reclaim_os.Domain.Real.{Reals, ltb as lt_real}
use reclaim_os.Generator.World.{WorldRecord, max_slots, recovery_window_hours, success_probability}

abbrev pub oracle_actions : List ActionType
oracle_actions = retry_charge ∷ (send_payment_link ∷ (request_card_update ∷ []))

pub record OracleResult (Real : Type 0) : Type 0 where
  pub recovered : Bool
  pub hours : Real
  pub charge_attempts : ℕ
  pub contact_actions : ℕ

-- `best_p`, `best_action` and `best_t`
pub record Best (Real : Type 0) : Type 0 where
  pub p : Real
  pub action : Option ActionType
  pub t : Real

module _ (R : Reals) where
  open R use {Real, lit, add, sub, hours}

  unfoldable pub oracle_delay_grid : List Real
  oracle_delay_grid =
      lit 5 1
      ∷ (lit 60 1 ∷ (lit 240 1 ∷ (lit 480 1 ∷ (lit 720 1 ∷ (lit 1200 1 ∷ (lit 1680 1 ∷ []))))))

  -- No pair yet: best_p is -1.0.
  abbrev pub no_pair : Best Real
  no_pair = record { p = sub (lit 0 1) (lit 10 1); action = none; t = lit 0 1 }

  module _ (r : SubscriptionRecord) (truth : WorldRecord Real) where
    module _ (elapsed : Real) (charges contacts : ℕ) where
      -- Neither `continue` is taken: the window is open, and a charge is within the mandate.
      unfoldable pub is_allowed : ActionType → Real → Bool
      is_allowed action t =
          not (lt_real R (recovery_window_hours R) t)
          && not (
              moves_money action
              && not (permits r.mandate (pos r.plan_amount_paise) r.method (r.charge_at + hours t)))

      -- The body of the two inner loops.
      unfoldable pub consider : ActionType → Best Real → Real → Best Real
      consider action best delay =
          let t = add elapsed delay in
          let p = success_probability R r truth action t charges contacts in
          if is_allowed action t && lt_real R best.p p
          then record { p = p; action = some action; t = t }
          else best

      unfoldable pub best_pair : Best Real
      best_pair =
          foldl (λ best action. foldl (consider action) best oracle_delay_grid) no_pair
            oracle_actions

    -- The slots that are left, from `slot` on; none is the IndexError of a record without draws.
    unfoldable pub slots_from : ℕ → ℕ → Real → ℕ → ℕ → Option (OracleResult Real)
    slots_from zero slot elapsed charges contacts = some (record {
      recovered = false;
      hours = elapsed;
      charge_attempts = charges;
      contact_actions = contacts;
    })
    slots_from (suc left) slot elapsed charges contacts =
        let best = best_pair elapsed charges contacts in
        elim best.action [
          | none ↦
              -- break
              some (record {
                recovered = false;
                hours = elapsed;
                charge_attempts = charges;
                contact_actions = contacts;
              })
          | some action ↦ elim (get_clamped truth.draws slot) [
            | none ↦ none
            | some draw ↦
                let charges' = charges + (if moves_money action then 1 else 0) in
                let contacts' = contacts + (if moves_money action then 0 else 1) in
                let rest = slots_from left (suc slot) best.t charges' contacts' in
                if lt_real R draw best.p
                then some (record {
                  recovered = true;
                  hours = best.t;
                  charge_attempts = charges';
                  contact_actions = contacts';
                })
                else rest
          ]
        ]

    unfoldable pub oracle_recovers : ℕ → Option (OracleResult Real)
    oracle_recovers max_attempts = slots_from (min max_attempts max_slots) 0 (lit 0 1) 0 0
