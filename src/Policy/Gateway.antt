-- ===== src/Policy/Gateway.antt =====
-- src/reclaimos/policy/gateway.py: the gateway's protocol and the simulated gateway.
use reclaim_os.Prelude.{
  ℕ, ◌-◌, Text, codes, ◌++◌, Bool, Option, some, List, [], ◌∷◌, length, replicate,
}
use reclaim_os.Prelude.Decimal.{decimal}
use reclaim_os.Domain.Models.{ActionType, SubscriptionRecord}
use reclaim_os.Policy.Mandate.{ChargeRequest}

pub record GatewayResult : Type 0 where
  pub succeeded : Bool
  pub reference : Option Text
  pub detail : Text

-- `PaymentGateway`, over a state `G`; none is an exception of the gateway.
pub record Gateway (G : Type 0) : Type 0 where
  pub charge : ChargeRequest → G → Option GatewayResult × G
  pub contact : SubscriptionRecord → ActionType → G → Option GatewayResult × G

-- `SimulatedGateway`; its lists are newest last.
pub record Simulated : Type 0 where
  pub charge_succeeds : Bool
  pub contact_succeeds : Bool
  pub charges : List ChargeRequest
  pub contacts : List (Text × ActionType)

-- f"{n:06d}"
unfoldable pub padded : ℕ → Text
padded n = let digits = decimal n in replicate (6 - length digits) b'0' ++ digits

unfoldable pub simulated_charge : ChargeRequest → Simulated → Option GatewayResult × Simulated
unfolding padded
simulated_charge request g =
    let charges = g.charges ++ request ∷ [] in
    (
      some (record {
        succeeded = g.charge_succeeds;
        reference = some (codes "pay_SIM" ++ padded (length charges));
        detail = codes "simulated charge";
      }),
      record g { charges = charges },
    )

unfoldable pub simulated_contact :
    SubscriptionRecord → ActionType → Simulated → Option GatewayResult × Simulated
unfolding padded
simulated_contact r action g =
    let contacts = g.contacts ++ (r.subscription_id, action) ∷ [] in
    (
      some (record {
        succeeded = g.contact_succeeds;
        reference = some (codes "msg_SIM" ++ padded (length contacts));
        detail = codes "simulated outreach";
      }),
      record g { contacts = contacts },
    )

abbrev pub simulated : Gateway Simulated
simulated = record { charge = simulated_charge; contact = simulated_contact }
