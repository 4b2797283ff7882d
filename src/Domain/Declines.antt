-- ===== src/Domain/Declines.antt =====
-- src/reclaimos/domain/decline_codes.py: the decline classes and the table of gateway errors.
use reclaim_os.Prelude.{
  Text, codes, Bool, ◌&&◌, List, [], ◌∷◌, keep, count, text_eq, starts_with, ltb,
}

pub data DeclineClass : Type 0 where
  soft_insufficient_funds : DeclineClass
  soft_issuer_technical : DeclineClass
  soft_limit_exceeded : DeclineClass
  hard_risk_flagged : DeclineClass
  hard_do_not_honor : DeclineClass
  hard_mandate_revoked : DeclineClass
  hard_not_permitted : DeclineClass
  expiry_card_expired : DeclineClass
  expiry_mandate_expired : DeclineClass
  unknown : DeclineClass

pub DeclineClass-discrete : Discrete DeclineClass
DeclineClass-discrete = hlevel

-- The member's name, which is also its value.
unfoldable pub name : DeclineClass → Text
name soft_insufficient_funds = codes "SOFT_INSUFFICIENT_FUNDS"
name soft_issuer_technical = codes "SOFT_ISSUER_TECHNICAL"
name soft_limit_exceeded = codes "SOFT_LIMIT_EXCEEDED"
name hard_risk_flagged = codes "HARD_RISK_FLAGGED"
name hard_do_not_honor = codes "HARD_DO_NOT_HONOR"
name hard_mandate_revoked = codes "HARD_MANDATE_REVOKED"
name hard_not_permitted = codes "HARD_NOT_PERMITTED"
name expiry_card_expired = codes "EXPIRY_CARD_EXPIRED"
name expiry_mandate_expired = codes "EXPIRY_MANDATE_EXPIRED"
name unknown = codes "UNKNOWN"

unfoldable pub is_soft : DeclineClass → Bool
unfolding name starts_with
is_soft c = starts_with (name c) (codes "SOFT_")

unfoldable pub is_hard : DeclineClass → Bool
unfolding name starts_with
is_hard c = starts_with (name c) (codes "HARD_")

unfoldable pub is_expiry : DeclineClass → Bool
unfolding name starts_with
is_expiry c = starts_with (name c) (codes "EXPIRY_")

-- `c is d`: the members of an enum are told apart by their names.
unfoldable pub same_class : DeclineClass → DeclineClass → Bool
unfolding name text_eq
same_class c d = text_eq (name c) (name d)

pub record DeclineCode : Type 0 where
  pub code : Text
  pub source : Text
  pub step : Text
  pub reason : Text
  pub description : Text
  pub true_class : DeclineClass

abbrev pub decline_codes : List DeclineCode
decline_codes =
    record {
      code = codes "BAD_REQUEST_ERROR";
      source = codes "customer";
      step = codes "payment_authorization";
      reason = codes "insufficient_funds";
      description = codes "Your account has insufficient balance.";
      true_class = soft_insufficient_funds;
    }
    ∷ record {
      code = codes "BAD_REQUEST_ERROR";
      source = codes "bank";
      step = codes "payment_authorization";
      reason = codes "payment_failed";
      description = codes "The payment could not be completed by the bank.";
      true_class = soft_insufficient_funds;
    }
    ∷ record {
      code = codes "GATEWAY_ERROR";
      source = codes "gateway";
      step = codes "payment_authorization";
      reason = codes "gateway_technical_error";
      description = codes "The gateway did not respond in time.";
      true_class = soft_issuer_technical;
    }
    ∷ record {
      code = codes "GATEWAY_ERROR";
      source = codes "issuer";
      step = codes "payment_authorization";
      reason = codes "issuer_down";
      description = codes "The issuing bank is temporarily unavailable.";
      true_class = soft_issuer_technical;
    }
    ∷ record {
      code = codes "BAD_REQUEST_ERROR";
      source = codes "bank";
      step = codes "payment_authorization";
      reason = codes "payment_failed";
      description = codes "The payment could not be completed by the bank.";
      true_class = soft_issuer_technical;
    }
    ∷ record {
      code = codes "BAD_REQUEST_ERROR";
      source = codes "issuer";
      step = codes "payment_authorization";
      reason = codes "payment_limit_exceeded";
      description = codes "The transaction exceeds the permitted limit.";
      true_class = soft_limit_exceeded;
    }
    ∷ record {
      code = codes "BAD_REQUEST_ERROR";
      source = codes "issuer";
      step = codes "payment_authorization";
      reason = codes "debit_limit_exceeded";
      description = codes "The per-transaction debit limit was exceeded.";
      true_class = soft_limit_exceeded;
    }
    ∷ record {
      code = codes "BAD_REQUEST_ERROR";
      source = codes "issuer";
      step = codes "payment_authorization";
      reason = codes "card_reported_lost_or_stolen";
      description = codes "The card has been reported lost or stolen.";
      true_class = hard_risk_flagged;
    }
    ∷ record {
      code = codes "BAD_REQUEST_ERROR";
      source = codes "business";
      step = codes "payment_authentication";
      reason = codes "payment_risk_check_failed";
      description = codes "The payment failed a risk check.";
      true_class = hard_risk_flagged;
    }
    ∷ record {
      code = codes "BAD_REQUEST_ERROR";
      source = codes "issuer";
      step = codes "payment_authorization";
      reason = codes "do_not_honor";
      description = codes "The issuing bank declined the transaction.";
      true_class = hard_do_not_honor;
    }
    ∷ record {
      code = codes "BAD_REQUEST_ERROR";
      source = codes "bank";
      step = codes "payment_authorization";
      reason = codes "payment_failed";
      description = codes "The payment could not be completed by the bank.";
      true_class = hard_do_not_honor;
    }
    ∷ record {
      code = codes "BAD_REQUEST_ERROR";
      source = codes "business";
      step = codes "payment_initiation";
      reason = codes "international_transaction_not_allowed";
      description = codes "International cards are not enabled for this merchant account.";
      true_class = hard_not_permitted;
    }
    ∷ record {
      code = codes "BAD_REQUEST_ERROR";
      source = codes "customer";
      step = codes "payment_initiation";
      reason = codes "mandate_revoked";
      description = codes "The customer has cancelled this mandate.";
      true_class = hard_mandate_revoked;
    }
    ∷ record {
      code = codes "BAD_REQUEST_ERROR";
      source = codes "customer";
      step = codes "payment_initiation";
      reason = codes "card_expired";
      description = codes "The card has expired.";
      true_class = expiry_card_expired;
    }
    ∷ record {
      code = codes "BAD_REQUEST_ERROR";
      source = codes "customer";
      step = codes "payment_initiation";
      reason = codes "mandate_expired";
      description = codes "The mandate validity period has ended.";
      true_class = expiry_mandate_expired;
    }
    ∷ record {
      code = codes "GATEWAY_ERROR";
      source = codes "gateway";
      step = codes "payment_response";
      reason = codes "server_error";
      description = codes "An unspecified error occurred.";
      true_class = unknown;
    }
    ∷ []

abbrev same_tuple : DeclineCode → DeclineCode → Bool
same_tuple c o = text_eq o.code c.code && text_eq o.reason c.reason

-- `AMBIGUOUS_TUPLES`, as a test: more than one row of the table has this code and reason.
unfoldable pub is_ambiguous : DeclineCode → Bool
is_ambiguous c = ltb 1 (count (same_tuple c) decline_codes)

unfoldable pub codes_for : DeclineClass → List DeclineCode
unfolding same_class
codes_for c = keep (λ o. same_class o.true_class c) decline_codes
