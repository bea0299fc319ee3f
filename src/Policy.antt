-- ===== src/Policy.antt =====
-- app/policy/engine.py: the routing of one proposal, automatic or by the customer's approval.
use jb_wm_backend.Base.{
  String, Bool, true, false, ◌||◌, ◌≡◌, refl, List, [], ◌∷◌, any, arith, ◌==◌, if◌then◌else◌,
}
use jb_wm_backend.Planning.{
  ActionProposalSchema, ActionKind, book_hospital, rebalance_portfolio, kind_text,
}

-- `HIGH_RISK_KINDS`
abbrev pub high_risk_kinds : List String
high_risk_kinds = "book_hospital" ∷ "submit_claim" ∷ "transfer_money" ∷ "rebalance_portfolio" ∷ []

pub record Routing : Type 0 where
  pub needs_approval : Bool
  pub reason : String

unfoldable pub evaluate : ActionProposalSchema → Routing
evaluate p =
    if p.has_external_effect
    then record { needs_approval = true; reason = "external_effect" }
    else if any (λ k. k == kind_text p.kind) high_risk_kinds
    then record { needs_approval = true; reason = "high_risk_domain" }
    else record { needs_approval = false; reason = "no_side_effect" }

-- The kinds of which the customer has to approve every proposal.
abbrev pub is_gated : ActionKind → Bool
is_gated book_hospital = true
is_gated rebalance_portfolio = true
is_gated _ = false

high_risk-is_gated : (k : ActionKind) → any (λ j. j == kind_text k) high_risk_kinds ≡ is_gated k
high_risk-is_gated book_hospital = refl
high_risk-is_gated _ = refl

-- Approval is asked exactly for a proposal with an external effect, a hospital booking or a
-- portfolio rebalancing.
pub evaluate-needs_approval :
    (p : ActionProposalSchema)
    → (evaluate p).needs_approval ≡ (p.has_external_effect || is_gated p.kind)
unfolding evaluate
evaluate-needs_approval p = ground (arith, high_risk-is_gated p.kind)
