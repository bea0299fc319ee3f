-- ===== src/Workflow/Pending.antt =====
-- app/workflows/nodes.py: which proposal waits for the customer next.
use mathlib.Core.List.{◌++◌, Perm}
use mathlib.Core.Path.{subst, ap}
use jb_wm_backend.Base.{
  arith, ◌≡◌, refl, where_all, delete_where, Bool, true, false, ◌&&◌, none, some, List, [], ◌∷◌,
  ◌==◌, eq_iff, All, All-map, All-order_by, where_all_meets, Option-cases, Bool-cases, inl, inr,
  and-eq-true,
}
use jb_wm_backend.Base.Selecting.{
  Splits, Decides, where_all-Splits, order_by-Perm, IsAscending, order_by-IsAscending,
}
use jb_wm_backend.Planning.{ActionProposalSchema}
use jb_wm_backend.Policy.{evaluate}
use jb_wm_backend.Models.{AgentSession, ActionProposal, proposed, is_proposed}
use jb_wm_backend.Database.{World, ok}
use jb_wm_backend.Executor.{schema_of, route}
use jb_wm_backend.Workflow.Helpers.{
  needs_approval, first_gated, open_proposals, next_pending_proposal,
}

-- The policy's answer on a stored proposal.
abbrev pub IsRouted : Bool → ActionProposal → Type 0
IsRouted b p =
    (q : ActionProposalSchema) × (schema_of p ≡ some q) × ((evaluate q).needs_approval ≡ b)

-- The first proposal of a list that needs approval.
pub record IsFirst (ps : List ActionProposal) (p : ActionProposal) : Type 0 where
  pub before : List ActionProposal
  pub behind : List ActionProposal
  pub split : ps ≡ before ++ p ∷ behind
  pub automatic : All (IsRouted false) before
  pub gated : IsRouted true p

IsFirst-head :
    (x p : ActionProposal) (ps : List ActionProposal) → x ≡ p → IsRouted true x → IsFirst (x ∷ ps) p
IsFirst-head x p ps same gated = record {
  before = [];
  behind = ps;
  split = ap (λ y. y ∷ ps) same;
  automatic = tt;
  gated = subst (IsRouted true) same gated;
}

IsFirst-cons :
    (x p : ActionProposal) (ps : List ActionProposal)
    → IsRouted false x
    → IsFirst ps p
    → IsFirst (x ∷ ps) p
IsFirst-cons x p ps free later = record {
  before = x ∷ later.before;
  behind = later.behind;
  split = ap (λ ys. x ∷ ys) later.split;
  automatic = (free, later.automatic);
  gated = later.gated;
}

first_gated_next :
    (ps : List ActionProposal) (w w' : World) (p : ActionProposal)
    → first_gated ps w ≡ (ok (some p), w')
    → (w' ≡ w) × IsFirst ps p
unfolding first_gated needs_approval route
first_gated_next [] w w' p run = absurd (ground arith)
first_gated_next (x ∷ ps) w w' p run = elim (Option-cases (schema_of x)) [
  | inl e ↦ absurd (ground arith)
  | inr (q, e) ↦ elim (Bool-cases (evaluate q).needs_approval) [
    | inl gated ↦ (ground arith, IsFirst-head x p ps (ground arith) (q, e, gated))
    | inr free ↦
        let (same, later) = first_gated_next ps w w' p (ground arith) in
        (same, IsFirst-cons x p ps (q, e, free) later)
  ]
]

first_gated-none :
    (ps : List ActionProposal) (w w' : World)
    → first_gated ps w ≡ (ok none, w')
    → (w' ≡ w) × All (IsRouted false) ps
unfolding first_gated needs_approval route
first_gated-none [] w w' run = (ground arith, tt)
first_gated-none (x ∷ ps) w w' run = elim (Option-cases (schema_of x)) [
  | inl e ↦ absurd (ground arith)
  | inr (q, e) ↦ elim (Bool-cases (evaluate q).needs_approval) [
    | inl gated ↦ absurd (ground arith)
    | inr free ↦
        let (same, later) = first_gated-none ps w w' (ground arith) in (same, ((q, e, free), later))
  ]
]

-- A proposal of the session that is still open.
abbrev pub IsOpen : AgentSession → ActionProposal → Type 0
IsOpen s p = (p.session_id ≡ s.id) × (p.status ≡ proposed)

is_proposed_iff : (p : ActionProposal) → is_proposed p.status ≡ true → p.status ≡ proposed
is_proposed_iff p h = ground arith

proposed_again : (p : ActionProposal) → p.status ≡ proposed → is_proposed p.status ≡ true
proposed_again p h = rw h refl

not_open :
    (s : AgentSession) (p : ActionProposal)
    → (p.session_id == s.id && is_proposed p.status) ≡ false
    → ¬ ((p.session_id ≡ s.id) × (p.status ≡ proposed))
not_open s p h (own, fresh) =
    absurd (ground (arith, eq_iff p.session_id s.id, proposed_again p fresh))

open_Decides :
    (s : AgentSession)
    → Decides (IsOpen s) (λ (p : ActionProposal). p.session_id == s.id && is_proposed p.status)
open_Decides s = record {
  yes = λ p h.
      let (own, fresh) = and-eq-true (p.session_id == s.id) (is_proposed p.status) h in
      ((eq_iff p.session_id s.id).0 own, is_proposed_iff p fresh);
  no = not_open s;
}

-- The open proposals of a session: exactly those of a table, the oldest first.
pub record IsQueue (s : AgentSession) (table ps : List ActionProposal) : Type 0 where
  pub chosen : List ActionProposal
  pub others : List ActionProposal
  pub split : Splits (IsOpen s) table chosen others
  pub sorted : Perm chosen ps
  pub oldest_first : IsAscending (λ (p : ActionProposal). p.created_at) ps

open_proposals-IsQueue :
    (s : AgentSession) (w : World) → IsQueue s w.working.proposals (open_proposals s w.working)
open_proposals-IsQueue s w =
    let test : ActionProposal → Bool = λ p. p.session_id == s.id && is_proposed p.status in
    record {
      chosen = where_all test w.working.proposals;
      others = delete_where test w.working.proposals;
      split = where_all-Splits test (open_Decides s) w.working.proposals;
      sorted = order_by-Perm (λ p. p.created_at) (where_all test w.working.proposals);
      oldest_first = order_by-IsAscending (λ p. p.created_at) (where_all test w.working.proposals);
    }

-- The proposal that waits next: of the open proposals of the session, the oldest first, it is the
-- first that needs approval.
pub record IsNext (s : AgentSession) (table : List ActionProposal) (p : ActionProposal)
    : Type 0 where
  pub queue : List ActionProposal
  pub ordered : IsQueue s table queue
  pub first : IsFirst queue p
  pub still_open : IsOpen s p

open_proposals-IsOpen : (s : AgentSession) (w : World) → All (IsOpen s) (open_proposals s w.working)
open_proposals-IsOpen s w =
    All-order_by (IsOpen s) (λ (p : ActionProposal). p.created_at) _
      (All-map (λ p. (p.session_id == s.id && is_proposed p.status) ≡ true) (IsOpen s)
        (open_Decides s).yes _
        (where_all_meets (λ p. p.session_id == s.id && is_proposed p.status) w.working.proposals))

All-middle :
    (P : ActionProposal → Type 0) (xs : List ActionProposal) (p : ActionProposal)
    (ys : List ActionProposal)
    → All P (xs ++ p ∷ ys)
    → P p
All-middle P [] p ys h = h.0
All-middle P (x ∷ xs) p ys h = All-middle P xs p ys h.1

-- If a pending proposal is found, it is a proposed one of the session that needs approval, every
-- proposed one of the session that was created before it is automatic, in the order of creation, and
-- nothing has changed.
pub next_pending_proposal-IsNext :
    (s : AgentSession) (w w' : World) (p : ActionProposal)
    → next_pending_proposal s w ≡ (ok (some p), w')
    → (w' ≡ w) × IsNext s w.working.proposals p
unfolding next_pending_proposal
next_pending_proposal-IsNext s w w' p run =
    let (same, here) = first_gated_next (open_proposals s w.working) w w' p run in
    (
      same,
      record {
        queue = open_proposals s w.working;
        ordered = open_proposals-IsQueue s w;
        first = here;
        still_open =
            All-middle (IsOpen s) here.before p here.behind
              (rw here.split at (open_proposals-IsOpen s w));
      },
    )

-- If no pending proposal is found, every open proposal of the session is automatic, and nothing has
-- changed.
pub next_pending_proposal-none :
    (s : AgentSession) (w w' : World)
    → next_pending_proposal s w ≡ (ok none, w')
    → (w' ≡ w) × All (IsRouted false) (open_proposals s w.working)
unfolding next_pending_proposal
next_pending_proposal-none s w w' run = first_gated-none (open_proposals s w.working) w w' run

-- If no pending proposal is found, every proposed one of the session is automatic, and nothing has
-- changed.
pub next_pending_proposal-IsNone :
    (s : AgentSession) (w w' : World)
    → next_pending_proposal s w ≡ (ok none, w')
    → (w' ≡ w)
      × (queue : List ActionProposal) × IsQueue s w.working.proposals queue
      × All (IsRouted false) queue
next_pending_proposal-IsNone s w w' run =
    let (same, automatic) = next_pending_proposal-none s w w' run in
    (same, open_proposals s w.working, open_proposals-IsQueue s w, automatic)
