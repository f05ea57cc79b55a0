-- ===== src/Actions/Edges.antt =====
-- The life of a request as a diagram of its status.
use resource_mgmt_app.Base.{◌≡◌, ◌⊎◌, inl, inr, refl, sym, subst, true, false, Bool-cases}
use resource_mgmt_app.Model.{
  WorkItem, ItemStatus, is_awaiting_dispatch, is_paused, is_draft, is_finalized, is_submitted,
}
use resource_mgmt_app.Outcome.{Outcome, is_done}

-- the kinds of calls; `keep` is a call that leaves the status
pub data Move : Type 0 where
  submit recall pull_back send_back dispatch decide finalize unfinalize keep : Move
  sibling_unfinalized sibling_finalized : Move

-- the arrows of the diagram, each under the kind of call that takes it
pub data Edge : Move → ItemStatus → ItemStatus → Type 0 where
  submits : Edge Move.submit ItemStatus.draft ItemStatus.submitted
  awaits : Edge Move.submit ItemStatus.draft ItemStatus.awaiting_dispatch
  recalls : Edge Move.recall ItemStatus.awaiting_dispatch ItemStatus.draft
  pulls_back : Edge Move.pull_back ItemStatus.submitted ItemStatus.draft
  sends_back : Edge Move.send_back ItemStatus.submitted ItemStatus.draft
  returns : Edge Move.send_back ItemStatus.finalized ItemStatus.draft
  dispatches : Edge Move.dispatch ItemStatus.awaiting_dispatch ItemStatus.submitted
  settles : {s : ItemStatus} → is_draft s ≡ false → Edge Move.decide s ItemStatus.finalized
  reopens : Edge Move.decide ItemStatus.finalized ItemStatus.submitted
  finalizes : Edge Move.finalize ItemStatus.submitted ItemStatus.finalized
  finalizes_waiting : Edge Move.finalize ItemStatus.awaiting_dispatch ItemStatus.finalized
  unfinalizes : Edge Move.unfinalize ItemStatus.finalized ItemStatus.submitted
  pauses : Edge Move.sibling_unfinalized ItemStatus.submitted ItemStatus.paused
  goes_on : Edge Move.sibling_finalized ItemStatus.paused ItemStatus.submitted

-- a call of a kind: along an arrow of this kind, or none
abbrev pub Follows : Move → ItemStatus → ItemStatus → Type 0
Follows m s s' = (s' ≡ s) ⊎ Edge m s s'

pub draft_of : (s : ItemStatus) → is_draft s ≡ true → s ≡ ItemStatus.draft
draft_of ItemStatus.draft h = refl
draft_of ItemStatus.awaiting_dispatch h = cc
draft_of ItemStatus.submitted h = cc
draft_of ItemStatus.under_review h = cc
draft_of ItemStatus.finalized h = cc
draft_of ItemStatus.unapproved h = cc
draft_of ItemStatus.needs_info h = cc
draft_of ItemStatus.paused h = cc

pub awaiting_of :
    (s : ItemStatus) → is_awaiting_dispatch s ≡ true → s ≡ ItemStatus.awaiting_dispatch
awaiting_of ItemStatus.draft h = cc
awaiting_of ItemStatus.awaiting_dispatch h = refl
awaiting_of ItemStatus.submitted h = cc
awaiting_of ItemStatus.under_review h = cc
awaiting_of ItemStatus.finalized h = cc
awaiting_of ItemStatus.unapproved h = cc
awaiting_of ItemStatus.needs_info h = cc
awaiting_of ItemStatus.paused h = cc

pub submitted_of : (s : ItemStatus) → is_submitted s ≡ true → s ≡ ItemStatus.submitted
submitted_of ItemStatus.draft h = cc
submitted_of ItemStatus.awaiting_dispatch h = cc
submitted_of ItemStatus.submitted h = refl
submitted_of ItemStatus.under_review h = cc
submitted_of ItemStatus.finalized h = cc
submitted_of ItemStatus.unapproved h = cc
submitted_of ItemStatus.needs_info h = cc
submitted_of ItemStatus.paused h = cc

pub finalized_of : (s : ItemStatus) → is_finalized s ≡ true → s ≡ ItemStatus.finalized
finalized_of ItemStatus.draft h = cc
finalized_of ItemStatus.awaiting_dispatch h = cc
finalized_of ItemStatus.submitted h = cc
finalized_of ItemStatus.under_review h = cc
finalized_of ItemStatus.finalized h = refl
finalized_of ItemStatus.unapproved h = cc
finalized_of ItemStatus.needs_info h = cc
finalized_of ItemStatus.paused h = cc

pub paused_of : (s : ItemStatus) → is_paused s ≡ true → s ≡ ItemStatus.paused
paused_of ItemStatus.draft h = cc
paused_of ItemStatus.awaiting_dispatch h = cc
paused_of ItemStatus.submitted h = cc
paused_of ItemStatus.under_review h = cc
paused_of ItemStatus.finalized h = cc
paused_of ItemStatus.unapproved h = cc
paused_of ItemStatus.needs_info h = cc
paused_of ItemStatus.paused h = refl

-- an arrow from one known status to another
pub along : {m : Move} (a b s s' : ItemStatus) → Edge m a b → s ≡ a → s' ≡ b → Follows m s s'
along {m} a b s s' e h h' = inr (subst (λ x. Edge m x s') (sym h) (subst (Edge m a) (sym h') e))

-- a handler that either refuses and keeps the request, or takes it along an arrow
module _ (m : Move) (item : WorkItem) (x : Outcome × WorkItem) where
  pub by_outcome :
      (is_done x.0 ≡ false → x.1.status ≡ item.status)
      → (is_done x.0 ≡ true → Follows m item.status x.1.status)
      → Follows m item.status x.1.status
  by_outcome kept moved = elim (Bool-cases (is_done x.0)) [ inl h ↦ moved h | inr h ↦ inl (kept h) ]
