-- ===== src/Actions/Verdicts.antt =====
-- Decisions, finalization and the way back against the diagram.
use resource_mgmt_app.Base.{
  ℕ, ◌≡◌, inl, inr, refl, ap, sym, subst, Bool, true, false, if◌then◌else◌, not, ◌&&◌, Option, none,
  some, List, [], arith, map, Bool-cases,
}
use resource_mgmt_app.Base.Int.{ℤ}
use resource_mgmt_app.Base.Text.{Text, is_blank}
use resource_mgmt_app.Model.{
  WorkItem, PortfolioContext, ItemStatus, ReviewAction, is_primary, is_reopen, is_paused, is_draft,
  is_finalized, is_submitted,
}
use resource_mgmt_app.Access.{Request, require_budget_admin}
use resource_mgmt_app.Outcome.{Outcome, Refusal, is_done}
use resource_mgmt_app.Lifecycle.{try_auto_finalize, may_auto_finalize}
use resource_mgmt_app.Reviews.{apply_review_decision, reopen_item, decide_line, put_line, settle}
use resource_mgmt_app.Reviews.Transitions.{Taken-done, apply_review_decision_refused}
use resource_mgmt_app.AdminFinal.Finalize.{
  release_if_approved, finalize_work_item, finalize_item, can_finalize_work_item, can_unpause,
  unpause,
}
use resource_mgmt_app.AdminFinal.Unfinalize.{unfinalize_work_item, unfinalize_item, pause}
use resource_mgmt_app.Actions.Edges.{
  Move, Edge, Follows, along, by_outcome, awaiting_of, submitted_of, finalized_of, paused_of,
}

auto_finalized-Follows :
    (r : Request) (item : WorkItem) (s : ItemStatus)
    → is_draft s ≡ false
    → Follows Move.decide s item.status
    → Follows Move.decide s (try_auto_finalize r item).0.status
unfolding try_auto_finalize
auto_finalized-Follows r item s d before = elim (Bool-cases (may_auto_finalize item)) [
  | inl m ↦ rw m (inr (Edge.settles d))
  | inr m ↦ rw m before
]

reopened-Follows :
    (r : Request) (action : ReviewAction) (words : Option Text) (number : ℕ) (item : WorkItem)
    → Follows Move.decide item.status (reopen_item r action words number item).status
unfolding reopen_item
reopened-Follows r action words number item =
    elim (Bool-cases (is_reopen action && is_finalized item.status)) [
      | inl m ↦
          along ItemStatus.finalized ItemStatus.submitted item.status _ Edge.reopens
            (finalized_of item.status (ground arith)) (rw m refl)
      | inr m ↦ inl (rw m refl)
    ]

finalize_item_status :
    (r : Request) (words : Option Text) (next : ℕ) (item : WorkItem)
    → (finalize_item r words next item).status ≡ ItemStatus.finalized
unfolding finalize_item release_if_approved
finalize_item_status r words next item = ground arith

finalizable-Follows :
    (now : ℕ) (s' : ItemStatus) (item : WorkItem)
    → can_finalize_work_item now item ≡ none
    → s' ≡ ItemStatus.finalized
    → Follows Move.finalize item.status s'
unfolding can_finalize_work_item
finalizable-Follows now s' item h e = elim (Bool-cases (is_submitted item.status)) [
  | inl s ↦
      along ItemStatus.submitted ItemStatus.finalized item.status s' Edge.finalizes
        (submitted_of item.status s) e
  | inr s ↦
      along ItemStatus.awaiting_dispatch ItemStatus.finalized item.status s' Edge.finalizes_waiting
        (awaiting_of item.status (ground arith)) e
]

abbrev item_of : Outcome × WorkItem × List WorkItem → WorkItem
item_of x = x.1

pub finalize-Follows :
    (r : Request) (words : Option Text) (next : ℕ) (item : WorkItem)
    → Follows Move.finalize item.status (finalize_work_item r words next item []).1.status
unfolding finalize_work_item
finalize-Follows r words next item =
    go (not (require_budget_admin r)) (is_blank words) (can_finalize_work_item r.now item) refl
  where
    go :
        (a b : Bool) (o : Option Refusal)
        → can_finalize_work_item r.now item ≡ o
        → Follows Move.finalize item.status
            (item_of (
              if a
              then (Outcome.forbidden, item, [])
              else if b
              then (Outcome.refused Refusal.finalize_note_required, item, [])
              else elim o [
                | some reason ↦ (Outcome.refused reason, item, [])
                | none ↦ (
                  Outcome.done,
                  finalize_item r words next item,
                  if is_primary item.request_kind then map (unpause r) [] else [],
                )
              ])).status
    go true b o e = inl refl
    go false true o e = inl refl
    go false false (some reason) e = inl refl
    go false false none e =
        finalizable-Follows r.now _ item e (finalize_item_status r words next item)

pub unfinalize-Follows :
    (r : Request) (words : Option Text) (reset : Bool) (item : WorkItem)
    → Follows Move.unfinalize item.status (unfinalize_work_item r words reset item []).1.status
unfolding unfinalize_work_item unfinalize_item
unfinalize-Follows r words reset item =
    elim (Bool-cases (is_done (unfinalize_work_item r words reset item []).0)) [
      | inl h ↦
          along ItemStatus.finalized ItemStatus.submitted item.status _ Edge.unfinalizes
            (finalized_of item.status (ground arith)) (ground arith)
      | inr h ↦ inl (ground arith)
    ]

pub pause-Follows :
    (r : Request) (words : Option Text) (item : WorkItem)
    → Follows Move.sibling_unfinalized item.status (pause r words item).status
unfolding pause
pause-Follows r words item =
    elim (Bool-cases
      (not (is_primary item.request_kind) && is_submitted item.status && not item.is_archived)) [
        | inl h ↦
            along ItemStatus.submitted ItemStatus.paused item.status _ Edge.pauses
              (submitted_of item.status (ground arith)) (rw h refl)
        | inr h ↦ inl (rw h refl)
      ]

pub unpause-Follows :
    (r : Request) (item : WorkItem)
    → Follows Move.sibling_finalized item.status (unpause r item).status
unfolding unpause
unpause-Follows r item =
    elim (Bool-cases (
      not (is_primary item.request_kind)
      && is_paused item.status
      && not item.is_archived
      && can_unpause item)) [
        | inl h ↦
            along ItemStatus.paused ItemStatus.submitted item.status _ Edge.goes_on
              (paused_of item.status (ground arith)) (ground arith)
        | inr h ↦ inl (ground arith)
      ]

pub decide-Follows :
    (r : Request) (ctx : Option PortfolioContext) (action : ReviewAction) (words : Option Text)
    (amount : Option ℤ) (line_id review_id : ℕ) (item : WorkItem)
    → Follows Move.decide item.status
        (apply_review_decision r ctx action words amount line_id review_id item).1.status
unfolding settle
decide-Follows r ctx action words amount line_id review_id item =
    let x : Outcome × WorkItem =
      apply_review_decision r ctx action words amount line_id review_id item in
    let (kept, drafts, _) =
      apply_review_decision_refused r ctx action words amount line_id review_id item in
    by_outcome Move.decide item x (λ h. ap (λ (i : WorkItem). i.status) (kept h))
      (λ h.
        let (line, review, s, (_, _, _, e)) =
          Taken-done r ctx action words amount line_id review_id item h in
        let decided = put_line (decide_line r action words amount s review line) item in
        subst (λ (y : Outcome × WorkItem). Follows Move.decide item.status y.1.status) (sym e)
          (auto_finalized-Follows r (reopen_item r action words line.line_number decided)
            item.status
            (elim (Bool-cases (is_draft item.status)) [
              | inl d ↦ let refusal = drafts d in cc
              | inr d ↦ d
            ])
            (reopened-Follows r action words line.line_number decided)))
