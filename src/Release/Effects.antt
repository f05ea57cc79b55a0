-- ===== src/Release/Effects.antt =====
-- What a release that goes through leaves of the event and of each of its requests, column by column.
use resource_mgmt_app.Base.{
  ◌≡◌, refl, sym, subst, inl, inr, Bool-cases, true, false, Option, none, some, List, [], ◌∷◌, ◌++◌,
  map, length, arith, ℕ,
}
use resource_mgmt_app.Base.Each.{Each}
use resource_mgmt_app.Base.Text.{Text, is_blank, strip, or_empty}
use resource_mgmt_app.Model.{
  EventCycle, EventType, WorkItem, WorkItemAuditEvent, Snapshot, is_finalized,
}
use resource_mgmt_app.Access.{Request, require_budget_admin}
use resource_mgmt_app.Outcome.{is_done}
use resource_mgmt_app.AdminFinal.Finalize.{uses_release}
use resource_mgmt_app.Release.{
  Mailer, Book, is_held, get_held_budgets, latch, with_cycle, stamp_released, release_event_budgets,
}
use resource_mgmt_app.Release.Run.{released_item, released_items}

-- the event's date of approval: an earlier one stands, otherwise it is now, by the user
abbrev pub IsLatchedOver : Request → EventCycle → EventCycle → Option ℕ → Type 0
IsLatchedOver r cycle cycle' (some _) = cycle' ≡ cycle
IsLatchedOver r cycle cycle' none =
    (cycle'.id ≡ cycle.id)
    × (cycle'.board_approved_at ≡ some r.now)
    × (cycle'.board_approved_by_user_id ≡ some r.user_ctx.user_id)

abbrev pub IsLatched : Request → EventCycle → EventCycle → Type 0
IsLatched r cycle cycle' = IsLatchedOver r cycle cycle' cycle.board_approved_at

-- a budget of the event that waits for its release
abbrev pub IsHeldBudget : ℕ → WorkItem → Type 0
IsHeldBudget cycle_id item =
    (item.portfolio.event_cycle.id ≡ cycle_id)
    × (uses_release item.portfolio.work_type.config ≡ true)
    × (is_finalized item.status ≡ true)
    × (item.board_released_at ≡ none)
    × (item.is_archived ≡ false)
    × (item.portfolio.is_archived ≡ false)

-- the release of one request: its time, and one event more, with the note and the user
abbrev pub IsStamped : Request → Option Text → WorkItem → WorkItem → Type 0
IsStamped r words item item' =
    (item'.board_released_at ≡ some r.now)
    × (event : WorkItemAuditEvent) × (item'.audit_events ≡ item.audit_events ++ (event ∷ []))
    × (event.event_type ≡ EventType.board_release)
    × (event.reason ≡ some (strip (or_empty words)))
    × (event.created_by_user_id ≡ r.user_ctx.user_id)

-- exactly a held request is released; the status and the lines are the same
abbrev pub IsReleasedFrom : Request → Option Text → ℕ → WorkItem → WorkItem → Type 0
IsReleasedFrom r words cycle_id item item' =
    (IsHeldBudget cycle_id item → IsStamped r words item item')
    × ((IsHeldBudget cycle_id item → ⊥)
        → (item'.board_released_at ≡ item.board_released_at)
          × (item'.audit_events ≡ item.audit_events))
    × (item'.status ≡ item.status)
    × (item'.lines ≡ item.lines)

is_held_of :
    (cycle_id : ℕ) (item : WorkItem) → IsHeldBudget cycle_id item → is_held cycle_id item ≡ true
unfolding is_held
is_held_of cycle_id item (e, u, f, b, a, p) = ground (arith, e, u, f, b, a, p)

held_of :
    (cycle_id : ℕ) (item : WorkItem) → is_held cycle_id item ≡ true → IsHeldBudget cycle_id item
unfolding is_held
held_of cycle_id item h =
    (ground arith, ground arith, ground arith, ground arith, ground arith, ground arith)

module _ (r : Request) (words : Option Text) (cycle : EventCycle) where
  stamped :
      (item : WorkItem) → IsStamped r words item (stamp_released r words (with_cycle cycle item))
  unfolding stamp_released with_cycle
  stamped item =
      let event : WorkItemAuditEvent = record {
        event_type = EventType.board_release;
        old_value = none;
        new_value = none;
        reason = some (strip (or_empty words));
        snapshot = Snapshot.no_snapshot;
        created_by_user_id = r.user_ctx.user_id;
      } in
      (ground arith, event, ground arith, refl, refl, refl)

  released_item-IsReleasedFrom :
      (item : WorkItem) → IsReleasedFrom r words cycle.id item (released_item r words cycle item)
  unfolding stamp_released with_cycle
  released_item-IsReleasedFrom item = elim (Bool-cases (is_held cycle.id item)) [
    | inl h ↦ (
      λ _. rw h (stamped item),
      λ no. absurd (no (held_of cycle.id item h)),
      ground arith,
      ground arith,
    )
    | inr h ↦ (
      λ held. let e = is_held_of cycle.id item held in cc,
      λ _. (ground arith, ground arith),
      ground arith,
      ground arith,
    )
  ]

  items_released :
      (items : List WorkItem)
      → Each (IsReleasedFrom r words cycle.id) items (map (released_item r words cycle) items)
  items_released [] = Each.nil
  items_released (item ∷ items) =
      Each.cons (released_item-IsReleasedFrom item) (items_released items)

latch-IsLatched : (r : Request) (cycle : EventCycle) → IsLatched r cycle (latch r cycle)
unfolding latch
latch-IsLatched r cycle = go cycle.board_approved_at refl
  where
    go : (o : Option ℕ) → cycle.board_approved_at ≡ o → IsLatchedOver r cycle (latch r cycle) o
    go none e = (ground arith, ground arith, ground arith)
    go (some t) e = ground arith

latch_id : (r : Request) (cycle : EventCycle) → (latch r cycle).id ≡ cycle.id
unfolding latch
latch_id r cycle = ground arith

-- A release that goes through is a budget admin's, with a note. It counts the held budgets of the event,
-- gives each of them the time and one audit event with the note and the user, and leaves every other
-- request's release and history, and every request's status and lines, as they were. An earlier date
-- of approval stands; otherwise the event is approved now by the user. No budget of it is held after.
pub release_event_budgets_releases :
    (mailer : Mailer) (r : Request) (words : Option Text) (book : Book)
    → is_done (release_event_budgets mailer r words book).0 ≡ true
    → let (_, count, book') = release_event_budgets mailer r words book in
      let cycle_id = book.event_cycle.id in
      (require_budget_admin r ≡ true)
      × (is_blank words ≡ false)
      × (count ≡ length (get_held_budgets cycle_id book.items))
      × IsLatched r book.event_cycle book'.event_cycle
      × Each (IsReleasedFrom r words cycle_id) book.items book'.items
      × (get_held_budgets cycle_id book'.items ≡ [])
unfolding release_event_budgets
release_event_budgets_releases mailer r words book ok =
    let cycle = latch r book.event_cycle in
    let (count, e, items, unheld) = released_items mailer r words book ok in
    (
      ground arith,
      ground arith,
      count,
      subst (IsLatched r book.event_cycle) (sym e) (latch-IsLatched r book.event_cycle),
      subst (Each (IsReleasedFrom r words book.event_cycle.id) book.items) (sym items) (
          subst
            (λ n.
              Each (IsReleasedFrom r words n) book.items
                (map (released_item r words cycle) book.items))
            (latch_id r book.event_cycle) (items_released r words cycle book.items)),
      unheld,
    )
