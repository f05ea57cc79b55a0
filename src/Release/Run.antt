-- ===== src/Release/Run.antt =====
-- What one release does to the items of the event, and that it does nothing the second time.
use resource_mgmt_app.Base.{
  ◌≡◌, refl, ap, subst, sym, ◌∙◌, inl, inr, Bool-cases, true, false, Option, List, [], ◌∷◌, map,
  length, if◌then◌else◌, arith, ==_refl,
}
use resource_mgmt_app.Base.Text.{Text}
use resource_mgmt_app.Model.{EventCycle, WorkItem}
use resource_mgmt_app.Access.{Request}
use resource_mgmt_app.Outcome.{is_done}
use resource_mgmt_app.Release.{
  Mailer, Box, Book, is_held, get_held_budgets, latch, with_cycle, stamp_released, release_items,
  release_event_budgets,
}

-- an item after a release: it is released, with the note in its history, exactly if it was held
abbrev pub released_item : Request → Option Text → EventCycle → WorkItem → WorkItem
released_item r note cycle item =
    if is_held cycle.id item
    then stamp_released r note (with_cycle cycle item)
    else with_cycle cycle item

release_items_each :
    (mailer : Mailer) (r : Request) (words : Option Text) (cycle : EventCycle)
    (items : List WorkItem) (box : Box)
    → (release_items mailer r words cycle items box).0 ≡ map (released_item r words cycle) items
unfolding release_items
release_items_each mailer r words cycle [] box = refl
release_items_each mailer r words cycle (item ∷ items) box =
    ap (λ xs. released_item r words cycle item ∷ xs)
      (release_items_each mailer r words cycle items _)

with_cycle_once :
    (cycle : EventCycle) (item : WorkItem)
    → with_cycle cycle (with_cycle cycle item) ≡ with_cycle cycle item
unfolding with_cycle
with_cycle_once cycle item = ground (arith, ==_refl cycle.id)

with_cycle-stamp_released :
    (r : Request) (words : Option Text) (cycle : EventCycle) (item : WorkItem)
    → with_cycle cycle (stamp_released r words (with_cycle cycle item))
      ≡ stamp_released r words (with_cycle cycle (with_cycle cycle item))
unfolding with_cycle stamp_released
with_cycle-stamp_released r words cycle item = ground (arith, ==_refl cycle.id)

module _ (r : Request) (words : Option Text) (cycle : EventCycle) where
  held_of_released : (item : WorkItem) → is_held cycle.id (released_item r words cycle item) ≡ false
  unfolding is_held stamp_released with_cycle
  held_of_released item = ground arith

  with_cycle_released :
      (item : WorkItem)
      → with_cycle cycle (released_item r words cycle item) ≡ released_item r words cycle item
  with_cycle_released item =
      ground (arith, with_cycle_once cycle item, with_cycle-stamp_released r words cycle item)

  none_held :
      (items : List WorkItem)
      → get_held_budgets cycle.id (map (released_item r words cycle) items) ≡ []
  unfolding get_held_budgets
  none_held [] = refl
  none_held (item ∷ items) = rw (held_of_released item) (none_held items)

  -- a later release finds each item as this one left it
  released_once :
      (r' : Request) (words' : Option Text) (items : List WorkItem)
      → map (released_item r' words' cycle) (map (released_item r words cycle) items)
        ≡ map (released_item r words cycle) items
  released_once r' words' [] = refl
  released_once r' words' (item ∷ items) =
      rw (held_of_released item)
        (rw (with_cycle_released item) (rw (released_once r' words' items) refl))

module _ (mailer : Mailer) (r : Request) (words : Option Text) (book : Book) where
  released_book :
      is_done (release_event_budgets mailer r words book).0 ≡ true
      → let cycle = latch r book.event_cycle in
        let (_, count, book') = release_event_budgets mailer r words book in
        (count ≡ length (get_held_budgets book.event_cycle.id book.items))
        × (book'.event_cycle ≡ cycle)
        × (book'.items ≡ (release_items mailer r words cycle book.items book.box).0)
  unfolding release_event_budgets
  released_book ok = ground arith

  -- A release that is refused changes nothing: no item, no date of approval, no email.
  pub release_event_budgets_refused :
      is_done (release_event_budgets mailer r words book).0 ≡ false
      → (release_event_budgets mailer r words book).1 ≡ 0
        × (release_event_budgets mailer r words book).2 ≡ book
  unfolding release_event_budgets
  release_event_budgets_refused failed = ground arith

  latch_id : (latch r book.event_cycle).id ≡ book.event_cycle.id
  unfolding latch
  latch_id = ground arith

  -- a release as a map over the items
  pub released_items :
      is_done (release_event_budgets mailer r words book).0 ≡ true
      → let cycle = latch r book.event_cycle in
        let (_, count, book') = release_event_budgets mailer r words book in
        (count ≡ length (get_held_budgets book.event_cycle.id book.items))
        × (book'.event_cycle ≡ cycle)
        × (book'.items ≡ map (released_item r words cycle) book.items)
        × (get_held_budgets book.event_cycle.id book'.items ≡ [])
  released_items ok =
      let cycle = latch r book.event_cycle in
      let (count, e, items) = released_book ok in
      let stamped = items ∙ release_items_each mailer r words cycle book.items book.box in
      (
        count,
        e,
        stamped,
        rw stamped (
            subst (λ n. get_held_budgets n (map (released_item r words cycle) book.items) ≡ [])
              latch_id (none_held r words cycle book.items)),
      )

latch_once : (r r' : Request) (cycle : EventCycle) → latch r' (latch r cycle) ≡ latch r cycle
unfolding latch
latch_once r r' cycle = ground arith

-- A second release of the same event, by whoever may release and with whatever note, releases nothing, and
-- leaves every item and the date of approval as the first one left them.
pub release_event_budgets_idempotent :
    (mailer mailer' : Mailer) (r r' : Request) (words words' : Option Text) (book : Book)
    → is_done (release_event_budgets mailer r words book).0 ≡ true
    → let book' = (release_event_budgets mailer r words book).2 in
      let second = release_event_budgets mailer' r' words' book' in
      (second.1 ≡ 0) × (second.2.items ≡ book'.items) × (second.2.event_cycle ≡ book'.event_cycle)
release_event_budgets_idempotent mailer mailer' r r' words words' book ok =
    let book' : Book = (release_event_budgets mailer r words book).2 in
    let cycle : EventCycle = latch r book.event_cycle in
    let (_, e, items, unheld) = released_items mailer r words book ok in
    let same : latch r' book'.event_cycle ≡ cycle =
      ap (latch r') e ∙ latch_once r r' book.event_cycle in
    elim (Bool-cases (is_done (release_event_budgets mailer' r' words' book').0)) [
      | inl done' ↦
          let (count, e', items', _) = released_items mailer' r' words' book' done' in
          (
            count
                ∙ ap (λ (c : EventCycle). length (get_held_budgets c.id book'.items)) e
                ∙ ap (λ n. length (get_held_budgets n book'.items)) (latch_id mailer r words book)
                ∙ ap length unheld,
            items'
                ∙ ap (λ c. map (released_item r' words' c) book'.items) same
                ∙ ap (map (released_item r' words' cycle)) items
                ∙ released_once r words cycle r' words' book.items
                ∙ sym items,
            e' ∙ same ∙ sym e,
          )
      | inr failed ↦
          let (count, kept) = release_event_budgets_refused mailer' r' words' book' failed in
          (count, ap (λ (b : Book). b.items) kept, ap (λ (b : Book). b.event_cycle) kept)
    ]
