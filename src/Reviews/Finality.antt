-- ===== src/Reviews/Finality.antt =====
-- The reviews of a FINALIZED request whose work type has no admin-final stage, over any sequence of
-- decisions, answers, reopenings, submissions and returns to draft.
use resource_mgmt_app.Base.{
  ℕ, ◌≡◌, refl, sym, ap, ◌∙◌, Bool, true, false, ◌&&◌, Option, some, List, [], ◌∷◌, arith, any,
  any-append, any-select, any_of_find?, subst, key-find?, select, select-update_first, find?,
  update_first, Bool-cases, inl, inr, ◌==◌,
}
use resource_mgmt_app.Base.Int.{ℤ}
use resource_mgmt_app.Base.Text.{Text}
use resource_mgmt_app.Model.{
  ReviewStatus, ReviewAction, ReturnAction, WorkLine, WorkLineReview, WorkItem, PortfolioContext,
  is_approval_group, is_finalized, is_draft, is_open_review, is_reopen,
}
use resource_mgmt_app.Access.{Request, is_group_final}
use resource_mgmt_app.Lifecycle.{
  group_reviews, may_auto_finalize, try_auto_finalize, submit_work_item, recall_to_draft,
  reset_submitted_to_draft,
}
use resource_mgmt_app.Outcome.{is_done}
use resource_mgmt_app.Reviews.{
  accept, decide_review, decide_line, reopen_item, find_line, find_review, put_line, settle,
  apply_review_decision,
}
use resource_mgmt_app.Reviews.Transitions.{
  Edge, Taken, Taken-done, apply_review_decision_refused, validate_review_transition_sound,
}
use resource_mgmt_app.Reviews.Effects.{reviews-decide_line, id-decide_line}

abbrev pub is_group_row : WorkLineReview → Bool
is_group_row v = is_approval_group v.stage

abbrev pub is_open_row : WorkLineReview → Bool
is_open_row v = is_open_review v.status

-- no review of a group is open
abbrev pub NoneOpen : List WorkLine → Type 0
NoneOpen lines = any is_open_row (group_reviews lines) ≡ false

abbrev pub IsSettled : WorkItem → Type 0
IsSettled item =
    is_finalized item.status ≡ true → is_group_final item.portfolio ≡ true → NoneOpen item.lines

-- a line of a settled list is settled
line_of_lines :
    (k : ℕ) (lines : List WorkLine) (line : WorkLine)
    → find? (λ l. l.id == k) lines ≡ some line
    → NoneOpen lines
    → any is_open_row (select is_group_row line.reviews) ≡ false
unfolding group_reviews
line_of_lines k [] line found h = cc
line_of_lines k (l ∷ lines) line found h = ground (
  arith,
  any-append is_open_row (select is_group_row l.reviews) (group_reviews lines),
  line_of_lines k lines line,
)

-- a line whose group reviews are the same leaves those of the request the same
group_reviews-update_first :
    (k : ℕ) (lines : List WorkLine) (line line' : WorkLine)
    → find? (λ l. l.id == k) lines ≡ some line
    → select is_group_row line'.reviews ≡ select is_group_row line.reviews
    → group_reviews (update_first (λ l. l.id == k) (λ _. line') lines) ≡ group_reviews lines
unfolding group_reviews
group_reviews-update_first k [] line line' found same = refl
group_reviews-update_first k (l ∷ lines) line line' found same =
    ground (arith, group_reviews-update_first k lines line line')

-- only a reopening takes a decided review anywhere
open_of_Edge :
    (a : ReviewStatus) (action : ReviewAction) (b : ReviewStatus)
    → Edge a action b
    → is_reopen action ≡ false
    → is_open_review a ≡ true
open_of_Edge a action b Edge.approves h = refl
open_of_Edge a action b Edge.flags h = refl
open_of_Edge a action b Edge.rejects h = refl
open_of_Edge a action b Edge.asks h = refl
open_of_Edge a action b Edge.returns h = refl
open_of_Edge a action b Edge.answers h = refl
open_of_Edge a action b Edge.adjusts h = refl
open_of_Edge a action b Edge.reopens h = cc
open_of_Edge a action b Edge.reopens_rejected h = cc

try_auto_finalize-IsSettled :
    (r : Request) (item : WorkItem) → IsSettled item → IsSettled (try_auto_finalize r item).0
unfolding try_auto_finalize may_auto_finalize
try_auto_finalize-IsSettled r item h = ground arith

reopen_item-IsSettled :
    (r : Request) (action : ReviewAction) (note : Option Text) (n : ℕ) (item : WorkItem)
    → (is_reopen action ≡ false → IsSettled item)
    → IsSettled (reopen_item r action note n item)
unfolding reopen_item
reopen_item-IsSettled r action _ n item h = ground arith

-- a review that is open is in no group's stage, where none of those is open
group_of_open :
    (line : WorkLine) (k : ℕ) (review : WorkLineReview)
    → find_review k line ≡ some review
    → any is_open_row (select is_group_row line.reviews) ≡ false
    → is_open_review review.status ≡ true
    → is_group_row review ≡ false
group_of_open line k review found h e = ground (
  arith,
  any-select is_group_row is_open_row line.reviews,
  any_of_find? (λ v. v.id == k) (λ v. is_group_row v && is_open_row v) line.reviews review,
)

-- a decision that is no reopening, on an open review, keeps the group rows of a line that has no open one
module _ (r : Request) (action : ReviewAction) (note : Option Text) (amount_cents : Option ℤ)
    (s : ReviewStatus) where
  group_rows-decide_line :
      (line : WorkLine) (k : ℕ) (review : WorkLineReview)
      → find_review k line ≡ some review
      → any is_open_row (select is_group_row line.reviews) ≡ false
      → is_open_review review.status ≡ true
      → select is_group_row (decide_line r action note amount_cents s review line).reviews
        ≡ select is_group_row line.reviews
  unfolding decide_review
  group_rows-decide_line line k review found h e =
      let other = group_of_open line k review found h e in
      let review' = decide_review r action note amount_cents s review in
      ap (select is_group_row) (reviews-decide_line r action note amount_cents s review line)
      ∙ subst
          (λ n.
            select is_group_row (update_first (λ v. v.id == n) (λ _. review') line.reviews)
            ≡ select is_group_row line.reviews)
          (sym (key-find? (λ v. v.id) k line.reviews review review' found))
          (select-update_first (λ v. v.id == k) is_group_row review' line.reviews review found other
            other)

  put_line-IsSettled :
      (line_id k : ℕ) (item : WorkItem) (line : WorkLine) (review : WorkLineReview)
      → find_line line_id item ≡ some line
      → find_review k line ≡ some review
      → is_open_review review.status ≡ true
      → IsSettled item
      → IsSettled (put_line (decide_line r action note amount_cents s review line) item)
  put_line-IsSettled line_id k item line review found found' e settled final group =
      let new_line = decide_line r action note amount_cents s review line in
      let none_open = settled final group in
      let same : group_reviews (put_line new_line item).lines ≡ group_reviews item.lines =
        subst
          (λ n.
            group_reviews (update_first (λ l. l.id == n) (λ _. new_line) item.lines)
            ≡ group_reviews item.lines)
          (sym (
            id-decide_line r action note amount_cents s review line
            ∙ key-find? (λ l. l.id) line_id item.lines line new_line found))
          (group_reviews-update_first line_id item.lines line new_line found (
            group_rows-decide_line line k review found'
              (line_of_lines line_id item.lines line found none_open) e)) in
      ap (any is_open_row) same ∙ none_open

settle-IsSettled :
    (r : Request) (ctx : Option PortfolioContext) (action : ReviewAction) (note : Option Text)
    (amount_cents : Option ℤ) (line_id k : ℕ) (item : WorkItem) (line : WorkLine)
    (review : WorkLineReview) (s : ReviewStatus)
    → Taken r ctx action note amount_cents line_id k item line review s
    → IsSettled item
    → IsSettled (settle r action note amount_cents item line review (accept s)).1
unfolding settle
settle-IsSettled r ctx action note amount_cents line_id k item line review s taken settled =
    let sound =
      validate_review_transition_sound r ctx item line review.status action note s taken.2 in
    try_auto_finalize-IsSettled r _ (
      reopen_item-IsSettled r action note line.line_number _ (λ h.
        put_line-IsSettled r action note amount_cents s line_id k item line review taken.0 taken.1
          (open_of_Edge review.status action s sound.0 h) settled))

decision-IsSettled :
    (r : Request) (ctx : Option PortfolioContext) (action : ReviewAction) (note : Option Text)
    (amount_cents : Option ℤ) (line_id k : ℕ) (item : WorkItem)
    → IsSettled item
    → IsSettled (apply_review_decision r ctx action note amount_cents line_id k item).1
decision-IsSettled r ctx action note amount_cents line_id k item settled =
    let decided = apply_review_decision r ctx action note amount_cents line_id k item in
    elim (Bool-cases (is_done decided.0)) [
      | inl e ↦
          let (line, review, s, taken) =
            Taken-done r ctx action note amount_cents line_id k item e in
          subst IsSettled (sym (ap (λ o. o.1) taken.3)) (
            settle-IsSettled r ctx action note amount_cents line_id k item line review s taken
              settled)
      | inr e ↦
          subst IsSettled
            (sym
              ((apply_review_decision_refused r ctx action note amount_cents line_id k item).0 e))
            settled
    ]

submit-IsSettled :
    (r : Request) (next : ℕ) (item item' : WorkItem)
    → submit_work_item r next item ≡ some item'
    → IsSettled item'
unfolding submit_work_item
submit-IsSettled r next item item' h = ground arith

-- What the routes do to a request of a work type without an admin-final stage: it is submitted as a
-- draft, a review is decided, answered or reopened, it is recalled, pulled back or sent back.
pub data Step : WorkItem → WorkItem → Type 0 where
  submits :
      (r : Request) (next : ℕ) (item item' : WorkItem)
      → is_draft item.status ≡ true
      → submit_work_item r next item ≡ some item'
      → Step item item'
  decides :
      (r : Request) (ctx : Option PortfolioContext) (action : ReviewAction) (note : Option Text)
      (amount_cents : Option ℤ) (line_id review_id : ℕ) (item : WorkItem)
      → Step item (apply_review_decision r ctx action note amount_cents line_id review_id item).1
  recalls : (r : Request) (item : WorkItem) → Step item (recall_to_draft r item)
  returns :
      (r : Request) (action : ReturnAction) (reason : Option Text) (item : WorkItem)
      → Step item (reset_submitted_to_draft r action reason item)

pub data Reach (start : WorkItem) : WorkItem → Type 0 where
  here : Reach start start
  next : {item item' : WorkItem} → Reach start item → Step item item' → Reach start item'

Step-IsSettled : {item item' : WorkItem} → Step item item' → IsSettled item → IsSettled item'
unfolding recall_to_draft reset_submitted_to_draft
Step-IsSettled (submits r id item item' _ e) h = submit-IsSettled r id item item' e
Step-IsSettled (decides r ctx action note amount_cents line_id k item) h =
    decision-IsSettled r ctx action note amount_cents line_id k item h
Step-IsSettled (recalls r item) h = λ f. cc
Step-IsSettled (returns r action reason item) h = λ f. cc

-- From a draft, whatever sequence of submissions, decisions, answers, reopenings and returns to draft
-- a request goes through: while it is FINALIZED and its work type has no admin-final stage, no
-- approval-group review of it is pending or kicked back.
pub Reach-IsSettled :
    (item item' : WorkItem)
    → is_draft item.status ≡ true
    → Reach item item'
    → is_finalized item'.status ≡ true
    → is_group_final item'.portfolio ≡ true
    → any (λ v. is_open_review v.status) (group_reviews item'.lines) ≡ false
Reach-IsSettled item item' d here = ground arith
Reach-IsSettled item item'' d (next {item = item'} run step) =
    Step-IsSettled step (Reach-IsSettled item item' d run)
