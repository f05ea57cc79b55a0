-- ===== src/AdminFinal/Unfinalize/Siblings.antt =====
-- The supplementary requests beside a primary one that is unfinalized and finalized again.
use resource_mgmt_app.Base.{
  ℕ, ◌≡◌, ap, ◌∙◌, sym, subst, Bool, true, false, not, ◌&&◌, ◌||◌, Option, List, [], ◌∷◌, all, map,
  arith,
}
use resource_mgmt_app.Base.Each.{Each}
use resource_mgmt_app.Base.Text.{Text}
use resource_mgmt_app.Model.{ItemStatus, WorkItem, is_submitted, is_paused, is_primary}
use resource_mgmt_app.Access.{Request}
use resource_mgmt_app.Outcome.{is_done}
use resource_mgmt_app.AdminFinal.Finalize.{finalize_work_item, can_unpause, unpause}
use resource_mgmt_app.AdminFinal.Finalize.Siblings.{
  is_in_review, can_unpause_lem, finalize_work_item_others,
}
use resource_mgmt_app.Actions.Edges.{paused_of}
use resource_mgmt_app.AdminFinal.Unfinalize.{unfinalize_work_item, unfinalize_item, pause}

-- a supplementary request in review, or one that is paused
abbrev pub is_waiting : WorkItem → Bool
is_waiting supp =
    not (is_primary supp.request_kind)
    && not supp.is_archived
    && (is_submitted supp.status || is_paused supp.status)

-- while the primary one is unfinalized: such a request is paused, any other is as it was
abbrev pub IsHeldBack : WorkItem → WorkItem → Type 0
IsHeldBack supp supp' =
    (is_waiting supp ≡ true → supp'.status ≡ ItemStatus.paused)
    × (is_waiting supp ≡ false → supp' ≡ supp)
    × (supp'.lines ≡ supp.lines)

-- after the second finalization: it is in review again exactly if each of its lines is
abbrev pub IsBack : WorkItem → WorkItem → Type 0
IsBack supp supp'' =
    (is_waiting supp ≡ true
      → (all is_in_review supp.lines ≡ true → supp''.status ≡ ItemStatus.submitted)
        × (all is_in_review supp.lines ≡ false → supp''.status ≡ ItemStatus.paused))
    × (is_waiting supp ≡ false → supp'' ≡ supp)
    × (supp''.lines ≡ supp.lines)

goes_on :
    (r : Request) (supp : WorkItem)
    → (not (is_primary supp.request_kind) && not supp.is_archived) ≡ true
    → supp.status ≡ ItemStatus.paused
    → ((can_unpause supp ≡ true → (unpause r supp).status ≡ ItemStatus.submitted)
        × (can_unpause supp ≡ false → (unpause r supp).status ≡ ItemStatus.paused))
unfolding unpause
goes_on r supp k s =
    let p : is_paused supp.status ≡ true = ap is_paused s in (λ h. ground arith, λ h. ground arith)

module _ (r r' : Request) (reason : Option Text) where
  pause-IsHeldBack : (supp : WorkItem) → IsHeldBack supp (pause r reason supp)
  unfolding pause
  pause-IsHeldBack supp =
      (λ h. ground (arith, paused_of supp.status), λ h. ground arith, ground arith)

  unpause-IsBack : (supp : WorkItem) → IsBack supp (unpause r' (pause r reason supp))
  unfolding pause unpause
  unpause-IsBack supp = (
    λ h.
        let held = pause-IsHeldBack supp in
        let kind : (not (is_primary (pause r reason supp).request_kind)
              && not (pause r reason supp).is_archived)
            ≡ true =
          ground arith in
        let same : can_unpause (pause r reason supp) ≡ all is_in_review supp.lines =
          can_unpause_lem (pause r reason supp) ∙ ap (all is_in_review) held.2 in
        let (back, stays) = goes_on r' (pause r reason supp) kind (held.0 h) in
        (λ e. back (same ∙ e), λ e. stays (same ∙ e)),
    λ h. ground arith,
    ground arith,
  )

  map-IsHeldBack : (others : List WorkItem) → Each IsHeldBack others (map (pause r reason) others)
  map-IsHeldBack [] = Each.nil
  map-IsHeldBack (supp ∷ others) = Each.cons (pause-IsHeldBack supp) (map-IsHeldBack others)

  map-IsBack :
      (others : List WorkItem) → Each IsBack others (map (unpause r') (map (pause r reason) others))
  map-IsBack [] = Each.nil
  map-IsBack (supp ∷ others) = Each.cons (unpause-IsBack supp) (map-IsBack others)

unfinalized_others :
    (r : Request) (reason : Option Text) (reset : Bool) (item : WorkItem) (others : List WorkItem)
    → let (undone, item', others') = unfinalize_work_item r reason reset item others in
      is_primary item.request_kind ≡ true
      → is_done undone ≡ true
      → (is_primary item'.request_kind ≡ true) × (others' ≡ map (pause r reason) others)
unfolding unfinalize_work_item unfinalize_item
unfinalized_others r reason reset item others p h = (ground arith, ground arith)

-- If a primary request is unfinalized and then finalized again, the unarchived supplementary requests of
-- the portfolio that were SUBMITTED are PAUSED in between and SUBMITTED again after, if every line of theirs
-- has a group and an approval-group review; otherwise they stay PAUSED. A PAUSED one is treated alike. Any
-- other request of the portfolio is unchanged by both, and no line of any of them changes.
pub unfinalize-finalize_siblings :
    (r r' : Request) (reason note : Option Text) (reset : Bool) (next : ℕ) (item : WorkItem)
    (others : List WorkItem)
    → let (undone, item', others') = unfinalize_work_item r reason reset item others in
      let (outcome, _, others'') = finalize_work_item r' note next item' others' in
      is_primary item.request_kind ≡ true
      → is_done undone ≡ true
      → is_done outcome ≡ true
      → Each IsHeldBack others others' × Each IsBack others others''
unfinalize-finalize_siblings r r' reason note reset next item others p h h' =
    let u = unfinalize_work_item r reason reset item others in
    let (p', e) = unfinalized_others r reason reset item others p h in
    let e' = finalize_work_item_others r' note next u.1 u.2 p' h' ∙ ap (map (unpause r')) e in
    (
      subst (Each IsHeldBack others) (sym e) (map-IsHeldBack r r' reason others),
      subst (Each IsBack others) (sym e') (map-IsBack r r' reason others),
    )
