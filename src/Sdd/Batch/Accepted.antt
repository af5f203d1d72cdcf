-- ===== src/Sdd/Batch/Accepted.antt =====
-- batch_policy.py: the batch that an accepted selection is.
use autohub.Base.{
  ℕ, ◌≡◌, ◌≤◌, Bool, true, false, not, ◌||◌, ◌&&◌, List, map, All, ok, length, leb, bind_returned,
  raise_if_passed, ok_injective, subst, sym, ◌∙◌, ap, arith,
}
use autohub.Sdd.Batch.{
  Preview, Requested, Selected, PathView, mem, drain, select_members, ordered_selection,
  selected_in, distinct, is_finished, exceeds_limits, member_limit,
}
use autohub.Sdd.Batch.Order.{IsOrdered, drain-IsOrdered, drain-mem, drain-distinct}
use autohub.Sdd.Batch.Selection.{
  IsAdmitted, requested_id, selected_id, select_members_lem, selected_in-All, selected_in-id,
}

-- A batch for a request: each requested member once, no other, each one admitted, and every one after
-- the selected members that it depends on.
pub record IsBatch (pathlib : ℕ → PathView) (preview : Preview) (requested : List Requested)
    (batch : List Selected) : Type 0 where
  pub admitted : All (IsAdmitted pathlib preview.members) batch
  pub each_once : distinct (map selected_id batch) ≡ true
  pub same_members : (k : ℕ) → mem k (map selected_id batch) ≡ mem k (map requested_id requested)
  pub topological : IsOrdered (map requested_id requested) preview.edges (map selected_id batch)

-- A selection that is accepted has a complete preview of a milestone that is not finished, has one to
-- fifty members, and returns a batch for the request.
pub ordered_selection-IsBatch :
    (pathlib : ℕ → PathView) (preview : Preview) (requested : List Requested)
    (batch : List Selected)
    → ordered_selection pathlib preview requested ≡ ok batch
    → (preview.complete ≡ true)
      × (is_finished preview.milestone_status ≡ false)
      × (1 ≤ length requested)
      × (length requested ≤ member_limit)
      × IsBatch pathlib preview requested batch
unfolding ordered_selection
ordered_selection-IsBatch pathlib preview requested batch h =
    let ids = map requested_id requested in
    let (open', rest) = raise_if_passed (is_finished preview.milestone_status) _ _ _ h in
    let (whole, rest1) =
      raise_if_passed (not preview.complete || exceeds_limits preview) _ _ _ rest in
    let (sized, rest2) =
      raise_if_passed
        (not (leb 1 (length requested) && leb (length requested) member_limit)
          || not (distinct ids))
        _ _ _ rest1 in
    let (selected, chosen, rest3) =
      bind_returned (select_members pathlib preview.members requested) _ rest2 in
    let (order, drained, done) = bind_returned (drain ids preview.edges (length ids) ids) _ rest3 in
    let (all_selected, same_ids) =
      select_members_lem pathlib preview.members requested selected chosen in
    let kept = λ (k : ℕ). drain-mem ids preview.edges (length ids) ids order k drained in
    let ordered_ids : map selected_id (selected_in selected order) ≡ order =
      selected_in-id pathlib selected order
        (λ k there. ap (mem k) same_ids ∙ sym (kept k) ∙ there) in
    (
      complete_of preview.complete (exceeds_limits preview) whole,
      open',
      (sizes (length requested) (distinct ids) sized).0,
      (sizes (length requested) (distinct ids) sized).1,
      subst (IsBatch pathlib preview requested) (ok_injective done) (record {
        admitted = selected_in-All pathlib preview.members selected order all_selected;
        each_once =
            ap distinct ordered_ids
            ∙ drain-distinct ids preview.edges (length ids) ids order drained;
        same_members = λ k. ap (mem k) ordered_ids ∙ kept k;
        topological =
            subst (IsOrdered ids preview.edges) (sym ordered_ids)
              (drain-IsOrdered ids preview.edges (length ids) ids order drained);
      }),
    )
  where
    complete_of : (a b : Bool) → (not a || b) ≡ false → a ≡ true
    complete_of a b h = ground arith

    sizes :
        (n : ℕ) (d : Bool)
        → (not (leb 1 n && leb n member_limit) || not d) ≡ false
        → (1 ≤ n) × (n ≤ member_limit)
    sizes n d h = ground arith
