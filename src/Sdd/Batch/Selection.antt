-- ===== src/Sdd/Batch/Selection.antt =====
-- batch_policy.py: the loop over the requested members, and the rows of an order.
use autohub.Base.{
  ℕ, ◌≡◌, refl, Bool, true, false, not, ◌||◌, Option, none, some, List, [], ◌∷◌, ◌++◌, arith, ◌==◌,
  map, All, Bool-cases, inl, inr, ok, ==_refl, ◌∙◌, sym, subst, ap, bind_returned, raise_if_passed,
  ok_injective, ==_iff,
}
use autohub.Sdd.Batch.{
  Member, Requested, Selected, PathView, mem, is_supported, supported, available, select_members,
  selected_by, selected_in, is_safe,
}

abbrev pub requested_id : Requested → ℕ
requested_id r = r.id

abbrev pub selected_id : Selected → ℕ
selected_id s = s.preferences.id

module _ (pathlib : ℕ → PathView) where
  -- A selected member: its path is safe, and it is a row of the preview that may run as requested.
  pub record IsAdmitted (members : List Member) (s : Selected) : Type 0 where
    pub path_safe : is_safe pathlib (pathlib s.preferences.path) ≡ true
    pub row_found : available s.preferences.id members ≡ some s.row
    pub row_supported : is_supported s.row s.preferences ≡ true

  supported_ok :
      (o : Option Member) (value : Requested) (s : Selected)
      → supported o value ≡ ok s
      → (o ≡ some s.row) × (s.preferences ≡ value) × (is_supported s.row value ≡ true)
  supported_ok none value s h = cc
  supported_ok (some row) value s h = elim (Bool-cases (is_supported row value)) [
    | inr off ↦ cc (rw off at h)
    | inl on ↦
        let same : record { row = row; preferences = value } ≡ s = ok_injective (rw on at h) in
        (
          ap (λ x. some x.row) same,
          sym (ap (λ x. x.preferences) same),
          subst (λ x. is_supported x.row value ≡ true) same on,
        )
  ]

  pub select_members_lem :
      (members : List Member) (values : List Requested) (selected : List Selected)
      → select_members pathlib members values ≡ ok selected
      → All (IsAdmitted members) selected × (map selected_id selected ≡ map requested_id values)
  unfolding select_members
  select_members_lem members [] selected h =
      subst (λ x. All (IsAdmitted members) x × (map selected_id x ≡ [])) (ok_injective h) (tt, refl)
  select_members_lem members (value ∷ values) selected h =
      let (unsafe, rest) = raise_if_passed (not (is_safe pathlib (pathlib value.path))) _ _ _ h in
      let (s, chosen, rest1) =
        bind_returned (supported (available value.id members) value) _ rest in
      let (ss, taken, done) = bind_returned (select_members pathlib members values) _ rest1 in
      let (found, prefs, fine) = supported_ok (available value.id members) value s chosen in
      let (all_ss, ids) = select_members_lem members values ss taken in
      subst
        (λ x. All (IsAdmitted members) x × (map selected_id x ≡ map requested_id (value ∷ values)))
        (ok_injective done)
        ((admitted value s unsafe found prefs fine, all_ss), ap2_cons (ap requested_id prefs) ids)
    where
      unsafe_not : (b : Bool) → not b ≡ false → b ≡ true
      unsafe_not b h = ground arith

      admitted :
          (value : Requested) (s : Selected)
          → not (is_safe pathlib (pathlib value.path)) ≡ false
          → available value.id members ≡ some s.row
          → s.preferences ≡ value
          → is_supported s.row value ≡ true
          → IsAdmitted members s
      admitted value s unsafe found prefs fine =
          let fine_at = λ (v : Requested).
            (not (is_safe pathlib (pathlib v.path)) ≡ false)
            × ((available v.id members ≡ some s.row) × (is_supported s.row v ≡ true)) in
          let moved = subst fine_at (sym prefs) (unsafe, (found, fine)) in
          record {
            path_safe = unsafe_not (is_safe pathlib (pathlib s.preferences.path)) moved.0;
            row_found = moved.1.0;
            row_supported = moved.1.1;
          }

      ap2_cons : {x y : ℕ} {xs ys : List ℕ} → x ≡ y → xs ≡ ys → x ∷ xs ≡ y ∷ ys
      ap2_cons e f = cc

  -- The rows of the order: one for each key.
  selected_by-id :
      (ss : List Selected) (key : ℕ)
      → mem key (map selected_id ss) ≡ true
      → map selected_id (selected_by ss key) ≡ key ∷ []
  selected_by-id [] key h = cc
  selected_by-id (s ∷ ss) key h = elim (Bool-cases (s.preferences.id == key)) [
    | inl same ↦ rw same (ap (λ k. k ∷ []) ((==_iff s.preferences.id key).0 same))
    | inr other ↦ rw other (selected_by-id ss key (rw other at h))
  ]

  selected_by-All :
      (members : List Member) (ss : List Selected) (key : ℕ)
      → All (IsAdmitted members) ss
      → All (IsAdmitted members) (selected_by ss key)
  selected_by-All members [] key a = tt
  selected_by-All members (s ∷ ss) key a = elim (Bool-cases (s.preferences.id == key)) [
    | inl same ↦ rw same (a.0, tt)
    | inr other ↦ rw other (selected_by-All members ss key a.1)
  ]

  map-append : (f : Selected → ℕ) (xs ys : List Selected) → map f (xs ++ ys) ≡ map f xs ++ map f ys
  map-append f [] ys = refl
  map-append f (x ∷ xs) ys = rw (map-append f xs ys) refl

  All-append :
      (P : Selected → Type 0) (xs ys : List Selected) → All P xs → All P ys → All P (xs ++ ys)
  All-append P [] ys a b = b
  All-append P (x ∷ xs) ys a b = (a.0, All-append P xs ys a.1 b)

  pub selected_in-All :
      (members : List Member) (ss : List Selected) (keys : List ℕ)
      → All (IsAdmitted members) ss
      → All (IsAdmitted members) (selected_in ss keys)
  selected_in-All members ss [] a = tt
  selected_in-All members ss (key ∷ keys) a =
      All-append (IsAdmitted members) (selected_by ss key) (selected_in ss keys)
        (selected_by-All members ss key a) (selected_in-All members ss keys a)

  pub selected_in-id :
      (ss : List Selected) (keys : List ℕ)
      → ((k : ℕ) → mem k keys ≡ true → mem k (map selected_id ss) ≡ true)
      → map selected_id (selected_in ss keys) ≡ keys
  selected_in-id ss [] sub = refl
  selected_in-id ss (key ∷ keys) sub =
      map-append selected_id (selected_by ss key) (selected_in ss keys)
      ∙ rw (selected_by-id ss key (sub key (rw (==_refl key) refl))) (
          ap (λ ks. key ∷ ks)
            (selected_in-id ss keys (λ k there. sub k (or_right (key == k) (mem k keys) there))))
    where
      or_right : (a b : Bool) → b ≡ true → (a || b) ≡ true
      or_right a b h = ground arith
