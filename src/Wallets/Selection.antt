-- ===== src/Wallets/Selection.antt =====
-- What the statements on users do to the selection.
use ev_web3_award_system.Prelude.{
  ◌≡◌, refl, sym, ap, ap₂, subst, ◌∙◌, inl, inr, Bool, true, false, ◌&&◌, not, List, ◌∷◌, some,
  find_by, update_where, delete_where, count, if◌then◌else◌, All, All-mono, All-intro, All-zip,
  Apart, Apart-update, Bool-cases, Option-cases, arith, find_by-none, is_some,
}
use ev_web3_award_system.Text.{Text, text_eq}
use ev_web3_award_system.Text.Laws.{text_eq_refl}
use ev_web3_award_system.Store.{UserRecord}
use ev_web3_award_system.Wallets.{has_user_id, of_uid, active_of, deactivate}
use ev_web3_award_system.Wallets.Counts.{
  count_ext, count-update_where, count-delete_where, count_none, count_zero, count_found,
  Apart-delete_where, All-edited,
}
use ev_web3_award_system.Wallets.Rows.{
  same_id, Selected, SelectedBut, SelectedAll, SelectedAll-but, but-SelectedAll, of_other,
  Selected-counts,
}

-- An UPDATE that leaves ids and contract ids.
pub record SameRow (f : UserRecord → UserRecord) : Type 0 where
  pub id_of : (r : UserRecord) → (f r).id ≡ r.id
  pub uid_of : (r : UserRecord) → (f r).uid ≡ r.uid

abbrev edited : (UserRecord → Bool) → (UserRecord → UserRecord) → UserRecord → UserRecord
edited p f r = if p r then f r else r

module _ (p : UserRecord → Bool) (f : UserRecord → UserRecord) (same : SameRow f) where
  edited-id : (r : UserRecord) → (edited p f r).id ≡ r.id
  edited-id r = elim (Bool-cases (p r)) [ inl e ↦ rw e (same.id_of r) | inr e ↦ rw e refl ]

  edited-of_uid : (v : Text) (r : UserRecord) → of_uid v (edited p f r) ≡ of_uid v r
  unfolding of_uid
  edited-of_uid v r = elim (Bool-cases (p r)) [
    | inl e ↦ rw e (ap (λ u. text_eq u v) (same.uid_of r))
    | inr e ↦ rw e refl
  ]

  pub update-ids :
      (rows : List UserRecord) → Apart same_id rows → Apart same_id (update_where p f rows)
  unfolding has_user_id
  update-ids rows u =
      Apart-update (λ x y. y.id ≡ x.id) (λ r. refl) p f same_id (λ x x' y y' a b. ap₂ text_eq b a)
        rows (All-intro _ rows (λ r _. same.id_of r)) u

  update-rows :
      (v : Text) (rows : List UserRecord)
      → count (of_uid v) (update_where p f rows) ≡ count (of_uid v) rows
  update-rows v rows =
      count-update_where (of_uid v) p f rows
      ∙ count_ext (λ r. of_uid v (edited p f r)) (of_uid v) rows
          (All-intro _ rows (edited-of_uid v))

  -- An UPDATE of rows of one contract id leaves the selection of the others.
  pub update-SelectedBut :
      (uid : Text) (rows : List UserRecord)
      → All (λ r. p r ≡ true → of_uid uid r ≡ true) rows
      → SelectedBut uid rows
      → SelectedBut uid (update_where p f rows)
  update-SelectedBut uid rows own h = record {
    ids = update-ids rows h.ids;
    others = λ v other.
        Selected-counts v rows (update_where p f rows) (update-rows v rows)
          (count-update_where (active_of v) p f rows
            ∙ count_ext (λ r. active_of v (edited p f r)) (active_of v) rows
                (All-mono _ _ rows (unchanged v other) own))
          (h.others v other);
  }
    where
      unchanged :
          (v : Text)
          → text_eq uid v ≡ false
          → (r : UserRecord) → (p r ≡ true → of_uid uid r ≡ true)
          → active_of v (edited p f r) ≡ active_of v r
      unchanged v other r own = elim (Bool-cases (p r)) [
        | inl e ↦
            let lost = of_other uid v r other (own e) in
            ap (λ b. b && (edited p f r).is_active) (edited-of_uid v r ∙ lost)
            ∙ sym (ap (λ b. b && r.is_active) lost)
        | inr e ↦ rw e refl
      ]

  -- One that leaves the active flags, too, leaves every selection.
  pub update-SelectedAll :
      (rows : List UserRecord)
      → ((r : UserRecord) → (f r).is_active ≡ r.is_active)
      → SelectedAll rows
      → SelectedAll (update_where p f rows)
  update-SelectedAll rows flag h = record {
    all_ids = update-ids rows h.all_ids;
    each = λ v.
        Selected-counts v rows (update_where p f rows) (update-rows v rows)
          (count-update_where (active_of v) p f rows
            ∙ count_ext (λ r. active_of v (edited p f r)) (active_of v) rows
                (All-intro _ rows (unchanged v)))
          (h.each v);
  }
    where
      same_flag : (r : UserRecord) → (edited p f r).is_active ≡ r.is_active
      same_flag r = elim (Bool-cases (p r)) [ inl e ↦ rw e (flag r) | inr e ↦ rw e refl ]

      unchanged : (v : Text) (r : UserRecord) → active_of v (edited p f r) ≡ active_of v r
      unchanged v r = ap₂ ◌&&◌ (edited-of_uid v r) (same_flag r)

-- A DELETE of rows of one contract id.
pub delete-SelectedBut :
    (uid : Text) (p : UserRecord → Bool) (rows : List UserRecord)
    → All (λ r. p r ≡ true → of_uid uid r ≡ true) rows
    → SelectedBut uid rows
    → SelectedBut uid (delete_where p rows)
delete-SelectedBut uid p rows own h = record {
  ids = Apart-delete_where same_id p rows h.ids;
  others = λ v other.
      Selected-counts v rows (delete_where p rows)
        (count-delete_where (of_uid v) p rows
          ∙ count_ext (λ r. of_uid v r && not (p r)) (of_uid v) rows
              (All-mono _ _ rows (λ r o. stays v other r (of_uid v r) o (λ e. e)) own))
        (count-delete_where (active_of v) p rows
          ∙ count_ext (λ r. active_of v r && not (p r)) (active_of v) rows
              (All-mono _ _ rows (λ r o. stays v other r (active_of v r) o (λ e. rw e refl)) own))
        (h.others v other);
}
  where
    stays :
        (v : Text)
        → text_eq uid v ≡ false
        → (r : UserRecord) (b : Bool) → (p r ≡ true → of_uid uid r ≡ true)
        → (of_uid v r ≡ false → b ≡ false)
        → b && not (p r) ≡ b
    stays v other r b own lost = elim (Bool-cases (p r)) [
      | inl e ↦ rw (lost (of_other uid v r other (own e))) refl
      | inr e ↦ ground arith
    ]

-- After the UPDATE no row of the contract id is active.
pub deactivate-own :
    (uid : Text) (rows : List UserRecord)
    → count (active_of uid) (update_where (of_uid uid) deactivate rows) ≡ 0
unfolding of_uid
deactivate-own uid rows =
    count-update_where (active_of uid) (of_uid uid) deactivate rows
    ∙ count_none _ rows (
        All-intro _ rows
          λ r. elim (Bool-cases (of_uid uid r)) [ inl e ↦ ground arith | inr e ↦ ground arith ])

module _ (uid : Text) (e : UserRecord) (f : UserRecord → UserRecord) (same : SameRow f)
    (on : (r : UserRecord) → (f r).is_active ≡ true) where
  -- Where the other rows of the contract id are inactive, the UPDATE of one row makes that the only active one.
  pub activate-own :
      (rows : List UserRecord)
      → All (λ r. same_id e r ≡ true → of_uid uid r ≡ true) rows
      → All (λ r. same_id e r ≡ false → active_of uid r ≡ false) rows
      → count (same_id e) rows ≡ 1
      → count (active_of uid) (update_where (same_id e) f rows) ≡ 1
  activate-own rows own others single =
      count-update_where (active_of uid) (same_id e) f rows
      ∙ count_ext (λ r. active_of uid (edited (same_id e) f r)) (same_id e) rows
          (All-zip (λ r. same_id e r ≡ true → of_uid uid r ≡ true)
            (λ r. same_id e r ≡ false → active_of uid r ≡ false)
            (λ r. active_of uid (edited (same_id e) f r) ≡ same_id e r) rows
            (λ r own others. elim (Bool-cases (same_id e r)) [
              | inl hit ↦
                  ap₂ ◌&&◌ (edited-of_uid (same_id e) f same uid r ∙ own hit) (rw hit (on r))
                  ∙ sym hit
              | inr miss ↦ rw miss (others miss)
            ])
            own others)
      ∙ single

module _ (x : UserRecord) (rows : List UserRecord)
    (fresh : All (λ r. same_id x r ≡ false) rows) where
  insert-others :
      SelectedBut x.uid rows → (v : Text) → text_eq x.uid v ≡ false → Selected v (x ∷ rows)
  unfolding of_uid
  insert-others h v other = elim (h.others v other) [
    | inl none_of ↦ inl (rw other (omega (arith, none_of)))
    | inr one_of ↦ inr (rw other (omega (arith, one_of)))
  ]

  pub insert-active :
      SelectedBut x.uid rows
      → x.is_active ≡ true
      → count (active_of x.uid) rows ≡ 0
      → SelectedAll (x ∷ rows)
  insert-active h on quiet =
      but-SelectedAll x.uid (x ∷ rows) record { ids = (fresh, h.ids); others = insert-others h }
        (inr (unfold of_uid in rw (text_eq_refl x.uid, on) (omega (arith, quiet))))

  pub insert-inactive :
      SelectedAll rows
      → x.is_active ≡ false
      → count (active_of x.uid) rows ≡ 1
      → SelectedAll (x ∷ rows)
  insert-inactive h off single =
      but-SelectedAll x.uid (x ∷ rows)
        record { ids = (fresh, h.all_ids); others = insert-others (SelectedAll-but x.uid rows h) }
        (inr (unfold of_uid in rw (text_eq_refl x.uid, off) (omega (arith, single))))

  -- A new row is active if it is the first of its contract id.
  pub insert-first :
      SelectedAll rows
      → x.is_active ≡ not (is_some (find_by (of_uid x.uid) rows))
      → SelectedAll (x ∷ rows)
  insert-first h flag = elim (Option-cases (find_by (of_uid x.uid) rows)) [
    | inl none_of ↦ insert-active (SelectedAll-but x.uid rows h) (rw none_of at flag) (
        count_none (active_of x.uid) rows (
          All-mono _ _ rows (λ r miss. ap (λ b. b && r.is_active) miss)
            (find_by-none (of_uid x.uid) rows none_of)))
    | inr (r, found) ↦ insert-inactive h (rw found at flag) (single r found (h.each x.uid))
  ]
    where
      single :
          (r : UserRecord)
          → find_by (of_uid x.uid) rows ≡ some r
          → Selected x.uid rows
          → count (active_of x.uid) rows ≡ 1
      single r found (inl none_of) = absurd (count_found (of_uid x.uid) rows found none_of)
      single r found (inr one_of) = one_of

-- The UPDATE of all other rows of the contract id.
pub others-off :
    (uid : Text) (e : UserRecord) (rows : List UserRecord)
    → All
        (λ r. same_id e r ≡ false → active_of uid r ≡ false)
        (update_where (λ r. of_uid uid r && not (has_user_id e.id r)) deactivate rows)
unfolding of_uid has_user_id
others-off uid e rows =
    All-edited (λ r. same_id e r ≡ false → active_of uid r ≡ false)
      (λ r. of_uid uid r && not (has_user_id e.id r)) deactivate rows
      λ r. elim (Bool-cases (of_uid uid r)) [
        | inl own ↦ elim (Bool-cases (has_user_id e.id r)) [
          | inl hit ↦ rw (own, hit) (λ miss. absurd (cc))
          | inr miss ↦ rw (own, miss) (λ _. ground arith)
        ]
        | inr foreign ↦ rw foreign (λ _. rw foreign refl)
      ]

pub update-count_id :
    (e : UserRecord) (p : UserRecord → Bool) (f : UserRecord → UserRecord) (rows : List UserRecord)
    → SameRow f
    → count (same_id e) (update_where p f rows) ≡ count (same_id e) rows
unfolding has_user_id
update-count_id e p f rows same =
    count-update_where (same_id e) p f rows
    ∙ count_ext (λ r. same_id e (edited p f r)) (same_id e) rows
        (All-intro _ rows (λ r. ap (λ i. text_eq i e.id) (edited-id p f same r)))

-- The DELETE of a row that is not active.
pub delete-SelectedAll :
    (uid : Text) (e : UserRecord) (rows : List UserRecord)
    → All (λ r. same_id e r ≡ true → r ≡ e) rows
    → All (λ r. same_id e r ≡ true → of_uid uid r ≡ true) rows
    → e.is_active ≡ false
    → SelectedAll rows
    → SelectedAll (delete_where (same_id e) rows)
delete-SelectedAll uid e rows only own off h =
    but-SelectedAll uid (delete_where (same_id e) rows)
      (delete-SelectedBut uid (same_id e) rows own (SelectedAll-but uid rows h))
      (elim (h.each uid) [
        | inl none_of ↦ inl (
            count-delete_where (of_uid uid) (same_id e) rows
            ∙ count_none (λ r. of_uid uid r && not (same_id e r)) rows
                (All-mono _ _ rows (λ r miss. ap (λ b. b && not (same_id e r)) miss)
                  (count_zero (of_uid uid) rows none_of)))
        | inr one_of ↦ inr (
            count-delete_where (active_of uid) (same_id e) rows
            ∙ count_ext (λ r. active_of uid r && not (same_id e r)) (active_of uid) rows
                (All-mono _ _ rows inactive only)
            ∙ one_of)
      ])
  where
    inactive :
        (r : UserRecord)
        → (same_id e r ≡ true → r ≡ e)
        → active_of uid r && not (same_id e r) ≡ active_of uid r
    inactive r only = elim (Bool-cases (same_id e r)) [
      | inl hit ↦
          let quiet = subst (λ z. z.is_active ≡ false) (sym (only hit)) off in
          rw (hit, quiet) (ground arith)
      | inr miss ↦ rw miss (ground arith)
    ]
