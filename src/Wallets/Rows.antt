-- ===== src/Wallets/Rows.antt =====
-- Rows of users with different ids, and their selection: each contract id that has rows has exactly one
-- that is active.
use ev_web3_award_system.Prelude.{
  ◌≡◌, refl, sym, subst, ◌∙◌, ◌⊎◌, inl, inr, Bool, true, false, List, [], ◌∷◌, some, find_by, count,
  All, All-mono, Apart, Bool-cases, arith, find_by-All,
}
use mathlib.Core.Option.{some-injective}
use ev_web3_award_system.Text.{Text, text_eq}
use ev_web3_award_system.Text.Laws.{text_eq_iff, text_eq_sym, text_eq_refl}
use ev_web3_award_system.Store.{UserRecord}
use ev_web3_award_system.Wallets.{has_user_id, of_uid, active_of}
use ev_web3_award_system.Wallets.Counts.{count_none}

abbrev pub same_id : UserRecord → UserRecord → Bool
same_id x y = has_user_id x.id y

same_id_sym : (x y : UserRecord) → same_id x y ≡ same_id y x
unfolding has_user_id
same_id_sym x y = text_eq_sym y.id x.id

-- The row that is found is the only one with its id.
pub only_id :
    (p : UserRecord → Bool) (rows : List UserRecord) (e : UserRecord)
    → Apart same_id rows
    → find_by p rows ≡ some e
    → All (λ q. same_id e q ≡ true → q ≡ e) rows
only_id p [] e u h = cc
only_id p (x ∷ rows) e (fresh, u) h = elim (Bool-cases (p x)) [
  | inl hit ↦
      subst (λ y. (same_id y x ≡ true → x ≡ y) × All (λ q. same_id y q ≡ true → q ≡ y) rows)
        (some-injective x e (rw hit at h))
        (λ _. refl, All-mono _ _ rows (λ q apart same. absurd (clash apart same)) fresh)
  | inr miss ↦
      let (apart, _) = find_by-All (λ q. same_id x q ≡ false) p rows fresh (rw miss at h) in
      (λ same. absurd (clash (same_id_sym e x ∙ apart) same), only_id p rows e u (rw miss at h))
]
  where
    clash : {b : Bool} → b ≡ false → b ≡ true → ⊥
    clash a b = cc

pub count_id :
    (p : UserRecord → Bool) (rows : List UserRecord) (e : UserRecord)
    → Apart same_id rows
    → find_by p rows ≡ some e
    → count (same_id e) rows ≡ 1
unfolding has_user_id
count_id p [] e u h = cc
count_id p (x ∷ rows) e (fresh, u) h = elim (Bool-cases (p x)) [
  | inl hit ↦
      subst (λ y. count (same_id y) (x ∷ rows) ≡ 1) (some-injective x e (rw hit at h))
        (rw (text_eq_refl x.id) (omega (arith, count_none (same_id x) rows fresh)))
  | inr miss ↦
      let (apart, _) = find_by-All (λ q. same_id x q ≡ false) p rows fresh (rw miss at h) in
      rw (same_id_sym e x ∙ apart) (omega (arith, count_id p rows e u (rw miss at h)))
]

-- The contract id has no row, or exactly one that is active.
abbrev pub Selected : Text → List UserRecord → Type 0
Selected uid rows = (count (of_uid uid) rows ≡ 0) ⊎ (count (active_of uid) rows ≡ 1)

-- All contract ids but one have their selection.
pub record SelectedBut (uid : Text) (rows : List UserRecord) : Type 0 where
  pub ids : Apart same_id rows
  pub others : (v : Text) → text_eq uid v ≡ false → Selected v rows

pub record SelectedAll (rows : List UserRecord) : Type 0 where
  pub all_ids : Apart same_id rows
  pub each : (v : Text) → Selected v rows

pub SelectedAll-but :
    (uid : Text) (rows : List UserRecord) → SelectedAll rows → SelectedBut uid rows
SelectedAll-but uid rows h = record { ids = h.all_ids; others = λ v _. h.each v }

pub but-SelectedAll :
    (uid : Text) (rows : List UserRecord)
    → SelectedBut uid rows
    → Selected uid rows
    → SelectedAll rows
but-SelectedAll uid rows h own = record {
  all_ids = h.ids;
  each = λ v. elim (Bool-cases (text_eq uid v)) [
    | inl same ↦ subst (λ w. Selected w rows) ((text_eq_iff uid v).0 same) own
    | inr other ↦ h.others v other
  ];
}

-- Rows of the contract id are none of another one.
pub of_other :
    (uid v : Text) (r : UserRecord)
    → text_eq uid v ≡ false
    → of_uid uid r ≡ true
    → of_uid v r ≡ false
unfolding of_uid
of_other uid v r other own =
    subst (λ w. text_eq w v ≡ false) (sym ((text_eq_iff r.uid uid).0 own)) other

-- The selection of a contract id reads nothing but two counts.
pub Selected-counts :
    (v : Text) (rows rows' : List UserRecord)
    → count (of_uid v) rows' ≡ count (of_uid v) rows
    → count (active_of v) rows' ≡ count (active_of v) rows
    → Selected v rows
    → Selected v rows'
Selected-counts v rows rows' a b (inl none_of) = inl (a ∙ none_of)
Selected-counts v rows rows' a b (inr one_of) = inr (b ∙ one_of)
