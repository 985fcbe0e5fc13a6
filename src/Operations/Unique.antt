-- ===== src/Operations/Unique.antt =====
-- What a step of the abstract ledger keeps: keys, charging sessions and legacy keys are unique, and
-- a row that a key finds stays findable.
use ev_web3_award_system.Prelude.{
  ◌≡◌, inl, inr, true, false, List, some, find_by, Apart, Bool-cases, subst, sym, ap, ◌∙◌,
  find_by-All, ap₂, Apart-update, Found, Found-update,
}
use ev_web3_award_system.Text.{Text, text_eq}
use ev_web3_award_system.Text.Laws.{text_eq_iff}
use ev_web3_award_system.Store.{TokenOperationRecord}
use ev_web3_award_system.Operations.Rows.{has_key}
use ev_web3_award_system.Operations.Ledger.{
  identity, Allowed, Allowed-refl, shares_session, shares_legacy, same_key, Step, stay, edit, add,
}

same_key-stable :
    (x x' y y' : TokenOperationRecord) → Allowed x x' → Allowed y y' → same_key x' y' ≡ same_key x y
unfolding same_key
same_key-stable x x' y y' a b =
    ap₂ (λ i j. text_eq j.operation_key i.operation_key) a.same_identity b.same_identity

shares_session-identity :
    (x x' y y' : TokenOperationRecord)
    → identity x' ≡ identity x
    → identity y' ≡ identity y
    → shares_session x' y' ≡ shares_session x y
unfolding shares_session
shares_session-identity x x' y y' a b = cc

shares_session-stable :
    (x x' y y' : TokenOperationRecord)
    → Allowed x x'
    → Allowed y y'
    → shares_session x' y' ≡ shares_session x y
shares_session-stable x x' y y' a b =
    shares_session-identity x x' y y' a.same_identity b.same_identity

shares_legacy-identity :
    (x x' y y' : TokenOperationRecord)
    → identity x' ≡ identity x
    → identity y' ≡ identity y
    → shares_legacy x' y' ≡ shares_legacy x y
unfolding shares_legacy
shares_legacy-identity x x' y y' a b = cc

shares_legacy-stable :
    (x x' y y' : TokenOperationRecord)
    → Allowed x x'
    → Allowed y y'
    → shares_legacy x' y' ≡ shares_legacy x y
shares_legacy-stable x x' y y' a b =
    shares_legacy-identity x x' y y' a.same_identity b.same_identity

-- No two rows have one key, two awards one charging session of a provider, or two awards one legacy key.
pub record WellKeyed (rows : List TokenOperationRecord) : Type 0 where
  pub keys : Apart same_key rows
  pub sessions : Apart shares_session rows
  pub legacy_keys : Apart shares_legacy rows

pub Step-WellKeyed :
    (before after : List TokenOperationRecord)
    → Step before after
    → WellKeyed before
    → WellKeyed after
Step-WellKeyed before after (stay same) w = subst WellKeyed (sym same) w
Step-WellKeyed before after (edit p f h same) w = subst WellKeyed (sym same) (record {
  keys = Apart-update Allowed Allowed-refl p f same_key same_key-stable before h w.keys;
  sessions =
      Apart-update Allowed Allowed-refl p f shares_session shares_session-stable before h
        w.sessions;
  legacy_keys =
      Apart-update Allowed Allowed-refl p f shares_legacy shares_legacy-stable before h
        w.legacy_keys;
})
Step-WellKeyed before after (add r hashless new k s l same) w =
    subst WellKeyed (sym same)
      (record { keys = (k, w.keys); sessions = (s, w.sessions); legacy_keys = (l, w.legacy_keys) })

has_key-stable :
    (key : Text) (r s : TokenOperationRecord) → Allowed r s → has_key key s ≡ has_key key r
unfolding has_key
has_key-stable key r s a = ap (λ i. text_eq i.operation_key key) a.same_identity

-- The row that a key finds after a step: an allowed change of the one it found before.
abbrev pub Kept : Text → TokenOperationRecord → List TokenOperationRecord → Type 0
Kept key = Found Allowed Allowed-refl (has_key key)

-- A row that is added leaves the rows of the other keys, and has a key of its own.
added-misses :
    (key : Text) (r s : TokenOperationRecord)
    → same_key r s ≡ false
    → has_key key s ≡ true
    → has_key key r ≡ false
unfolding same_key has_key
added-misses key r s apart hit = elim (Bool-cases (text_eq r.operation_key key)) [
  | inl same ↦
      let r_is = (text_eq_iff r.operation_key key).0 same in
      let s_is = (text_eq_iff s.operation_key key).0 hit in
      let same_keys = (text_eq_iff s.operation_key r.operation_key).1 (s_is ∙ sym r_is) in
      absurd (cc)
  | inr other ↦ other
]

pub Step-Kept :
    (key : Text) (before after : List TokenOperationRecord) (r : TokenOperationRecord)
    → Step before after
    → find_by (has_key key) before ≡ some r
    → Kept key r after
Step-Kept key before after r (stay same) e = (r, rw same e, Allowed-refl r)
Step-Kept key before after r (edit p f h same) e =
    subst (Kept key r) (sym same)
      (Found-update Allowed Allowed-refl p f (has_key key) (has_key-stable key) before r h e)
Step-Kept key before after r (add x hashless new k s l same) e =
    let (apart, hit) = find_by-All (λ q. same_key x q ≡ false) (has_key key) before k e in
    subst (Kept key r) (sym same) (r, rw (added-misses key x r apart hit) e, Allowed-refl r)
