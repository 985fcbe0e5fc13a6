-- ===== src/Reservations/History.antt =====
-- Any sequence of calls of SpendReservations, each one transaction.
use ev_web3_award_system.Prelude.{
  ℕ, ◌≡◌, refl, Bool, true, false, List, [], ◌∷◌, Option, some, Result, ok, err, find_by, Found,
  Found-update, arith, find_by-All, subst, sym, ap, ◌==◌,
}
use ev_web3_award_system.Text.{Text}
use ev_web3_award_system.Amount.{Value}
use ev_web3_award_system.Store.{Database, SpendReservationRecord, Error}
use ev_web3_award_system.Operations.History.{commit}
use ev_web3_award_system.Reservations.{
  ReserveRequest, has_id, find_by_id, claim_for_settlement, reserve,
}
use ev_web3_award_system.Reservations.Settle.{persist_settlement_context, complete, retry}
use ev_web3_award_system.Reservations.Lifecycle.{Progress, Progress-trans, Change}
use ev_web3_award_system.Reservations.Table.{
  same_id, same_session, WellHeld, Step, stay, edit, add, Change-refl, Step-WellHeld,
}
use ev_web3_award_system.Reservations.Steps.{
  Stepped, Steps, reserve-Steps, claim_for_settlement-Stepped, persist_settlement_context-Steps,
  complete-Steps, retry-Stepped,
}

pub data Call : Type 0 where
  reserve_call : (id : ℕ) → ReserveRequest → Call
  settlement_call : (uid session provider : Text) → Call
  context_call : (id : ℕ) (delivered : Text) → Call
  complete_call : (id : ℕ) (delivered : Text) → Value → Option Text → Call
  retry_call : (id : ℕ) (error : Text) → Call

unfoldable pub run : ℕ → Call → Database → Database
unfolding reserve claim_for_settlement persist_settlement_context complete retry
run now (reserve_call id request) db = commit db (reserve now id request db)
run now (settlement_call uid session provider) db =
    (claim_for_settlement now uid session provider db).1
run now (context_call id delivered) db = commit db (persist_settlement_context now id delivered db)
run now (complete_call id delivered settled_amount tx_hash) db =
    commit db (complete now id delivered settled_amount tx_hash db)
run now (retry_call id error) db = retry now id error db

unfoldable pub run_all : List (ℕ × Call) → Database → Database
unfolding run
run_all [] db = db
run_all ((now, call) ∷ calls) db = run_all calls (run now call db)

commit-Stepped {ℓ} :
    {A : Type ℓ} (db : Database) (r : Result Error (A × Database))
    → Steps db r
    → Stepped db (commit db r)
commit-Stepped db (ok (a, db')) s = s
commit-Stepped db (err e) s = stay refl

run-Stepped :
    (now : ℕ) (call : Call) (db : Database)
    → WellHeld db.spend_reservations
    → Stepped db (run now call db)
unfolding run
run-Stepped now (reserve_call id request) db w =
    commit-Stepped db _ (reserve-Steps now id request db)
run-Stepped now (settlement_call uid session provider) db w =
    claim_for_settlement-Stepped now uid session provider db
run-Stepped now (context_call id delivered) db w =
    commit-Stepped db _ (persist_settlement_context-Steps now id delivered db w.ids)
run-Stepped now (complete_call id delivered settled_amount tx_hash) db w =
    commit-Stepped db _ (complete-Steps now id delivered settled_amount tx_hash db w.ids)
run-Stepped now (retry_call id error) db w = retry-Stepped now id error db

-- After any sequence of SpendReservations calls, from reservations that are well held, no two reservations have one id,
-- no two are for one uid, session and provider, and in each of less than 2 ^ 46 tokens that is settled or released, the
-- settled and the released amount add up to the reserved one.
pub run_all-WellHeld :
    (calls : List (ℕ × Call)) (db : Database)
    → WellHeld db.spend_reservations
    → WellHeld (run_all calls db).spend_reservations
unfolding run_all
run_all-WellHeld [] db w = w
run_all-WellHeld ((now, call) ∷ calls) db w =
    run_all-WellHeld calls (run now call db)
      (Step-WellHeld db.spend_reservations _ (run-Stepped now call db w) w)

Change-trans : (r s t : SpendReservationRecord) → Change r s → Change s t → Change r t
Change-trans r s t a b = (Progress-trans r s t a.0 b.0, λ x. b.1 (a.1 x))

-- A lookup by what is fixed in a row and new in each added one.
module _ (hit : SpendReservationRecord → Bool)
    (stable : (r s : SpendReservationRecord) → Change r s → hit s ≡ hit r)
    (new : (r q : SpendReservationRecord)
      → same_id r q ≡ false
      → same_session r q ≡ false
      → hit q ≡ true
      → hit r ≡ false) where
  Step-Found :
      (before after : List SpendReservationRecord) (r : SpendReservationRecord)
      → Step before after
      → find_by hit before ≡ some r
      → Found Change Change-refl hit r after
  Step-Found before after r (stay same) e = (r, rw same e, Change-refl r)
  Step-Found before after r (edit p f h same) e =
      subst (Found Change Change-refl hit r) (sym same)
        (Found-update Change Change-refl p f hit stable before r h e)
  Step-Found before after r (add x free i s same) e =
      let (i', found) = find_by-All (λ q. same_id x q ≡ false) hit before i e in
      let (s', _) = find_by-All (λ q. same_session x q ≡ false) hit before s e in
      subst (Found Change Change-refl hit r) (sym same)
        (r, rw (new x r i' s' found) e, Change-refl r)

  pub run_all-Found :
      (calls : List (ℕ × Call)) (db : Database) (r : SpendReservationRecord)
      → WellHeld db.spend_reservations
      → find_by hit db.spend_reservations ≡ some r
      → Found Change Change-refl hit r (run_all calls db).spend_reservations
  unfolding run_all
  run_all-Found [] db r w e = (r, e, Change-refl r)
  run_all-Found ((now, call) ∷ calls) db r w e =
      let step = run-Stepped now call db w in
      let (s, found, first) = Step-Found db.spend_reservations _ r step e in
      let (t, found', rest) =
        run_all-Found calls (run now call db) s (Step-WellHeld db.spend_reservations _ step w)
          found in
      (t, found', Change-trans r s t first rest)

has_id-stable : (id : ℕ) (r s : SpendReservationRecord) → Change r s → has_id id s ≡ has_id id r
unfolding has_id
has_id-stable id r s c = ap (λ h. h.id == id) c.0.same_hold

has_id-new :
    (id : ℕ) (r q : SpendReservationRecord)
    → same_id r q ≡ false
    → same_session r q ≡ false
    → has_id id q ≡ true
    → has_id id r ≡ false
unfolding has_id same_id
has_id-new id r q i s h = ground arith

-- After any sequence of SpendReservations calls, a reservation of well held rows is still there under its id: what it
-- holds is unchanged; if it was closed, its status, settled and released amounts, hash and time of
-- settlement are unchanged; if it was claimed for settlement, it is not free again; and a settlement
-- context that it had is unchanged.
pub run_all-Progress :
    (calls : List (ℕ × Call)) (db : Database) (id : ℕ) (r : SpendReservationRecord)
    → WellHeld db.spend_reservations
    → find_by_id id db ≡ some r
    → (s : SpendReservationRecord) × (find_by_id id (run_all calls db) ≡ some s) × Progress r s
unfolding find_by_id
run_all-Progress calls db id r w e =
    let (s, found, change) =
      run_all-Found (has_id id) (has_id-stable id) (has_id-new id) calls db r w e in
    (s, found, change.0)
