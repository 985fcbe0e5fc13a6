-- ===== src/Reservations/Steps.antt =====
-- The operations of SpendReservations as steps of the table of holds.
use ev_web3_award_system.Prelude.{
  ℕ, ◌+◌, ◌≡◌, refl, inl, inr, true, false, ◌&&◌, not, Option, none, some, is_some, Result, require,
  or_fail, find_by, All, All-mono, All-intro, Apart, only_found, arith, Bool-cases, Option-cases,
  Ensures, Ensures-bind, find_by-none, or_fail-eq-ok, require-eq-ok, subst, sym, ◌==◌, ltb, length,
  ◌-◌,
}
use ev_web3_award_system.Text.{Text, same_lower}
use ev_web3_award_system.Amount.{Value, canonical_token_amount, truncate_token_amount, bind_option}
use ev_web3_award_system.Binary64.{token_number}
use ev_web3_award_system.Store.{
  Database, SpendReservationRecord, Error, unsupported_token_precision, reservation_not_found,
  settlement_context_mismatch, reservation_tx_hash_mismatch, unique_violation,
  invalid_settlement_context, reservation_intent_mismatch, spend_balance_unavailable,
  insufficient_sparkz,
}
use ev_web3_award_system.Operations.Rows.{truthy}
use ev_web3_award_system.Operations.Capacity.{reserved_total, unresolved_total}
use ev_web3_award_system.Reservations.{
  ReserveRequest, of_session, has_id, find_by_id, is_closed, set_settling, settlement_claimable,
  claim_for_settlement, optional_hash, reserve, reserve_new, reserve_found, retry_reserve,
  new_reservation, chain_balance, authorized_units,
}
use ev_web3_award_system.Reservations.Settle.{
  set_context, set_completed, same_context, has_context, persist_row, persist_settlement_context,
  delivered_parts, complete_open, complete_row, complete, open_with_id, retry, hash_agrees,
  updated_row,
}
use ev_web3_award_system.Reservations.Lifecycle.{
  Change, set_settling-Change, set_context-Change, set_completed-Change,
}
use ev_web3_award_system.Reservations.Table.{same_id, same_session, Step, stay, edit, add}

abbrev pub Stepped : Database → Database → Type 0
Stepped db db' = Step db.spend_reservations db'.spend_reservations

abbrev pub Steps {ℓ} : {A : Type ℓ} → Database → Result Error (A × Database) → Type 0
Steps db = Ensures (λ q. Stepped db q.1)

has_id-same :
    (id : ℕ) (x q : SpendReservationRecord)
    → has_id id x ≡ true
    → has_id id q ≡ true
    → same_id x q ≡ true
unfolding has_id same_id
has_id-same id x q h k = ground arith

-- An UPDATE of the row of an id, whose change is allowed for the row that was read.
updated_row-Stepped :
    (id : ℕ) (f : SpendReservationRecord → SpendReservationRecord) (r : SpendReservationRecord)
    (db : Database)
    → Apart same_id db.spend_reservations
    → find_by_id id db ≡ some r
    → Change r (f r)
    → Stepped db (updated_row id f r db).1
unfolding find_by_id
updated_row-Stepped id f r db u e change =
    edit (has_id id) f
      (All-mono _ _ db.spend_reservations
        (λ q same hit. subst (λ x. Change x (f x)) (sym (same hit)) change)
        (only_found (has_id id) same_id db.spend_reservations r (has_id-same id) u e))
      refl

persist_row-Steps :
    (now id : ℕ) (parts : Text × Text) (r : SpendReservationRecord) (db : Database)
    → Apart same_id db.spend_reservations
    → find_by_id id db ≡ some r
    → Steps db (persist_row now id parts r db)
unfolding persist_row
persist_row-Steps now id parts r db u e =
    Ensures-bind _
      (require (same_context r.settlement_context r.delivered_kwh parts)
        settlement_context_mismatch)
      _
      λ _ _. elim (Bool-cases (has_context r)) [
        | inl kept ↦ rw kept (stay refl)
        | inr fresh ↦ rw fresh (
            updated_row-Stepped id (set_context now parts) r db u e
              (set_context-Change now parts r fresh))
      ]

pub persist_settlement_context-Steps :
    (now id : ℕ) (delivered : Text) (db : Database)
    → Apart same_id db.spend_reservations
    → Steps db (persist_settlement_context now id delivered db)
unfolding persist_settlement_context
persist_settlement_context-Steps now id delivered db u =
    Ensures-bind _ (delivered_parts delivered) _ λ parts _.
      Ensures-bind _ (require (not (ltb 12 (length parts.1))) invalid_settlement_context) _ λ _ _.
        Ensures-bind _ (or_fail (find_by_id id db) (reservation_not_found id)) _
          λ r e. persist_row-Steps now id parts r db u (or_fail-eq-ok _ _ e)

complete_open-Steps :
    (now id : ℕ) (delivered : Text) (settled_amount : Value) (hash : Option Text)
    (r : SpendReservationRecord) (db : Database)
    → Apart same_id db.spend_reservations
    → find_by_id id db ≡ some r
    → is_closed r.status ≡ false
    → Steps db (complete_open now id delivered settled_amount hash r db)
unfolding complete_open
complete_open-Steps now id delivered settled_amount hash r db u e c =
    Ensures-bind _ (or_fail (canonical_token_amount settled_amount) unsupported_token_precision) _
      λ requested _. Ensures-bind _ (delivered_parts delivered) _ λ parts _.
        Ensures-bind _
          (require (same_context r.settlement_context r.delivered_kwh parts)
            settlement_context_mismatch)
          _
          λ _ _.
            updated_row-Stepped id (set_completed now parts requested.units hash) r db u e
              (set_completed-Change now parts requested.units hash r c)

complete_row-Steps :
    (now id : ℕ) (delivered : Text) (settled_amount : Value) (hash : Option Text)
    (r : SpendReservationRecord) (db : Database)
    → Apart same_id db.spend_reservations
    → find_by_id id db ≡ some r
    → Steps db (complete_row now id delivered settled_amount hash r db)
unfolding complete_row
complete_row-Steps now id delivered settled_amount hash r db u e =
    elim (Bool-cases (is_closed r.status)) [
      | inl closed ↦ rw closed (
          Ensures-bind _
            (require (hash_agrees hash (truthy r.tx_hash)) reservation_tx_hash_mismatch) _
            (λ _ _. stay refl))
      | inr open_ ↦
          rw open_ (complete_open-Steps now id delivered settled_amount hash r db u e open_)
    ]

pub complete-Steps :
    (now id : ℕ) (delivered : Text) (settled_amount : Value) (tx_hash : Option Text) (db : Database)
    → Apart same_id db.spend_reservations
    → Steps db (complete now id delivered settled_amount tx_hash db)
unfolding complete
complete-Steps now id delivered settled_amount tx_hash db u =
    Ensures-bind _ (optional_hash (truthy tx_hash)) _ λ hash _.
      Ensures-bind _ (or_fail (find_by_id id db) (reservation_not_found id)) _
        λ r e. complete_row-Steps now id delivered settled_amount hash r db u (or_fail-eq-ok _ _ e)

pub settlement_claimable-open :
    (uid session provider : Text) (r : SpendReservationRecord)
    → settlement_claimable uid session provider r ≡ true
    → is_closed r.status ≡ false
unfolding settlement_claimable
settlement_claimable-open uid session provider r h = ground arith

pub claim_for_settlement-Stepped :
    (now : ℕ) (uid session provider : Text) (db : Database)
    → Stepped db (claim_for_settlement now uid session provider db).1
unfolding claim_for_settlement
claim_for_settlement-Stepped now uid session provider db =
    edit (settlement_claimable uid session provider) (set_settling now none)
      (All-intro _ db.spend_reservations (λ r h.
        set_settling-Change now none r (settlement_claimable-open uid session provider r h)))
      refl

open_with_id-open :
    (id : ℕ) (r : SpendReservationRecord) → open_with_id id r ≡ true → is_closed r.status ≡ false
unfolding open_with_id
open_with_id-open id r h = ground arith

pub retry-Stepped : (now id : ℕ) (error : Text) (db : Database) → Stepped db (retry now id error db)
unfolding retry
retry-Stepped now id error db =
    edit (open_with_id id) (set_settling now (some error))
      (All-intro _ db.spend_reservations
        (λ r h. set_settling-Change now (some error) r (open_with_id-open id r h)))
      refl

ids_free :
    (now id : ℕ) (request : ReserveRequest) (amount : ℕ) (hash : Option Text)
    (authorized : Option ℕ) (db : Database)
    → not (is_some (find_by_id id db)) ≡ true
    → All
        (λ q. same_id (new_reservation now id request amount hash authorized) q ≡ false)
        db.spend_reservations
unfolding find_by_id same_id new_reservation has_id
ids_free now id request amount hash authorized db h =
    elim (Option-cases (find_by (has_id id) db.spend_reservations)) [
      | inl e ↦ find_by-none _ db.spend_reservations e
      | inr (r, e) ↦ absurd (ground arith)
    ]

reserve_new-Steps :
    (now id : ℕ) (request : ReserveRequest) (amount : ℕ) (authorized : Option ℕ) (db : Database)
    → find_by (of_session request.uid request.session_id request.provider_id) db.spend_reservations
      ≡ none
    → Steps db (reserve_new now id request amount authorized db)
unfolding reserve_new
reserve_new-Steps now id request amount authorized db e =
    Ensures-bind _ (chain_balance request) _ λ sampled _.
      Ensures-bind _ (or_fail (bind_option sampled truncate_token_amount) spend_balance_unavailable)
        _
        λ balance _.
          Ensures-bind _
            (require (not (ltb balance.units (amount + held)))
              (insufficient_sparkz (token_number (balance.units - held))))
            _
            λ _ _. Ensures-bind _ (optional_hash (truthy request.authorization_tx_hash)) _ λ hash _.
              Ensures-bind _ (require (not (is_some (find_by_id id db))) unique_violation) _
                λ _ free.
                  add (new_reservation now id request amount hash authorized)
                    (unfold new_reservation in refl)
                    (ids_free now id request amount hash authorized db (require-eq-ok _ _ free))
                    (unfold new_reservation same_session in find_by-none _ db.spend_reservations e)
                    refl
  where
    held : ℕ
    held = reserved_total request.wallet_address db + unresolved_total request.wallet_address db

reserve_found-Steps :
    (now id : ℕ) (request : ReserveRequest) (amount : ℕ) (authorized : Option ℕ)
    (found : Option SpendReservationRecord) (db : Database)
    → find_by (of_session request.uid request.session_id request.provider_id) db.spend_reservations
      ≡ found
    → Steps db (reserve_found now id request amount authorized found db)
unfolding retry_reserve
reserve_found-Steps now id request amount authorized none db e =
    reserve_new-Steps now id request amount authorized db e
reserve_found-Steps now id request amount authorized (some r) db e =
    Ensures-bind _
      (require (same_lower r.wallet_address request.wallet_address && r.reserved_amount == amount)
        reservation_intent_mismatch)
      _ (λ _ _. stay refl)

pub reserve-Steps :
    (now id : ℕ) (request : ReserveRequest) (db : Database) → Steps db (reserve now id request db)
unfolding reserve
reserve-Steps now id request db =
    Ensures-bind _ (or_fail (canonical_token_amount request.amount) unsupported_token_precision) _
      λ amount _.
        Ensures-bind _ (authorized_units request.authorization_amount) _
          λ authorized _. reserve_found-Steps now id request amount.units authorized _ db refl
