-- ===== src/Reservations/Backing.antt =====
-- About the balance that backs a new hold.
use ev_web3_award_system.Prelude.{
  ℕ, ◌+◌, ◌-◌, ◌≤◌, ◌<◌, ◌≡◌, ◌⊎◌, inl, inr, Bool-cases, refl, ap, sym, subst, ltb→lt, true, false,
  ◌&&◌, not, ◌∷◌, Option, none, some, is_some, ok, require, or_fail, find_by, arith, Ensures,
  Ensures-ok, Ensures-bind, or_fail-eq-ok, require-eq-ok, ltb, ◌==◌,
}
use ev_web3_award_system.Text.{Text, same_lower}
use ev_web3_award_system.Text.Laws.{same_lower_refl}
use ev_web3_award_system.Amount.{
  Value, CanonicalTokenAmount, canonical_token_amount, truncate_token_amount, bind_option,
}
use ev_web3_award_system.Binary64.{token_number, subtract, to_fixed}
use ev_web3_award_system.Binary64.Difference.{difference_limit, to_fixed-subtract}
use ev_web3_award_system.Store.{
  Database, SpendReservationRecord, unsupported_token_precision, spend_balance_unavailable,
  insufficient_sparkz, unique_violation, reservation_intent_mismatch,
}
use ev_web3_award_system.Operations.Rows.{truthy}
use ev_web3_award_system.Operations.Capacity.{
  holds_wallet, reserved_total, unresolved_total, held_total,
}
use ev_web3_award_system.Reservations.{
  ReserveRequest, ReserveResult, of_session, find_by_id, chain_balance, authorized_units,
  optional_hash, new_reservation, reserve_new, retry_reserve, reserve_found, reserve,
}

-- What is held and what is left make up the balance that the chain reported, rounded down to
-- hundredths of a token. The caller gets the difference of two numbers for what is left.
pub record Backed (request : ReserveRequest) (result : ReserveResult) (db : Database) : Type 0 where
  pub sampled : Option Value
  pub balance : CanonicalTokenAmount
  pub was_sampled : chain_balance request ≡ ok sampled
  pub was_read : bind_option sampled truncate_token_amount ≡ some balance
  pub left : ℕ
  pub adds_up : held_total request.wallet_address db + left ≡ balance.units
  pub reported :
      result.available_balance
      ≡ subtract
          (token_number (left + result.reservation.reserved_amount))
          (token_number result.reservation.reserved_amount)
  pub two_decimals : (difference_limit ≤ balance.units) ⊎ (to_fixed result.available_balance ≡ left)

abbrev NewBacked : ReserveRequest → ReserveResult × Database → Type 0
NewBacked request q = q.0.existing ≡ false → Backed request q.0 q.1

new-holds :
    (now id : ℕ) (request : ReserveRequest) (amount : ℕ) (hash : Option Text)
    (authorized : Option ℕ)
    → holds_wallet request.wallet_address (new_reservation now id request amount hash authorized)
      ≡ true
unfolding holds_wallet new_reservation
new-holds now id request amount hash authorized = rw (same_lower_refl request.wallet_address) refl

held_after :
    (now id : ℕ) (request : ReserveRequest) (amount : ℕ) (hash : Option Text)
    (authorized : Option ℕ) (db : Database)
    → let reservation = new_reservation now id request amount hash authorized in
      held_total request.wallet_address
        (record db { spend_reservations = reservation ∷ db.spend_reservations })
      ≡ amount + held_total request.wallet_address db
unfolding held_total reserved_total unresolved_total
held_after now id request amount hash authorized db =
    rw (new-holds now id request amount hash authorized) (unfold new_reservation in omega arith)

reserve_new-Backed :
    (now id : ℕ) (request : ReserveRequest) (amount : ℕ) (authorized : Option ℕ) (db : Database)
    → Ensures (NewBacked request) (reserve_new now id request amount authorized db)
unfolding reserve_new held_total
reserve_new-Backed now id request amount authorized db =
    Ensures-bind _ (chain_balance request) _ λ sampled s.
      Ensures-bind _ (or_fail (bind_option sampled truncate_token_amount) spend_balance_unavailable)
        _
        λ balance b.
          Ensures-bind _
            (require (not (ltb balance.units (amount + held)))
              (insufficient_sparkz (token_number (balance.units - held))))
            _
            λ _ enough.
              Ensures-bind _ (optional_hash (truthy request.authorization_tx_hash)) _ λ hash _.
                Ensures-bind _ (require (not (is_some (find_by_id id db))) unique_violation) _
                  λ _ _ _. record {
                    sampled = sampled;
                    balance = balance;
                    was_sampled = s;
                    was_read = or_fail-eq-ok _ _ b;
                    left = balance.units - held - amount;
                    adds_up = sum hash balance.units (require-eq-ok _ _ enough);
                    reported = shown hash balance.units (require-eq-ok _ _ enough);
                    two_decimals = decimals balance.units (require-eq-ok _ _ enough);
                  }
  where
    held : ℕ
    held = reserved_total request.wallet_address db + unresolved_total request.wallet_address db

    sum :
        (hash : Option Text) (balance : ℕ)
        → not (ltb balance (amount + held)) ≡ true
        → held_total request.wallet_address (record db {
          spend_reservations =
              new_reservation now id request amount hash authorized ∷ db.spend_reservations;
        })
            + (balance - held - amount)
          ≡ balance
    sum hash balance enough =
        rw (held_after now id request amount hash authorized db) (ground arith)

    shown :
        (hash : Option Text) (balance : ℕ)
        → not (ltb balance (amount + held)) ≡ true
        → let r = new_reservation now id request amount hash authorized in
          subtract (token_number (balance - held)) (token_number amount)
          ≡ subtract
              (token_number (balance - held - amount + r.reserved_amount))
              (token_number r.reserved_amount)
    shown hash balance enough =
        unfold new_reservation in
        let same : balance - held ≡ balance - held - amount + amount = ground arith in
        ap (λ (n : ℕ). subtract (token_number n) (token_number amount)) same

    exactly :
        (balance : ℕ)
        → not (ltb balance (amount + held)) ≡ true
        → balance < difference_limit
        → to_fixed (subtract (token_number (balance - held)) (token_number amount))
          ≡ balance - held - amount
    exactly balance enough small =
        let same : balance - held ≡ amount + (balance - held - amount) = ground arith in
        let bound : amount + (balance - held - amount) < difference_limit = ground arith in
        subst
          (λ (n : ℕ).
            to_fixed (subtract (token_number n) (token_number amount)) ≡ balance - held - amount)
          (sym same) (to_fixed-subtract amount (balance - held - amount) bound)

    decimals :
        (balance : ℕ)
        → not (ltb balance (amount + held)) ≡ true
        → (difference_limit ≤ balance)
          ⊎ (to_fixed (subtract (token_number (balance - held)) (token_number amount))
              ≡ balance - held - amount)
    decimals balance enough = elim (Bool-cases (ltb balance difference_limit)) [
      | inl small ↦ inr (exactly balance enough (ltb→lt balance difference_limit small))
      | inr large ↦ inl (ground arith)
    ]

not_new : true ≡ false → ⊥
not_new h = cc

-- After a reservation that is new, the wallet's active holds and its unsettled manual spends fit in the chain balance,
-- rounded down to hundredths of a token, that the sampler (or without a sampler the caller) reported. The available
-- balance that it reports is a difference of JavaScript numbers, of what was left before and of the new hold; to two
-- decimals it is what is left, unless the chain balance reaches 2 ^ 43 tokens.
pub reserve-Backed :
    (now id : ℕ) (request : ReserveRequest) (db : Database) (result : ReserveResult)
    (db' : Database)
    → reserve now id request db ≡ ok (result, db')
    → result.existing ≡ false
    → Backed request result db'
unfolding reserve retry_reserve
reserve-Backed now id request db result db' e new =
    Ensures-ok (NewBacked request) _
      (Ensures-bind _ (or_fail (canonical_token_amount request.amount) unsupported_token_precision)
        _
        (λ amount _.
          Ensures-bind _ (authorized_units request.authorization_amount) _ (λ authorized _.
            found amount.units authorized (
              find_by (of_session request.uid request.session_id request.provider_id)
                db.spend_reservations))))
      e new
  where
    found :
        (amount : ℕ) (authorized : Option ℕ) (r : Option SpendReservationRecord)
        → Ensures (NewBacked request) (reserve_found now id request amount authorized r db)
    found amount authorized none = reserve_new-Backed now id request amount authorized db
    found amount authorized (some r) =
        Ensures-bind _
          (require
            (same_lower r.wallet_address request.wallet_address && r.reserved_amount == amount)
            reservation_intent_mismatch)
          _ (λ _ _ old. absurd (not_new old))
