-- ===== src/Reservations/Lifecycle.antt =====
-- What every operation on a reservation respects, and what follows for any sequence of them.
use ev_web3_award_system.Prelude.{ℕ, ◌+◌, ◌<◌, ◌≡◌, ap, ◌⊎◌, true, false, Option, none, some, arith}
use ev_web3_award_system.Text.{Text}
use ev_web3_award_system.Settlement.{split_units, split_units-exact, split_units-sum}
use ev_web3_award_system.Binary64.Rounding.{exact_limit}
use ev_web3_award_system.Store.{SpendReservationRecord, ReservationStatus}
use ev_web3_award_system.Reservations.{is_closed, is_reserved, set_settling}
use ev_web3_award_system.Reservations.Settle.{set_context, set_completed, has_context}

-- What a reservation is for.
pub record Hold : Type 0 where
  pub id : ℕ
  pub uid : Text
  pub wallet_address : Text
  pub session_id : Text
  pub provider_id : Text
  pub reserved_amount : ℕ
  pub authorization_tx_hash : Option Text
  pub authorization_amount : Option ℕ
  pub reserved_at : ℕ

abbrev pub hold : SpendReservationRecord → Hold
hold r = record {
  id = r.id;
  uid = r.uid;
  wallet_address = r.wallet_address;
  session_id = r.session_id;
  provider_id = r.provider_id;
  reserved_amount = r.reserved_amount;
  authorization_tx_hash = r.authorization_tx_hash;
  authorization_amount = r.authorization_amount;
  reserved_at = r.reserved_at;
}

-- How a reservation was closed.
pub record Outcome : Type 0 where
  pub status : ReservationStatus
  pub settled_amount : Option ℕ
  pub released_amount : Option ℕ
  pub tx_hash : Option Text
  pub settled_at : Option ℕ

abbrev pub outcome : SpendReservationRecord → Outcome
outcome r = record {
  status = r.status;
  settled_amount = r.settled_amount;
  released_amount = r.released_amount;
  tx_hash = r.tx_hash;
  settled_at = r.settled_at;
}

-- A row may become another: the hold stays, a closed row keeps its outcome, a row that was claimed
-- for settlement is never free again, and a settlement context is written once.
pub record Progress (r s : SpendReservationRecord) : Type 0 where
  pub same_hold : hold s ≡ hold r
  pub closed_final : is_closed r.status ≡ true → outcome s ≡ outcome r
  pub never_free_again : is_reserved s.status ≡ true → is_reserved r.status ≡ true
  pub context_kept : (r.settlement_context ≡ none) ⊎ (s.settlement_context ≡ r.settlement_context)

pub Progress-refl : (r : SpendReservationRecord) → Progress r r
Progress-refl r = ground arith

pub Progress-trans : (r s t : SpendReservationRecord) → Progress r s → Progress s t → Progress r t
Progress-trans r s t a b = ground arith

-- A closed row accounts for the whole hold, if that is less than 2 ^ 46 tokens.
abbrev pub Balanced : SpendReservationRecord → Type 0
Balanced r =
    is_closed r.status ≡ true
    → r.reserved_amount < exact_limit
    → (settled : ℕ) × (released : ℕ) × (r.settled_amount ≡ some settled)
      × (r.released_amount ≡ some released)
      × (settled + released ≡ r.reserved_amount)

-- A change that is allowed and keeps closed rows balanced.
abbrev pub Change : SpendReservationRecord → SpendReservationRecord → Type 0
Change r s = Progress r s × (Balanced r → Balanced s)

pub set_settling-Change :
    (now : ℕ) (error : Option Text) (r : SpendReservationRecord)
    → is_closed r.status ≡ false
    → Change r (set_settling now error r)
unfolding set_settling
set_settling-Change now error r h = (ground arith, λ _ c. absurd (cc))

pub set_context-Change :
    (now : ℕ) (parts : Text × Text) (r : SpendReservationRecord)
    → has_context r ≡ false
    → Change r (set_context now parts r)
unfolding set_context
set_context-Change now parts r h = (ground arith, λ b. b)

set_completed-Progress :
    (now : ℕ) (parts : Text × Text) (requested : ℕ) (hash : Option Text)
    (r : SpendReservationRecord)
    → is_closed r.status ≡ false
    → Progress r (set_completed now parts requested hash r)
unfolding set_completed
set_completed-Progress now parts requested hash r h = ground arith

set_completed-Balanced :
    (now : ℕ) (parts : Text × Text) (requested : ℕ) (hash : Option Text)
    (r : SpendReservationRecord)
    → Balanced (set_completed now parts requested hash r)
unfolding set_completed
set_completed-Balanced now parts requested hash r c h =
    let (settled, released) = split_units-exact r.reserved_amount requested h in
    (
      (split_units r.reserved_amount requested).settled_units,
      (split_units r.reserved_amount requested).released_units,
      ap some settled,
      ap some released,
      (split_units-sum r.reserved_amount requested).0,
    )

pub set_completed-Change :
    (now : ℕ) (parts : Text × Text) (requested : ℕ) (hash : Option Text)
    (r : SpendReservationRecord)
    → is_closed r.status ≡ false
    → Change r (set_completed now parts requested hash r)
set_completed-Change now parts requested hash r h = (
  set_completed-Progress now parts requested hash r h,
  λ _. set_completed-Balanced now parts requested hash r,
)
