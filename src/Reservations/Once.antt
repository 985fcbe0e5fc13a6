-- ===== src/Reservations/Once.antt =====
-- About the claim of a session for settlement.
use ev_web3_award_system.Prelude.{
  ℕ, ◌≡◌, inl, inr, true, false, ◌&&◌, List, [], ◌∷◌, none, some, find_by, update_where, All,
  All-mono, All-intro, Found-update, only_found, arith, Bool-cases, Option-cases, find_by-All,
  find_by-All-none, find_by-weaken, subst, sym, ap,
}
use ev_web3_award_system.Text.{Text, text_eq}
use ev_web3_award_system.Text.Laws.{text_eq_iff}
use ev_web3_award_system.Amount.{map_option}
use ev_web3_award_system.Store.{Database, SpendReservationRecord}
use ev_web3_award_system.Reservations.{
  of_session, is_reserved, set_settling, settlement_claimable, claim_for_settlement,
}
use ev_web3_award_system.Reservations.Lifecycle.{Change, set_settling-Change}
use ev_web3_award_system.Reservations.Table.{
  same_id, same_session, WellHeld, Change-refl, Step-WellHeld,
}
use ev_web3_award_system.Reservations.Steps.{
  claim_for_settlement-Stepped, settlement_claimable-open,
}
use ev_web3_award_system.Reservations.History.{Call, run_all, run_all-WellHeld, run_all-Found}

module _ (uid session provider : Text) where
  of_session-stable :
      (r s : SpendReservationRecord)
      → Change r s
      → of_session uid session provider s ≡ of_session uid session provider r
  unfolding of_session
  of_session-stable r s c =
      ap (λ h. text_eq h.uid uid && text_eq h.session_id session && text_eq h.provider_id provider)
        c.0.same_hold

  of_session-eq :
      (r : SpendReservationRecord)
      → of_session uid session provider r ≡ true
      → (r.uid ≡ uid) × (r.session_id ≡ session) × (r.provider_id ≡ provider)
  unfolding of_session
  of_session-eq r h = grind (arith, text_eq_iff)

  of_session-same :
      (r q : SpendReservationRecord)
      → of_session uid session provider r ≡ true
      → of_session uid session provider q ≡ true
      → same_session r q ≡ true
  unfolding same_session
  of_session-same r q h k = let (u, s, p) = of_session-eq r h in rw (u, s, p) k

  of_session-new :
      (r q : SpendReservationRecord)
      → same_id r q ≡ false
      → same_session r q ≡ false
      → of_session uid session provider q ≡ true
      → of_session uid session provider r ≡ false
  of_session-new r q i apart h = elim (Bool-cases (of_session uid session provider r)) [
    | inl hit ↦ absurd (clash (of_session-same r q hit h))
    | inr miss ↦ miss
  ]
    where
      clash : same_session r q ≡ true → ⊥
      clash same = cc

  claimable-of_session :
      (r : SpendReservationRecord)
      → settlement_claimable uid session provider r ≡ true
      → of_session uid session provider r ≡ true
  unfolding settlement_claimable
  claimable-of_session r h = ground arith

  -- After the claim, no row of the session is free.
  claimed :
      (now : ℕ) (rows : List SpendReservationRecord)
      → All
          (λ r. of_session uid session provider r ≡ true → is_reserved r.status ≡ false)
          (update_where (settlement_claimable uid session provider) (set_settling now none) rows)
  unfolding settlement_claimable set_settling
  claimed now [] = tt
  claimed now (r ∷ rows) = (ground arith, claimed now rows)

  -- The claim finds the free row of the session, and leaves a row that is not free.
  claim-Found :
      (now : ℕ) (db : Database) (r : SpendReservationRecord)
      → WellHeld db.spend_reservations
      → (claim_for_settlement now uid session provider db).0 ≡ some r
      → let rows = (claim_for_settlement now uid session provider db).1.spend_reservations in
        (s : SpendReservationRecord) × (find_by (of_session uid session provider) rows ≡ some s)
        × (is_reserved s.status ≡ false)
  unfolding claim_for_settlement
  claim-Found now db r w e =
      elim (Option-cases
        (find_by (settlement_claimable uid session provider) db.spend_reservations)) [
          | inl none_ ↦ absurd (cc)
          | inr (q, some_) ↦
              let (b, found) =
                find_by-weaken (settlement_claimable uid session provider)
                  (of_session uid session provider) db.spend_reservations claimable-of_session
                  some_ in
              let (s, found', _) =
                Found-update Change Change-refl (settlement_claimable uid session provider)
                  (set_settling now none) (of_session uid session provider) of_session-stable
                  db.spend_reservations b
                  (All-intro _ db.spend_reservations (λ x h.
                    set_settling-Change now none x
                      (settlement_claimable-open uid session provider x h)))
                  found in
              let (closed, hit) =
                find_by-All _ (of_session uid session provider) _
                  (claimed now db.spend_reservations) found' in
              (s, found', closed hit)
        ]

  unclaimable :
      (r : SpendReservationRecord)
      → is_reserved r.status ≡ false
      → settlement_claimable uid session provider r ≡ false
  unfolding settlement_claimable
  unclaimable r h = ground arith

  unclaimable_other :
      (r : SpendReservationRecord)
      → of_session uid session provider r ≡ false
      → settlement_claimable uid session provider r ≡ false
  unfolding settlement_claimable
  unclaimable_other r h = ground arith

  -- If the only row of the session is not free, there is nothing to claim.
  nothing_claimable :
      (db : Database) (s : SpendReservationRecord)
      → WellHeld db.spend_reservations
      → find_by (of_session uid session provider) db.spend_reservations ≡ some s
      → is_reserved s.status ≡ false
      → find_by (settlement_claimable uid session provider) db.spend_reservations ≡ none
  nothing_claimable db s w found h = find_by-All-none _ db.spend_reservations (
      All-mono _ _ db.spend_reservations
        (λ q same. elim (Bool-cases (of_session uid session provider q)) [
          | inl hit ↦ unclaimable q (subst (λ x. is_reserved x.status ≡ false) (sym (same hit)) h)
          | inr miss ↦ unclaimable_other q miss
        ])
        (only_found (of_session uid session provider) same_session db.spend_reservations s
          of_session-same w.sessions found))

-- Once claimForSettlement of a session has returned a reservation, from reservations that are well
-- held, then after any sequence of SpendReservations calls claimForSettlement of that session returns none.
pub settlement_claimed_once :
    (uid session provider : Text) (now later : ℕ) (calls : List (ℕ × Call)) (db : Database)
    (r : SpendReservationRecord)
    → WellHeld db.spend_reservations
    → (claim_for_settlement now uid session provider db).0 ≡ some r
    → (claim_for_settlement later uid session provider
        (run_all calls (claim_for_settlement now uid session provider db).1)).0
      ≡ none
settlement_claimed_once uid session provider now later calls db r w e =
    let db' : Database = (claim_for_settlement now uid session provider db).1 in
    let w' : WellHeld db'.spend_reservations =
      Step-WellHeld db.spend_reservations _
        (claim_for_settlement-Stepped now uid session provider db) w in
    let (s, found, taken) = claim-Found uid session provider now db r w e in
    let (t, found', change) =
      run_all-Found (of_session uid session provider) (of_session-stable uid session provider)
        (of_session-new uid session provider) calls db' s w' found in
    unfold claim_for_settlement in
    ap (map_option (set_settling later none)) (
      nothing_claimable uid session provider (run_all calls db') t (run_all-WellHeld calls db' w')
        found' (still_taken s t change taken))
  where
    still_taken :
        (s t : SpendReservationRecord)
        → Change s t
        → is_reserved s.status ≡ false
        → is_reserved t.status ≡ false
    still_taken s t c h = ground arith
