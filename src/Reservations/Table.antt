-- ===== src/Reservations/Table.antt =====
-- The table of holds as a step relation: change a row in an allowed way, or add a free hold with a new
-- id for a new session. Every step keeps the table well held.
use ev_web3_award_system.Prelude.{
  ◌≡◌, inl, inr, Bool, true, false, ◌&&◌, List, [], ◌∷◌, update_where, All, Apart, Apart-update,
  Bool-cases, subst, sym, ap₂, ◌==◌,
}
use ev_web3_award_system.Text.{text_eq}
use ev_web3_award_system.Store.{SpendReservationRecord, ReservationStatus}
use ev_web3_award_system.Reservations.{of_session}
use ev_web3_award_system.Reservations.Lifecycle.{Progress-refl, Balanced, Change}

unfoldable pub same_id : SpendReservationRecord → SpendReservationRecord → Bool
same_id r q = q.id == r.id

unfoldable pub same_session : SpendReservationRecord → SpendReservationRecord → Bool
unfolding of_session
same_session r q = of_session r.uid r.session_id r.provider_id q

-- No two rows have one id, no two are for one session, and closed ones account for their hold.
pub record WellHeld (rows : List SpendReservationRecord) : Type 0 where
  pub ids : Apart same_id rows
  pub sessions : Apart same_session rows
  pub balanced : All Balanced rows

pub data Step (before after : List SpendReservationRecord) : Type 0 where
  stay : after ≡ before → Step before after
  edit :
      (p : SpendReservationRecord → Bool) (f : SpendReservationRecord → SpendReservationRecord)
      → All (λ r. p r ≡ true → Change r (f r)) before
      → after ≡ update_where p f before
      → Step before after
  add :
      (r : SpendReservationRecord)
      → r.status ≡ ReservationStatus.reserved
      → All (λ q. same_id r q ≡ false) before
      → All (λ q. same_session r q ≡ false) before
      → after ≡ r ∷ before
      → Step before after

pub Change-refl : (r : SpendReservationRecord) → Change r r
Change-refl r = (Progress-refl r, λ b. b)

same_id-stable :
    (x x' y y' : SpendReservationRecord) → Change x x' → Change y y' → same_id x' y' ≡ same_id x y
unfolding same_id
same_id-stable x x' y y' a b = ap₂ (λ i j. j.id == i.id) a.0.same_hold b.0.same_hold

same_session-stable :
    (x x' y y' : SpendReservationRecord)
    → Change x x'
    → Change y y'
    → same_session x' y' ≡ same_session x y
unfolding same_session of_session
same_session-stable x x' y y' a b =
    ap₂
      (λ i j.
        text_eq j.uid i.uid
        && text_eq j.session_id i.session_id
        && text_eq j.provider_id i.provider_id)
      a.0.same_hold b.0.same_hold

Balanced-update :
    (p : SpendReservationRecord → Bool) (f : SpendReservationRecord → SpendReservationRecord)
    (rows : List SpendReservationRecord)
    → All (λ r. p r ≡ true → Change r (f r)) rows
    → All Balanced rows
    → All Balanced (update_where p f rows)
Balanced-update p f [] h k = tt
Balanced-update p f (x ∷ rows) (hx, h) (kx, k) = elim (Bool-cases (p x)) [
  | inl e ↦ (rw e ((hx e).1 kx), Balanced-update p f rows h k)
  | inr e ↦ (rw e kx, Balanced-update p f rows h k)
]

pub Step-WellHeld :
    (before after : List SpendReservationRecord)
    → Step before after
    → WellHeld before
    → WellHeld after
Step-WellHeld before after (stay same) w = subst WellHeld (sym same) w
Step-WellHeld before after (edit p f h same) w = subst WellHeld (sym same) (record {
  ids = Apart-update Change Change-refl p f same_id same_id-stable before h w.ids;
  sessions =
      Apart-update Change Change-refl p f same_session same_session-stable before h w.sessions;
  balanced = Balanced-update p f before h w.balanced;
})
Step-WellHeld before after (add r free i s same) w = subst WellHeld (sym same) (record {
  ids = (i, w.ids);
  sessions = (s, w.sessions);
  balanced = (open_row r free, w.balanced);
})
  where
    open_row : (r : SpendReservationRecord) → r.status ≡ ReservationStatus.reserved → Balanced r
    open_row r free c = absurd (cc)
