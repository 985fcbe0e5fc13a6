-- ===== src/Reservations/Reads.antt =====
-- The reads of SpendReservations.
use ev_web3_award_system.Prelude.{ℕ, Bool, ◌&&◌, Option, none, some, find_by, sum_where}
use ev_web3_award_system.Text.{Text, text_eq}
use ev_web3_award_system.Binary64.{Double, quotient}
use ev_web3_award_system.Store.{Database, SpendReservationRecord}
use ev_web3_award_system.Operations.Rows.{truthy}
use ev_web3_award_system.Operations.Capacity.{is_active, reserved_total}
use ev_web3_award_system.Reservations.{of_session, has_id}

unfoldable pub has_id_and_uid : ℕ → Text → SpendReservationRecord → Bool
unfolding has_id text_eq
has_id_and_uid id uid r = has_id id r && text_eq r.uid uid

unfoldable pub find_by_id_for_uid : ℕ → Text → Database → Option SpendReservationRecord
unfolding has_id_and_uid
find_by_id_for_uid id uid db = find_by (has_id_and_uid id uid) db.spend_reservations

unfoldable pub holds_uid : Text → SpendReservationRecord → Bool
unfolding text_eq
holds_uid uid r = text_eq r.uid uid && is_active r.status

-- Of the wallet, if one is given, and else of the uid; in hundredths of a token.
abbrev pub active_total : Text → Option Text → Database → ℕ
active_total uid none db = sum_where (holds_uid uid) (λ r. r.reserved_amount) db.spend_reservations
active_total uid (some wallet) db = reserved_total wallet db

-- `Number(row?.total || 0)`, of the text of the sum.
unfoldable pub get_active_total : Text → Option Text → Database → Double
unfolding holds_uid reserved_total quotient
get_active_total uid wallet db = quotient (active_total uid (truthy wallet) db) 100

unfoldable pub find_by_session : Text → Text → Text → Database → Option SpendReservationRecord
unfolding of_session
find_by_session uid session provider db =
    find_by (of_session uid session provider) db.spend_reservations
