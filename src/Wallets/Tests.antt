-- ===== src/Wallets/Tests.antt =====
-- The wallets of one contract id.
use ev_web3_award_system.Prelude.{ℕ, ◌≡◌, refl, inl, List, [], ◌∷◌, none, arith, true}
use ev_web3_award_system.Text.{Text, codes}
use ev_web3_award_system.Store.{Database}
use ev_web3_award_system.Wallets.History.{
  Call, create_call, activate_call, link_call, unlink_call, run_all, WellSelected,
  run_all-WellSelected,
}

abbrev empty : Database
empty = record {
  token_operations = [];
  spend_reservations = [];
  awards = [];
  users = [];
  leases = [];
  approval_preparations = [];
  spends = [];
  balances = [];
  linked_wallet_links = [];
}

empty-WellSelected : WellSelected empty
empty-WellSelected = record {
  selection = record { all_ids = tt; each = λ uid. inl refl };
  linked = record { once = tt; few = λ uid. omega arith };
}

-- The managed wallet comes first, an external one is linked and selected, and then unlinked.
abbrev calls : List (ℕ × Call)
calls =
    (1, create_call (codes "u1") (codes "EMP1") (codes "0xM") none)
    ∷ (2, link_call (codes "u2") (codes "l1") (codes "EMP1") (codes "0xE") none)
    ∷ (3, activate_call (codes "u3") (codes "EMP1") (codes "0xe") none)
    ∷ (4, unlink_call (codes "u4") (codes "EMP1") (codes "0xE"))
    ∷ []

abbrev managed : Text → Text
managed uid = codes "0xm"

managed_again :
    (run_all managed calls empty).users
    ≡ record {
      id = codes "u1";
      uid = codes "EMP1";
      wallet_address = codes "0xM";
      wallet_name = none;
      is_active = true;
      created_at = 1;
      updated_at = 4;
    }
      ∷ []
unfolding run_all
managed_again = refl

run_all-WellSelected_example : WellSelected (run_all managed calls empty)
run_all-WellSelected_example = run_all-WellSelected managed calls empty empty-WellSelected
