-- ===== src/Wallets/Linked.antt =====
-- The operations of LinkedWallets in src/database/service.ts.
use ev_web3_award_system.Prelude.{ℕ, Option, Result, ok, ◌>>=◌, find_by, update_where}
use ev_web3_award_system.Text.{Text}
use ev_web3_award_system.Store.{Database, LinkedWalletAddressRecord, Error}
use ev_web3_award_system.Wallets.{link_of, link_of_uid, link_of_wallet, add_linked_wallet}
use ev_web3_award_system.Wallets.Users.{unlink_linked_wallet}

unfoldable pub add :
    ℕ
    → (id uid wallet : Text) → Option Text
    → Database
    → Result Error (LinkedWalletAddressRecord × Database)
unfolding add_linked_wallet
add now id uid wallet name db = add_linked_wallet now id uid wallet name db

unfoldable pub remove :
    (Text → Text) → ℕ → (id uid wallet : Text) → Database → Result Error (ℕ × Database)
unfolding unlink_linked_wallet
remove managed now id uid wallet db = do
  result ← unlink_linked_wallet managed now id uid wallet db
  ok (result.0.removed_link, result.1)

abbrev pub set_link_name : ℕ → Option Text → LinkedWalletAddressRecord → LinkedWalletAddressRecord
set_link_name now name r = record r { wallet_name = name; updated_at = now }

unfoldable pub update_name :
    ℕ → (uid wallet : Text) → Option Text → Database → Option LinkedWalletAddressRecord × Database
unfolding link_of_uid link_of_wallet
update_name now uid wallet name db =
    let rows = update_where (link_of uid wallet) (set_link_name now name) db.linked_wallet_links in
    (find_by (link_of uid wallet) rows, record db { linked_wallet_links = rows })
