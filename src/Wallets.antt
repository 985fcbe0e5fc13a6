-- ===== src/Wallets.antt =====
-- Users and LinkedWallets of src/database/service.ts: the wallets of a contract id, and which one of
-- them is active. Here stand the rows, their queries and the inserts. The id of a new row is an
-- argument, as is the address that deriveManagedWalletAddress computes for a contract id.
pub mod Users
pub mod Linked
pub mod Counts
pub mod Rows
pub mod Selection
pub mod Steps
pub mod Links
pub mod Frames
pub mod History
mod Tests
use ev_web3_award_system.Prelude.{
  ℕ, Bool, true, false, ◌&&◌, ◌||◌, not, List, [], ◌∷◌, Option, none, some, is_some, Result, ok,
  err, ◌>>=◌, ◌>>◌, require, find_by, update_where, delete_where, count, leb, if◌then◌else◌,
}
use ev_web3_award_system.Text.{Text, text_eq, same_lower}
use ev_web3_award_system.Store.{
  Database, UserRecord, LinkedWalletAddressRecord, AwardRecord, SpendRecord, BalanceRecord, Error,
  unique_violation, wallet_already_linked, too_many_linked_wallets,
}
use ev_web3_award_system.Operations.Rows.{truthy}

unfoldable pub has_user_id : Text → UserRecord → Bool
unfolding text_eq
has_user_id id r = text_eq r.id id

unfoldable pub of_uid : Text → UserRecord → Bool
unfolding text_eq
of_uid uid r = text_eq r.uid uid

unfoldable pub of_wallet : Text → UserRecord → Bool
unfolding same_lower
of_wallet wallet r = same_lower r.wallet_address wallet

abbrev pub uid_wallet : Text → Text → UserRecord → Bool
uid_wallet uid wallet r = of_uid uid r && of_wallet wallet r

abbrev pub active_of : Text → UserRecord → Bool
active_of uid r = of_uid uid r && r.is_active

abbrev pub update_users : (UserRecord → Bool) → (UserRecord → UserRecord) → Database → Database
update_users p f db = record db { users = update_where p f db.users }

abbrev pub new_user : ℕ → (id uid wallet : Text) → Option Text → Bool → UserRecord
new_user now id uid wallet name active = record {
  id = id;
  uid = uid;
  wallet_address = wallet;
  wallet_name = name;
  is_active = active;
  created_at = now;
  updated_at = now;
}

abbrev pub id_free : Text → List UserRecord → Bool
id_free id users = not (is_some (find_by (has_user_id id) users))

-- The primary key, the unique index on uid and lower(wallet_address), and that on the active uid.
unfoldable pub insert_user : UserRecord → Database → Result Error (Option UserRecord × Database)
unfolding has_user_id of_uid of_wallet
insert_user user db = do
  require (id_free user.id db.users) unique_violation
  require (not (is_some (find_by (uid_wallet user.uid user.wallet_address) db.users)))
      unique_violation
  require (not user.is_active || not (is_some (find_by (active_of user.uid) db.users)))
      unique_violation
  ok (some user, record db { users = user ∷ db.users })

-- The row of the contract id and the wallet, else a new one, active if it is the contract id's first.
unfoldable pub find_or_insert :
    ℕ
    → (id uid wallet : Text) → Option Text
    → Database
    → Result Error (Option UserRecord × Database)
unfolding insert_user
find_or_insert now id uid wallet name db = elim (find_by (uid_wallet uid wallet) db.users) [
  | some existing ↦ ok (some existing, db)
  | none ↦
      insert_user
        (new_user now id uid wallet (truthy name) (not (is_some (find_by (of_uid uid) db.users))))
        db
]

unfoldable pub has_activity : Text → Database → Bool
unfolding text_eq
has_activity user_id db =
    is_some (find_by (λ (a : AwardRecord). text_eq a.user_id user_id) db.awards)
    || is_some (find_by (λ (s : SpendRecord). text_eq s.user_id user_id) db.spends)
    || is_some (find_by (λ (b : BalanceRecord). text_eq b.user_id user_id) db.balances)

abbrev pub deactivate : UserRecord → UserRecord
deactivate r = record r { is_active = false }

abbrev pub deactivate_at : ℕ → UserRecord → UserRecord
deactivate_at now r = record r { is_active = false; updated_at = now }

abbrev pub activate_at : ℕ → UserRecord → UserRecord
activate_at now r = record r { is_active = true; updated_at = now }

-- The managed wallet becomes the only active one of the contract id.
unfoldable pub ensure_managed_wallet :
    (Text → Text) → ℕ → (id uid : Text) → Database → Result Error (Option UserRecord × Database)
unfolding insert_user
ensure_managed_wallet managed now id uid db =
    let inactive = update_users (of_uid uid) deactivate db in
    elim (find_by (uid_wallet uid (managed uid)) inactive.users) [
      | some existing ↦
          let db' = update_users (has_user_id existing.id) (activate_at now) inactive in
          ok (find_by (has_user_id existing.id) db'.users, db')
      | none ↦ insert_user (new_user now id uid (managed uid) none true) inactive
    ]

abbrev pub max_linked_wallets_per_uid : ℕ
max_linked_wallets_per_uid = 5

unfoldable pub link_of_uid : Text → LinkedWalletAddressRecord → Bool
unfolding text_eq
link_of_uid uid r = text_eq r.uid uid

unfoldable pub link_of_wallet : Text → LinkedWalletAddressRecord → Bool
unfolding same_lower
link_of_wallet wallet r = same_lower r.wallet_address wallet

abbrev pub link_of : Text → Text → LinkedWalletAddressRecord → Bool
link_of uid wallet r = link_of_uid uid r && link_of_wallet wallet r

abbrev pub new_link : ℕ → (id uid wallet : Text) → Option Text → LinkedWalletAddressRecord
new_link now id uid wallet name = record {
  id = id;
  uid = uid;
  wallet_address = wallet;
  wallet_name = name;
  created_at = now;
  updated_at = now;
}

-- The link of the contract id, else a new one, if the wallet is not linked and there is room.
unfoldable pub add_linked_wallet :
    ℕ
    → (id uid wallet : Text) → Option Text
    → Database
    → Result Error (LinkedWalletAddressRecord × Database)
unfolding link_of_uid link_of_wallet
add_linked_wallet now id uid wallet name db =
    elim (find_by (link_of uid wallet) db.linked_wallet_links) [
      | some existing ↦ ok (existing, db)
      | none ↦
          require (not (is_some (find_by (link_of_wallet wallet) db.linked_wallet_links)))
            wallet_already_linked
          >> (require
                (not
                  (leb max_linked_wallets_per_uid (count (link_of_uid uid) db.linked_wallet_links)))
                too_many_linked_wallets
              >> ok (
                new_link now id uid wallet (truthy name),
                record db {
                  linked_wallet_links =
                      new_link now id uid wallet (truthy name) ∷ db.linked_wallet_links;
                },
              ))
    ]
