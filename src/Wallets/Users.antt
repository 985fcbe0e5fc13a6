-- ===== src/Wallets/Users.antt =====
-- The operations of Users in src/database/service.ts. The advisory lock of the contract id makes each
-- one atomic step. updateWalletAddress finds the active row and then writes to it by its id, without
-- that lock; where another call comes between, its write is one of updateWalletAddressById.
use ev_web3_award_system.Prelude.{
  ℕ, Bool, true, false, ◌&&◌, not, Option, none, some, is_some, Result, ok, ◌>>=◌, ◌>>◌, require,
  or_fail, find_by, delete_where, count, ◌==◌, if◌then◌else◌,
}
use ev_web3_award_system.Text.{Text, same_lower}
use ev_web3_award_system.Store.{
  Database, UserRecord, Error, unique_violation, contract_id_not_found,
}
use ev_web3_award_system.Operations.Rows.{truthy}
use ev_web3_award_system.Wallets.{
  has_user_id, of_uid, of_wallet, uid_wallet, active_of, update_users, new_user, insert_user,
  find_or_insert, has_activity, deactivate, deactivate_at, ensure_managed_wallet, link_of,
  link_of_uid, link_of_wallet, add_linked_wallet,
}

-- The active wallet, which findByUid returns.
unfoldable pub find_by_uid : Text → Database → Option UserRecord
unfolding of_uid
find_by_uid uid db = find_by (active_of uid) db.users

unfoldable pub create :
    ℕ
    → (id uid wallet : Text) → Option Text
    → Database
    → Result Error (Option UserRecord × Database)
unfolding find_or_insert
create now id uid wallet name db = find_or_insert now id uid wallet name db

abbrev pub set_wallet : ℕ → Text → UserRecord → UserRecord
set_wallet now wallet r = record r { wallet_address = wallet; updated_at = now }

-- UPDATE of one row's address, under the unique index on uid and lower(wallet_address).
unfoldable pub update_wallet_address_by_id :
    ℕ → (id wallet : Text) → Database → Result Error (Option UserRecord × Database)
unfolding has_user_id of_uid of_wallet
update_wallet_address_by_id now id wallet db = elim (find_by (has_user_id id) db.users) [
  | none ↦ ok (none, db)
  | some row ↦
      require
        (not
          (is_some (find_by (λ r. not (has_user_id id r) && uid_wallet row.uid wallet r) db.users)))
        unique_violation
      >> (let db' = update_users (has_user_id id) (set_wallet now wallet) db in
          ok (find_by (has_user_id id) db'.users, db'))
]

unfoldable pub update_wallet_address :
    ℕ → (uid wallet : Text) → Database → Result Error (Option UserRecord × Database)
unfolding find_by_uid update_wallet_address_by_id
update_wallet_address now uid wallet db = do
  existing ← or_fail (find_by_uid uid db) contract_id_not_found
  update_wallet_address_by_id now existing.id wallet db

abbrev pub set_name : ℕ → Option Text → UserRecord → UserRecord
set_name now name r = record r { wallet_name = name; updated_at = now }

-- The rows that it returns are those of the wallet after it.
unfoldable pub update_wallet_name_by_address : ℕ → Text → Option Text → Database → Database
unfolding of_wallet
update_wallet_name_by_address now wallet name db =
    update_users (of_wallet wallet) (set_name now name) db

unfoldable pub link_linked_wallet :
    ℕ
    → (id link_id uid wallet : Text) → Option Text
    → Database
    → Result Error (Option UserRecord × Database)
unfolding add_linked_wallet find_or_insert
link_linked_wallet now id link_id uid wallet name db = do
  linked ← add_linked_wallet now link_id uid wallet name db
  find_or_insert now id uid wallet name linked.1

abbrev pub select : UserRecord → UserRecord
select r = record r { is_active = true }

unfoldable pub activate_wallet :
    ℕ
    → (id uid wallet : Text) → Option Text
    → Database
    → Result Error (Option UserRecord × Database)
unfolding has_user_id of_uid of_wallet insert_user
activate_wallet now id uid wallet name db = elim (find_by (uid_wallet uid wallet) db.users) [
  | some existing ↦
      let others =
        update_users (λ r. of_uid uid r && not (has_user_id existing.id r)) deactivate db in
      let db' = update_users (has_user_id existing.id) select others in
      ok (find_by (has_user_id existing.id) db'.users, db')
  | none ↦
      insert_user (new_user now id uid wallet (truthy name) true)
        (update_users (of_uid uid) deactivate db)
]

-- A row with history is only made inactive, another one is deleted.
unfoldable pub retire : ℕ → UserRecord → Database → ℕ × Database
unfolding has_activity has_user_id
retire now existing db =
    if has_activity existing.id db
    then (
      0,
      if existing.is_active
          then update_users (has_user_id existing.id) (deactivate_at now) db
          else db,
    )
    else (
      count (has_user_id existing.id) db.users,
      record db { users = delete_where (has_user_id existing.id) db.users },
    )

-- The managed wallet takes the place of an active one that went; returned is the active wallet.
abbrev pub replace_active :
    (Text → Text)
    → ℕ
    → (id uid : Text) → (was_active : Bool) → Database
    → Result Error (Option UserRecord × Database)
replace_active managed now id uid true db = ensure_managed_wallet managed now id uid db
replace_active managed now id uid false db = ok (find_by (active_of uid) db.users, db)

-- Both, with the number of rows that were deleted.
unfoldable pub remove_user :
    (Text → Text)
    → ℕ
    → (id uid : Text) → UserRecord
    → Database
    → Result Error ((ℕ × Option UserRecord) × Database)
unfolding of_uid retire ensure_managed_wallet
remove_user managed now id uid existing db = do
  replaced ← replace_active managed now id uid existing.is_active (retire now existing db).1
  ok (((retire now existing db).0, replaced.0), replaced.1)

unfoldable pub delete_by_uid_and_wallet :
    (Text → Text) → ℕ → (id uid wallet : Text) → Database → Result Error (ℕ × Database)
unfolding of_uid of_wallet remove_user
delete_by_uid_and_wallet managed now id uid wallet db =
    elim (find_by (uid_wallet uid wallet) db.users) [
      | none ↦ ok (0, db)
      | some existing ↦ remove_user managed now id uid existing db >>= λ q. ok (q.0.0, q.1)
    ]

pub record Unlinked : Type 0 where
  pub removed_link : ℕ
  pub deleted_user : ℕ
  pub active_wallet : Option UserRecord

abbrev pub kept : ℕ → Text → Database → Result Error (Unlinked × Database)
kept removed uid db = ok (
  record {
    removed_link = removed;
    deleted_user = 0;
    active_wallet = find_by (active_of uid) db.users;
  },
  db,
)

unfoldable pub unlink_user :
    (Text → Text)
    → ℕ
    → (id uid : Text) → ℕ
    → UserRecord
    → Database
    → Result Error (Unlinked × Database)
unfolding remove_user
unlink_user managed now id uid removed existing db = do
  result ← remove_user managed now id uid existing db
  ok (
    record { removed_link = removed; deleted_user = result.0.0; active_wallet = result.0.1 },
    result.1,
  )

-- An active wallet that is not the managed one.
abbrev pub needs_repair : (Text → Text) → Text → UserRecord → Bool
needs_repair managed uid r = r.is_active && not (same_lower r.wallet_address (managed uid))

unfoldable pub unlink_linked_wallet :
    (Text → Text) → ℕ → (id uid wallet : Text) → Database → Result Error (Unlinked × Database)
unfolding of_uid of_wallet unlink_user link_of_uid link_of_wallet same_lower
unlink_linked_wallet managed now id uid wallet db =
    let removed = count (link_of uid wallet) db.linked_wallet_links in
    let db' = record db {
      linked_wallet_links = delete_where (link_of uid wallet) db.linked_wallet_links;
    } in
    elim (find_by (uid_wallet uid wallet) db.users) [
      | none ↦ kept removed uid db'
      | some existing ↦
          if removed == 0 && not (needs_repair managed uid existing)
          then kept 0 uid db'
          else unlink_user managed now id uid removed existing db'
    ]
