-- ===== src/Wallets/Frames.antt =====
-- The operations on users leave the linked wallets as they are.
use ev_web3_award_system.Prelude.{
  ℕ, ◌≡◌, refl, inl, inr, Bool, true, false, not, ◌&&◌, Option, none, find_by, is_some, Bool-cases,
  Option-cases, ok, require, Ensures, Ensures-bind, Ensures-ok, ◌∙◌,
}
use ev_web3_award_system.Text.{Text}
use ev_web3_award_system.Store.{Database, UserRecord, unique_violation}
use ev_web3_award_system.Operations.Rows.{truthy}
use ev_web3_award_system.Wallets.{
  has_user_id, of_uid, uid_wallet, update_users, new_user, insert_user, find_or_insert,
  has_activity, deactivate, ensure_managed_wallet,
}
use ev_web3_award_system.Wallets.Users.{
  set_wallet, activate_wallet, retire, replace_active, remove_user, delete_by_uid_and_wallet,
  update_wallet_address_by_id,
}

-- The linked wallets after a call are those before it.
abbrev pub Framed {ℓ} : {A : Type ℓ} → Database → A × Database → Type 0
Framed db q = q.1.linked_wallet_links ≡ db.linked_wallet_links

insert_user-Framed : (user : UserRecord) (db : Database) → Ensures (Framed db) (insert_user user db)
unfolding insert_user
insert_user-Framed user db = search (Ensures-bind)

pub find_or_insert-Framed :
    (now : ℕ) (id uid wallet : Text) (name : Option Text) (db : Database)
    → Ensures (Framed db) (find_or_insert now id uid wallet name db)
unfolding find_or_insert
find_or_insert-Framed now id uid wallet name db =
    elim (Option-cases (find_by (uid_wallet uid wallet) db.users)) [
      | inr (e, found) ↦ rw (found, Ensures) refl
      | inl none_of ↦ rw (none_of, Ensures) (insert_user-Framed _ db)
    ]

ensure_managed_wallet-Framed :
    (managed : Text → Text) (now : ℕ) (id uid : Text) (db : Database)
    → Ensures (Framed db) (ensure_managed_wallet managed now id uid db)
unfolding ensure_managed_wallet
ensure_managed_wallet-Framed managed now id uid db =
    elim (Option-cases
      (find_by (uid_wallet uid (managed uid)) (update_users (of_uid uid) deactivate db).users)) [
        | inr (e, found) ↦ rw (found, Ensures) refl
        | inl none_of ↦
            rw (none_of, Ensures)
              (insert_user-Framed (new_user now id uid (managed uid) none true)
                (update_users (of_uid uid) deactivate db))
      ]

pub activate_wallet-Framed :
    (now : ℕ) (id uid wallet : Text) (name : Option Text) (db : Database)
    → Ensures (Framed db) (activate_wallet now id uid wallet name db)
unfolding activate_wallet
activate_wallet-Framed now id uid wallet name db =
    elim (Option-cases (find_by (uid_wallet uid wallet) db.users)) [
      | inr (e, found) ↦ rw (found, Ensures) refl
      | inl none_of ↦
          rw (none_of, Ensures)
            (insert_user-Framed (new_user now id uid wallet (truthy name) true)
              (update_users (of_uid uid) deactivate db))
    ]

retire-Framed : (now : ℕ) (e : UserRecord) (db : Database) → Framed db (retire now e db)
unfolding retire
retire-Framed now e db = elim (Bool-cases (has_activity e.id db)) [
  | inr gone ↦ rw gone refl
  | inl history ↦ elim (Bool-cases e.is_active) [
    | inl on ↦ rw history (rw on refl)
    | inr off ↦ rw history (rw off refl)
  ]
]

replace_active-Framed :
    (managed : Text → Text) (now : ℕ) (id uid : Text) (was_active : Bool) (db : Database)
    → Ensures (Framed db) (replace_active managed now id uid was_active db)
replace_active-Framed managed now id uid true db =
    ensure_managed_wallet-Framed managed now id uid db
replace_active-Framed managed now id uid false db = refl

pub remove_user-Framed :
    (managed : Text → Text) (now : ℕ) (id uid : Text) (e : UserRecord) (db : Database)
    → Ensures (Framed db) (remove_user managed now id uid e db)
unfolding remove_user
remove_user-Framed managed now id uid e db =
    Ensures-bind (Framed db) (replace_active managed now id uid e.is_active (retire now e db).1) _
      λ q made.
        Ensures-ok (Framed (retire now e db).1) _
          (replace_active-Framed managed now id uid e.is_active (retire now e db).1) made
        ∙ retire-Framed now e db

pub delete_by_uid_and_wallet-Framed :
    (managed : Text → Text) (now : ℕ) (id uid wallet : Text) (db : Database)
    → Ensures (Framed db) (delete_by_uid_and_wallet managed now id uid wallet db)
unfolding delete_by_uid_and_wallet
delete_by_uid_and_wallet-Framed managed now id uid wallet db =
    elim (Option-cases (find_by (uid_wallet uid wallet) db.users)) [
      | inl none_of ↦ rw (none_of, Ensures) refl
      | inr (e, found) ↦
          rw (found, Ensures)
            (Ensures-bind (Framed db) (remove_user managed now id uid e db) (λ q. ok (q.0.0, q.1))
              λ q made. Ensures-ok (Framed db) _ (remove_user-Framed managed now id uid e db) made)
    ]

pub update_wallet_address_by_id-Framed :
    (now : ℕ) (id wallet : Text) (db : Database)
    → Ensures (Framed db) (update_wallet_address_by_id now id wallet db)
unfolding update_wallet_address_by_id
update_wallet_address_by_id-Framed now id wallet db =
    elim (Option-cases (find_by (has_user_id id) db.users)) [
      | inl none_of ↦ rw (none_of, Ensures) refl
      | inr (row, found) ↦
          let taken =
            find_by (λ (r : UserRecord). not (has_user_id id r) && uid_wallet row.uid wallet r)
              db.users in
          let after = update_users (has_user_id id) (set_wallet now wallet) db in
          rw (found, Ensures)
            (Ensures-bind (Framed db) (require (not (is_some taken)) unique_violation)
              (λ _. ok (find_by (has_user_id id) after.users, after)) (λ _ _. refl))
    ]
