-- ===== src/Wallets/Steps.antt =====
-- What the operations of Users in src/database/service.ts do to the selection of wallets.
use ev_web3_award_system.Prelude.{
  ℕ, ◌≡◌, refl, sym, subst, ◌∙◌, inl, inr, Bool, true, false, ◌&&◌, ◌||◌, not, List, ◌∷◌, Option,
  none, some, find_by, update_where, delete_where, count, All, All-mono, All-intro, Apart,
  Bool-cases, Option-cases, arith, find_by-none, find_by-true, All-update_where, is_some, and_true,
  ok, require, Ensures, Ensures-bind, Ensures-ok, require-eq-ok, ◌==◌,
}
use ev_web3_award_system.Text.{Text}
use ev_web3_award_system.Store.{Database, UserRecord, unique_violation}
use ev_web3_award_system.Operations.Rows.{truthy}
use ev_web3_award_system.Wallets.{
  has_user_id, of_uid, of_wallet, uid_wallet, active_of, update_users, new_user, id_free,
  insert_user, find_or_insert, has_activity, deactivate, deactivate_at, activate_at,
  ensure_managed_wallet, link_of,
}
use ev_web3_award_system.Wallets.Users.{
  set_wallet, update_wallet_address_by_id, set_name, select, activate_wallet, retire,
  replace_active, remove_user, delete_by_uid_and_wallet, unlink_user, needs_repair,
  unlink_linked_wallet,
}
use ev_web3_award_system.Wallets.Counts.{count_zero}
use ev_web3_award_system.Wallets.Rows.{
  same_id, only_id, count_id, SelectedBut, SelectedAll, SelectedAll-but, but-SelectedAll,
}
use ev_web3_award_system.Wallets.Selection.{
  SameRow, update-SelectedBut, update-SelectedAll, delete-SelectedBut, deactivate-own, activate-own,
  insert-active, insert-first, others-off, update-count_id, delete-SelectedAll,
}

deactivate-SameRow : SameRow deactivate
deactivate-SameRow = record { id_of = λ r. refl; uid_of = λ r. refl }

deactivate_at-SameRow : (now : ℕ) → SameRow (deactivate_at now)
deactivate_at-SameRow now = record { id_of = λ r. refl; uid_of = λ r. refl }

activate_at-SameRow : (now : ℕ) → SameRow (activate_at now)
activate_at-SameRow now = record { id_of = λ r. refl; uid_of = λ r. refl }

select-SameRow : SameRow select
select-SameRow = record { id_of = λ r. refl; uid_of = λ r. refl }

pub set_wallet-SameRow : (now : ℕ) (wallet : Text) → SameRow (set_wallet now wallet)
set_wallet-SameRow now wallet = record { id_of = λ r. refl; uid_of = λ r. refl }

pub set_name-SameRow : (now : ℕ) (name : Option Text) → SameRow (set_name now name)
set_name-SameRow now name = record { id_of = λ r. refl; uid_of = λ r. refl }

-- The row of a contract id's wallet is one of the contract id.
found-own :
    (uid wallet : Text) (rows : List UserRecord) (e : UserRecord)
    → Apart same_id rows
    → find_by (uid_wallet uid wallet) rows ≡ some e
    → All (λ r. same_id e r ≡ true → of_uid uid r ≡ true) rows
found-own uid wallet rows e u found =
    let (own, _) =
      and_true (of_uid uid e) (of_wallet wallet e)
        (find_by-true (uid_wallet uid wallet) rows found) in
    All-mono _ _ rows (λ r only hit. subst (λ z. of_uid uid z ≡ true) (sym (only hit)) own)
      (only_id (uid_wallet uid wallet) rows e u found)

pub insert_user-Selected :
    (user : UserRecord) (db : Database)
    → (All (λ r. same_id user r ≡ false) db.users → SelectedAll (user ∷ db.users))
    → Ensures (λ q. SelectedAll q.1.users) (insert_user user db)
unfolding insert_user
insert_user-Selected user db h =
    Ensures-bind _ (require (id_free user.id db.users) unique_violation) _ λ _ free.
      Ensures-bind _
        (require (not (is_some (find_by (uid_wallet user.uid user.wallet_address) db.users)))
          unique_violation)
        _
        λ _ _.
          Ensures-bind _
            (require (not user.is_active || not (is_some (find_by (active_of user.uid) db.users)))
              unique_violation)
            _ λ _ _. h (fresh (require-eq-ok _ _ free))
  where
    fresh : id_free user.id db.users ≡ true → All (λ r. same_id user r ≡ false) db.users
    fresh free = elim (Option-cases (find_by (has_user_id user.id) db.users)) [
      | inl none_of ↦ find_by-none (has_user_id user.id) db.users none_of
      | inr (r, found) ↦ absurd (ground arith)
    ]

pub find_or_insert-Selected :
    (now : ℕ) (id uid wallet : Text) (name : Option Text) (db : Database)
    → SelectedAll db.users
    → Ensures (λ q. SelectedAll q.1.users) (find_or_insert now id uid wallet name db)
unfolding find_or_insert
find_or_insert-Selected now id uid wallet name db h =
    elim (Option-cases (find_by (uid_wallet uid wallet) db.users)) [
      | inr (e, found) ↦ rw (found, Ensures) h
      | inl none_of ↦
          let user =
            new_user now id uid wallet (truthy name)
              (not (is_some (find_by (of_uid uid) db.users))) in
          rw (none_of, Ensures)
            (insert_user-Selected user db (λ fresh. insert-first user db.users fresh h refl))
    ]

ensure_managed_wallet-Selected :
    (managed : Text → Text) (now : ℕ) (id uid : Text) (db : Database)
    → SelectedBut uid db.users
    → Ensures (λ q. SelectedAll q.1.users) (ensure_managed_wallet managed now id uid db)
unfolding ensure_managed_wallet
ensure_managed_wallet-Selected managed now id uid db h =
    let rows = update_where (of_uid uid) deactivate db.users in
    let but =
      update-SelectedBut (of_uid uid) deactivate deactivate-SameRow uid db.users
        (All-intro _ db.users (λ r own. own)) h in
    let quiet = deactivate-own uid db.users in
    elim (Option-cases (find_by (uid_wallet uid (managed uid)) rows)) [
      | inl none_of ↦
          let inactive = update_users (of_uid uid) deactivate db in
          let user = new_user now id uid (managed uid) none true in
          rw (none_of, Ensures)
            (insert_user-Selected user inactive
              (λ fresh. insert-active user rows fresh but refl quiet))
      | inr (e, found) ↦
          let same = activate_at-SameRow now in
          let own = found-own uid (managed uid) rows e but.ids found in
          rw (found, Ensures)
            (but-SelectedAll uid _
              (update-SelectedBut (same_id e) (activate_at now) same uid rows own but)
              (inr (
                activate-own uid e (activate_at now) same (λ r. refl) rows own
                  (All-mono _ _ rows (λ r off _. off) (count_zero (active_of uid) rows quiet))
                  (count_id (uid_wallet uid (managed uid)) rows e but.ids found))))
    ]

pub activate_wallet-Selected :
    (now : ℕ) (id uid wallet : Text) (name : Option Text) (db : Database)
    → SelectedAll db.users
    → Ensures (λ q. SelectedAll q.1.users) (activate_wallet now id uid wallet name db)
unfolding activate_wallet
activate_wallet-Selected now id uid wallet name db h =
    elim (Option-cases (find_by (uid_wallet uid wallet) db.users)) [
      | inl none_of ↦
          let but =
            update-SelectedBut (of_uid uid) deactivate deactivate-SameRow uid db.users
              (All-intro _ db.users (λ r own. own)) (SelectedAll-but uid db.users h) in
          let user = new_user now id uid wallet (truthy name) true in
          rw (none_of, Ensures)
            (insert_user-Selected user (update_users (of_uid uid) deactivate db)
              (λ fresh. insert-active user _ fresh but refl (deactivate-own uid db.users)))
      | inr (e, found) ↦
          let others = λ (r : UserRecord). of_uid uid r && not (has_user_id e.id r) in
          let own = found-own uid wallet db.users e h.all_ids found in
          let but =
            update-SelectedBut others deactivate deactivate-SameRow uid db.users
              (All-intro _ db.users (λ r both. (and_true _ _ both).0))
              (SelectedAll-but uid db.users h) in
          let own' =
            All-update_where (λ r. same_id e r ≡ true → of_uid uid r ≡ true) others deactivate
              db.users (λ r _ o. o) own in
          rw (found, Ensures)
            (but-SelectedAll uid _
              (update-SelectedBut (same_id e) select select-SameRow uid
                (update_where others deactivate db.users) own' but)
              (inr (
                activate-own uid e select select-SameRow (λ r. refl)
                  (update_where others deactivate db.users) own' (others-off uid e db.users)
                  (update-count_id e others deactivate db.users deactivate-SameRow
                    ∙ count_id (uid_wallet uid wallet) db.users e h.all_ids found))))
    ]

retire-Selected :
    (now : ℕ) (uid : Text) (e : UserRecord) (db : Database)
    → All (λ r. same_id e r ≡ true → of_uid uid r ≡ true) db.users
    → SelectedAll db.users
    → SelectedBut uid (retire now e db).1.users
unfolding retire
retire-Selected now uid e db own h = elim (Bool-cases (has_activity e.id db)) [
  | inr gone ↦
      rw gone (delete-SelectedBut uid (same_id e) db.users own (SelectedAll-but uid db.users h))
  | inl history ↦ elim (Bool-cases e.is_active) [
    | inl on ↦ rw history (
        rw on (
          update-SelectedBut (same_id e) (deactivate_at now) (deactivate_at-SameRow now) uid
            db.users own (SelectedAll-but uid db.users h)))
    | inr off ↦ rw history (rw off (SelectedAll-but uid db.users h))
  ]
]

-- A row that is not active goes without a change of the selection.
retire-quiet :
    (now : ℕ) (uid : Text) (e : UserRecord) (db : Database)
    → All (λ r. same_id e r ≡ true → r ≡ e) db.users
    → All (λ r. same_id e r ≡ true → of_uid uid r ≡ true) db.users
    → e.is_active ≡ false
    → SelectedAll db.users
    → SelectedAll (retire now e db).1.users
unfolding retire
retire-quiet now uid e db only own off h = elim (Bool-cases (has_activity e.id db)) [
  | inr gone ↦ rw gone (delete-SelectedAll uid e db.users only own off h)
  | inl history ↦ rw history (rw off h)
]

replace_active-Selected :
    (managed : Text → Text) (now : ℕ) (id uid : Text) (was_active : Bool) (db : Database)
    → SelectedBut uid db.users
    → (was_active ≡ false → SelectedAll db.users)
    → Ensures (λ q. SelectedAll q.1.users) (replace_active managed now id uid was_active db)
replace_active-Selected managed now id uid true db but h =
    ensure_managed_wallet-Selected managed now id uid db but
replace_active-Selected managed now id uid false db but h = h refl

pub remove_user-Selected :
    (managed : Text → Text) (now : ℕ) (id uid wallet : Text) (e : UserRecord) (db : Database)
    → SelectedAll db.users
    → find_by (uid_wallet uid wallet) db.users ≡ some e
    → Ensures (λ q. SelectedAll q.1.users) (remove_user managed now id uid e db)
unfolding remove_user
remove_user-Selected managed now id uid wallet e db h found =
    let only = only_id (uid_wallet uid wallet) db.users e h.all_ids found in
    let own = found-own uid wallet db.users e h.all_ids found in
    Ensures-bind (λ q. SelectedAll q.1.users)
      (replace_active managed now id uid e.is_active (retire now e db).1) _
      λ replaced made.
        Ensures-ok (λ q. SelectedAll q.1.users) _
          (replace_active-Selected managed now id uid e.is_active (retire now e db).1
            (retire-Selected now uid e db own h) (λ off. retire-quiet now uid e db only own off h))
          made

pub delete_by_uid_and_wallet-Selected :
    (managed : Text → Text) (now : ℕ) (id uid wallet : Text) (db : Database)
    → SelectedAll db.users
    → Ensures (λ q. SelectedAll q.1.users) (delete_by_uid_and_wallet managed now id uid wallet db)
unfolding delete_by_uid_and_wallet
delete_by_uid_and_wallet-Selected managed now id uid wallet db h =
    elim (Option-cases (find_by (uid_wallet uid wallet) db.users)) [
      | inl none_of ↦ rw (none_of, Ensures) h
      | inr (e, found) ↦
          rw (found, Ensures)
            (Ensures-bind (λ q. SelectedAll q.1.users) (remove_user managed now id uid e db)
              (λ q. ok (q.0.0, q.1))
              λ q made.
                Ensures-ok (λ q. SelectedAll q.1.users) _
                  (remove_user-Selected managed now id uid wallet e db h found) made)
    ]

pub unlink_linked_wallet-Selected :
    (managed : Text → Text) (now : ℕ) (id uid wallet : Text) (db : Database)
    → SelectedAll db.users
    → Ensures (λ q. SelectedAll q.1.users) (unlink_linked_wallet managed now id uid wallet db)
unfolding unlink_linked_wallet
unlink_linked_wallet-Selected managed now id uid wallet db h =
    elim (Option-cases (find_by (uid_wallet uid wallet) db.users)) [
      | inl none_of ↦ rw (none_of, Ensures) h
      | inr (e, found) ↦
          elim (Bool-cases (
            count (link_of uid wallet) db.linked_wallet_links == 0
            && not (needs_repair managed uid e))) [
              | inl nothing ↦ rw (found, nothing, Ensures) h
              | inr goes ↦ rw (found, goes, Ensures) (unlinked e found)
            ]
    ]
  where
    unlinked :
        (e : UserRecord)
        → find_by (uid_wallet uid wallet) db.users ≡ some e
        → Ensures
            (λ q. SelectedAll q.1.users)
            (unlink_user managed now id uid
              (count (link_of uid wallet) db.linked_wallet_links)
              e
              record db {
                linked_wallet_links = delete_where (link_of uid wallet) db.linked_wallet_links;
              })
    unlinked e found =
        unfold unlink_user in
        Ensures-bind (λ q. SelectedAll q.1.users)
          (remove_user managed now id uid e record db {
            linked_wallet_links = delete_where (link_of uid wallet) db.linked_wallet_links;
          })
          _
          λ q made.
            Ensures-ok (λ q. SelectedAll q.1.users) _
              (remove_user-Selected managed now id uid wallet e
                record db {
                  linked_wallet_links = delete_where (link_of uid wallet) db.linked_wallet_links;
                }
                h found)
              made

pub update_wallet_address_by_id-Selected :
    (now : ℕ) (id wallet : Text) (db : Database)
    → SelectedAll db.users
    → Ensures (λ q. SelectedAll q.1.users) (update_wallet_address_by_id now id wallet db)
unfolding update_wallet_address_by_id
update_wallet_address_by_id-Selected now id wallet db h =
    elim (Option-cases (find_by (has_user_id id) db.users)) [
      | inl none_of ↦ rw (none_of, Ensures) h
      | inr (row, found) ↦
          let taken =
            find_by (λ (r : UserRecord). not (has_user_id id r) && uid_wallet row.uid wallet r)
              db.users in
          let after = update_users (has_user_id id) (set_wallet now wallet) db in
          rw (found, Ensures)
            (Ensures-bind (λ q. SelectedAll q.1.users)
              (require (not (is_some taken)) unique_violation)
              (λ _. ok (find_by (has_user_id id) after.users, after))
              λ _ _.
                update-SelectedAll (has_user_id id) (set_wallet now wallet)
                  (set_wallet-SameRow now wallet) db.users (λ r. refl) h)
    ]
