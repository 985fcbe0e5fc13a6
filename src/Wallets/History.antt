-- ===== src/Wallets/History.antt =====
-- Any sequence of operations of Users and LinkedWallets.
use ev_web3_award_system.Prelude.{
  ℕ, ◌≡◌, refl, sym, subst, inl, inr, not, ◌&&◌, List, [], ◌∷◌, Option, none, some, find_by,
  delete_where, count, Bool-cases, Option-cases, ◌==◌, Result, ok, err, ◌>>=◌, or_fail, Ensures,
  Ensures-bind, Ensures-ok,
}
use ev_web3_award_system.Text.{Text}
use ev_web3_award_system.Store.{
  Database, UserRecord, LinkedWalletAddressRecord, Error, contract_id_not_found,
}
use ev_web3_award_system.Operations.History.{commit}
use ev_web3_award_system.Wallets.{uid_wallet, of_wallet, find_or_insert, link_of, add_linked_wallet}
use ev_web3_award_system.Wallets.Users.{
  find_by_uid, create, set_name, update_wallet_address_by_id, update_wallet_address,
  update_wallet_name_by_address, link_linked_wallet, activate_wallet, remove_user,
  delete_by_uid_and_wallet, Unlinked, unlink_user, needs_repair, unlink_linked_wallet,
}
use ev_web3_award_system.Wallets.Linked.{add, remove, update_name}
use ev_web3_award_system.Wallets.Rows.{SelectedAll}
use ev_web3_award_system.Wallets.Selection.{update-SelectedAll}
use ev_web3_award_system.Wallets.Steps.{
  set_name-SameRow, find_or_insert-Selected, activate_wallet-Selected,
  delete_by_uid_and_wallet-Selected, unlink_linked_wallet-Selected,
  update_wallet_address_by_id-Selected,
}
use ev_web3_award_system.Wallets.Links.{
  WellLinked, add_linked_wallet-WellLinked, delete-WellLinked, rename-WellLinked,
}
use ev_web3_award_system.Wallets.Frames.{
  Framed, find_or_insert-Framed, activate_wallet-Framed, remove_user-Framed,
  delete_by_uid_and_wallet-Framed, update_wallet_address_by_id-Framed,
}

-- A call, with the ids of the rows that it may insert.
pub data Call : Type 0 where
  create_call activate_call : (id uid wallet : Text) → Option Text → Call
  link_call : (id link_id uid wallet : Text) → Option Text → Call
  delete_call unlink_call remove_call : (id uid wallet : Text) → Call
  update_call update_by_id_call : (key wallet : Text) → Call
  rename_call : (wallet : Text) → Option Text → Call
  add_call : (id uid wallet : Text) → Option Text → Call
  rename_link_call : (uid wallet : Text) → Option Text → Call

unfoldable pub run : (Text → Text) → ℕ → Call → Database → Database
unfolding create activate_wallet link_linked_wallet delete_by_uid_and_wallet unlink_linked_wallet
    remove update_wallet_address update_wallet_address_by_id update_wallet_name_by_address add
    update_name
run managed now (create_call id uid wallet name) db = commit db (create now id uid wallet name db)
run managed now (activate_call id uid wallet name) db =
    commit db (activate_wallet now id uid wallet name db)
run managed now (link_call id link_id uid wallet name) db =
    commit db (link_linked_wallet now id link_id uid wallet name db)
run managed now (delete_call id uid wallet) db =
    commit db (delete_by_uid_and_wallet managed now id uid wallet db)
run managed now (unlink_call id uid wallet) db =
    commit db (unlink_linked_wallet managed now id uid wallet db)
run managed now (remove_call id uid wallet) db = commit db (remove managed now id uid wallet db)
run managed now (update_call uid wallet) db = commit db (update_wallet_address now uid wallet db)
run managed now (update_by_id_call id wallet) db =
    commit db (update_wallet_address_by_id now id wallet db)
run managed now (rename_call wallet name) db = update_wallet_name_by_address now wallet name db
run managed now (add_call id uid wallet name) db = commit db (add now id uid wallet name db)
run managed now (rename_link_call uid wallet name) db = (update_name now uid wallet name db).1

unfoldable pub run_all : (Text → Text) → List (ℕ × Call) → Database → Database
unfolding run
run_all managed [] db = db
run_all managed ((now, call) ∷ calls) db = run_all managed calls (run managed now call db)

-- The selection of wallets and the links are well formed.
pub record WellSelected (db : Database) : Type 0 where
  pub selection : SelectedAll db.users
  pub linked : WellLinked db.linked_wallet_links

commit-WellSelected {ℓ} :
    {A : Type ℓ} (db : Database) (r : Result Error (A × Database))
    → WellSelected db
    → Ensures (λ q. SelectedAll q.1.users) r
    → Ensures (λ q. WellLinked q.1.linked_wallet_links) r
    → WellSelected (commit db r)
commit-WellSelected db (ok (a, db')) h s l = record { selection = s; linked = l }
commit-WellSelected db (err e) h s l = h

framed {ℓ} :
    {A : Type ℓ} (db : Database) (r : Result Error (A × Database))
    → WellLinked db.linked_wallet_links
    → Ensures (Framed db) r
    → Ensures (λ q. WellLinked q.1.linked_wallet_links) r
framed db (ok (a, db')) h same = subst WellLinked (sym same) h
framed db (err e) h same = tt

link-Selected :
    (now : ℕ) (id link_id uid wallet : Text) (name : Option Text) (db : Database)
    → WellSelected db
    → Ensures (λ q. SelectedAll q.1.users) (link_linked_wallet now id link_id uid wallet name db)
unfolding link_linked_wallet
link-Selected now id link_id uid wallet name db h =
    Ensures-bind (λ q. SelectedAll q.1.users) (add_linked_wallet now link_id uid wallet name db) _
      λ linked made.
        let (_, same) =
          Ensures-ok _ _ (add_linked_wallet-WellLinked now link_id uid wallet name db h.linked)
            made in
        find_or_insert-Selected now id uid wallet name linked.1
          (subst SelectedAll (sym same) h.selection)

link-Linked :
    (now : ℕ) (id link_id uid wallet : Text) (name : Option Text) (db : Database)
    → WellSelected db
    → Ensures
        (λ q. WellLinked q.1.linked_wallet_links)
        (link_linked_wallet now id link_id uid wallet name db)
unfolding link_linked_wallet
link-Linked now id link_id uid wallet name db h =
    Ensures-bind (λ q. WellLinked q.1.linked_wallet_links)
      (add_linked_wallet now link_id uid wallet name db) _
      λ linked made.
        let (well, _) =
          Ensures-ok _ _ (add_linked_wallet-WellLinked now link_id uid wallet name db h.linked)
            made in
        framed linked.1 (find_or_insert now id uid wallet name linked.1) well
          (find_or_insert-Framed now id uid wallet name linked.1)

unlink-Linked :
    (managed : Text → Text) (now : ℕ) (id uid wallet : Text) (db : Database)
    → WellLinked db.linked_wallet_links
    → Ensures
        (λ q. WellLinked q.1.linked_wallet_links)
        (unlink_linked_wallet managed now id uid wallet db)
unfolding unlink_linked_wallet unlink_user
unlink-Linked managed now id uid wallet db h =
    let after = record db {
      linked_wallet_links = delete_where (link_of uid wallet) db.linked_wallet_links;
    } in
    let well = delete-WellLinked (link_of uid wallet) db.linked_wallet_links h in
    elim (Option-cases (find_by (uid_wallet uid wallet) db.users)) [
      | inl none_of ↦ rw (none_of, Ensures) well
      | inr (e, found) ↦
          elim (Bool-cases (
            count (link_of uid wallet) db.linked_wallet_links == 0
            && not (needs_repair managed uid e))) [
              | inl nothing ↦ rw (found, nothing, Ensures) well
              | inr goes ↦
                  rw (found, goes, Ensures)
                    (Ensures-bind (λ q. WellLinked q.1.linked_wallet_links)
                      (remove_user managed now id uid e after) _
                      λ q made.
                        subst WellLinked
                          (sym (
                            Ensures-ok (Framed after) _
                              (remove_user-Framed managed now id uid e after) made))
                          well)
            ]
    ]

module _ (managed : Text → Text) (now : ℕ) (db : Database) (h : WellSelected db) where
  by_id-WellSelected :
      (id wallet : Text) → WellSelected (commit db (update_wallet_address_by_id now id wallet db))
  by_id-WellSelected id wallet =
      commit-WellSelected db (update_wallet_address_by_id now id wallet db) h
        (update_wallet_address_by_id-Selected now id wallet db h.selection)
        (framed db (update_wallet_address_by_id now id wallet db) h.linked
          (update_wallet_address_by_id-Framed now id wallet db))

  by_uid-WellSelected :
      (uid wallet : Text) → WellSelected (commit db (update_wallet_address now uid wallet db))
  unfolding update_wallet_address
  by_uid-WellSelected uid wallet = at_active (find_by_uid uid db)
    where
      at_active :
          (r : Option UserRecord)
          → WellSelected (
              commit db (
                or_fail r contract_id_not_found >>= λ e.
                update_wallet_address_by_id now e.id wallet db))
      at_active none = h
      at_active (some e) = by_id-WellSelected e.id wallet

  unlink-WellSelected :
      (id uid wallet : Text)
      → WellSelected (commit db (unlink_linked_wallet managed now id uid wallet db))
  unlink-WellSelected id uid wallet =
      commit-WellSelected db (unlink_linked_wallet managed now id uid wallet db) h
        (unlink_linked_wallet-Selected managed now id uid wallet db h.selection)
        (unlink-Linked managed now id uid wallet db h.linked)

  remove-WellSelected :
      (id uid wallet : Text) → WellSelected (commit db (remove managed now id uid wallet db))
  unfolding remove
  remove-WellSelected id uid wallet =
      at_result (unlink_linked_wallet managed now id uid wallet db)
        (unlink-WellSelected id uid wallet)
    where
      at_result :
          (r : Result Error (Unlinked × Database))
          → WellSelected (commit db r)
          → WellSelected (commit db (r >>= λ q. ok (q.0.removed_link, q.1)))
      at_result (ok q) well = well
      at_result (err e) well = well

  add-WellSelected :
      (id uid wallet : Text) (name : Option Text)
      → WellSelected (commit db (add now id uid wallet name db))
  unfolding add
  add-WellSelected id uid wallet name =
      at_result (add_linked_wallet now id uid wallet name db)
        (add_linked_wallet-WellLinked now id uid wallet name db h.linked)
    where
      at_result :
          (r : Result Error (LinkedWalletAddressRecord × Database))
          → Ensures (λ q. WellLinked q.1.linked_wallet_links × (q.1.users ≡ db.users)) r
          → WellSelected (commit db r)
      at_result (ok q) (well, same) = record {
        selection = subst SelectedAll (sym same) h.selection;
        linked = well;
      }
      at_result (err e) _ = h

  pub run-WellSelected : (call : Call) → WellSelected (run managed now call db)
  unfolding run create update_wallet_name_by_address update_name
  run-WellSelected (create_call id uid wallet name) =
      commit-WellSelected db (find_or_insert now id uid wallet name db) h
        (find_or_insert-Selected now id uid wallet name db h.selection)
        (framed db (find_or_insert now id uid wallet name db) h.linked
          (find_or_insert-Framed now id uid wallet name db))
  run-WellSelected (activate_call id uid wallet name) =
      commit-WellSelected db (activate_wallet now id uid wallet name db) h
        (activate_wallet-Selected now id uid wallet name db h.selection)
        (framed db (activate_wallet now id uid wallet name db) h.linked
          (activate_wallet-Framed now id uid wallet name db))
  run-WellSelected (link_call id link_id uid wallet name) =
      commit-WellSelected db (link_linked_wallet now id link_id uid wallet name db) h
        (link-Selected now id link_id uid wallet name db h)
        (link-Linked now id link_id uid wallet name db h)
  run-WellSelected (delete_call id uid wallet) =
      commit-WellSelected db (delete_by_uid_and_wallet managed now id uid wallet db) h
        (delete_by_uid_and_wallet-Selected managed now id uid wallet db h.selection)
        (framed db (delete_by_uid_and_wallet managed now id uid wallet db) h.linked
          (delete_by_uid_and_wallet-Framed managed now id uid wallet db))
  run-WellSelected (unlink_call id uid wallet) = unlink-WellSelected id uid wallet
  run-WellSelected (remove_call id uid wallet) = remove-WellSelected id uid wallet
  run-WellSelected (update_call uid wallet) = by_uid-WellSelected uid wallet
  run-WellSelected (update_by_id_call id wallet) = by_id-WellSelected id wallet
  run-WellSelected (rename_call wallet name) = record {
    selection =
        update-SelectedAll (of_wallet wallet) (set_name now name) (set_name-SameRow now name)
          db.users (λ r. refl) h.selection;
    linked = h.linked;
  }
  run-WellSelected (add_call id uid wallet name) = add-WellSelected id uid wallet name
  run-WellSelected (rename_link_call uid wallet name) = record {
    selection = h.selection;
    linked = rename-WellLinked now name (link_of uid wallet) db.linked_wallet_links h.linked;
  }

-- Under any sequence of operations of Users and LinkedWallets these stay: no two users have one id, a contract id
-- with any wallets has exactly one that is active, no two links have one address, and a contract id has at most five
-- links.
pub run_all-WellSelected :
    (managed : Text → Text) (calls : List (ℕ × Call)) (db : Database)
    → WellSelected db
    → WellSelected (run_all managed calls db)
unfolding run_all
run_all-WellSelected managed [] db h = h
run_all-WellSelected managed ((now, call) ∷ calls) db h =
    run_all-WellSelected managed calls (run managed now call db)
      (run-WellSelected managed now db h call)
