-- ===== src/Wallets/Links.antt =====
-- The linked wallets: each address is linked once, and a contract id has five links at most.
use ev_web3_award_system.Prelude.{
  ℕ, ◌+◌, ◌≤◌, ◌≡◌, refl, subst, ap₂, ◌∙◌, inl, inr, Bool, true, false, not, List, [], ◌∷◌, Option,
  find_by, update_where, delete_where, count, leb, if◌then◌else◌, All, All-intro, Apart,
  Apart-update, Bool-cases, Option-cases, arith, find_by-none, is_some, ok, require, ◌>>◌, Ensures,
  Ensures-bind, require-eq-ok,
}
use ev_web3_award_system.Text.{Text, text_eq, same_lower}
use ev_web3_award_system.Text.Laws.{text_eq_iff}
use ev_web3_award_system.Store.{
  Database, LinkedWalletAddressRecord, wallet_already_linked, too_many_linked_wallets,
}
use ev_web3_award_system.Operations.Rows.{truthy}
use ev_web3_award_system.Wallets.{
  link_of_uid, link_of_wallet, link_of, new_link, add_linked_wallet, max_linked_wallets_per_uid,
}
use ev_web3_award_system.Wallets.Linked.{set_link_name}
use ev_web3_award_system.Wallets.Counts.{count_ext, count-update_where, Apart-delete_where}

abbrev pub same_link : LinkedWalletAddressRecord → LinkedWalletAddressRecord → Bool
same_link x y = link_of_wallet x.wallet_address y

pub record WellLinked (rows : List LinkedWalletAddressRecord) : Type 0 where
  pub once : Apart same_link rows
  pub few : (uid : Text) → count (link_of_uid uid) rows ≤ 5

room-few :
    (uid v : Text) (link : LinkedWalletAddressRecord) (rows : List LinkedWalletAddressRecord)
    → link.uid ≡ uid
    → not (leb max_linked_wallets_per_uid (count (link_of_uid uid) rows)) ≡ true
    → count (link_of_uid v) rows ≤ 5
    → count (link_of_uid v) (link ∷ rows) ≤ 5
unfolding link_of_uid
room-few uid v link rows own room h = elim (Bool-cases (text_eq uid v)) [
  | inr other ↦ rw (own, other) (omega (arith, h))
  | inl same ↦ rw (own, same) (at_uid ((text_eq_iff uid v).0 same))
]
  where
    at_uid : uid ≡ v → 1 + count (λ r. text_eq r.uid v) rows ≤ 5
    at_uid same = subst (λ w. 1 + count (λ r. text_eq r.uid w) rows ≤ 5) same (ground arith)

pub add_linked_wallet-WellLinked :
    (now : ℕ) (id uid wallet : Text) (name : Option Text) (db : Database)
    → WellLinked db.linked_wallet_links
    → Ensures
        (λ q. WellLinked q.1.linked_wallet_links × (q.1.users ≡ db.users))
        (add_linked_wallet now id uid wallet name db)
unfolding add_linked_wallet
add_linked_wallet-WellLinked now id uid wallet name db h =
    elim (Option-cases (find_by (link_of uid wallet) db.linked_wallet_links)) [
      | inr (e, found) ↦ rw (found, Ensures) (h, refl)
      | inl none_of ↦
          let link = new_link now id uid wallet (truthy name) in
          let after = record db { linked_wallet_links = link ∷ db.linked_wallet_links } in
          rw (none_of, Ensures)
            (Ensures-bind (λ q. WellLinked q.1.linked_wallet_links × (q.1.users ≡ db.users))
              (require (not (is_some (find_by (link_of_wallet wallet) db.linked_wallet_links)))
                wallet_already_linked)
              (λ _.
                require
                  (not (
                    leb max_linked_wallets_per_uid
                      (count (link_of_uid uid) db.linked_wallet_links)))
                  too_many_linked_wallets
                >> ok (link, after))
              λ _ free.
                Ensures-bind (λ q. WellLinked q.1.linked_wallet_links × (q.1.users ≡ db.users))
                  (require
                    (not (
                      leb max_linked_wallets_per_uid
                        (count (link_of_uid uid) db.linked_wallet_links)))
                    too_many_linked_wallets)
                  (λ _. ok (link, after))
                  λ _ room. (
                    record {
                      once = (fresh (require-eq-ok _ _ free), h.once);
                      few = λ v.
                          room-few uid v link db.linked_wallet_links refl (require-eq-ok _ _ room)
                            (h.few v);
                    },
                    refl,
                  ))
    ]
  where
    fresh :
        not (is_some (find_by (link_of_wallet wallet) db.linked_wallet_links)) ≡ true
        → All (λ r. link_of_wallet wallet r ≡ false) db.linked_wallet_links
    fresh free = elim (Option-cases (find_by (link_of_wallet wallet) db.linked_wallet_links)) [
      | inl none_of ↦ find_by-none (link_of_wallet wallet) db.linked_wallet_links none_of
      | inr (r, found) ↦ absurd (ground arith)
    ]

count-delete_le :
    (p q : LinkedWalletAddressRecord → Bool) (rows : List LinkedWalletAddressRecord)
    → count p (delete_where q rows) ≤ count p rows
count-delete_le p q [] = omega arith
count-delete_le p q (r ∷ rows) = elim (Bool-cases (q r)) [
  | inl gone ↦ rw gone (omega (arith, count-delete_le p q rows))
  | inr stays ↦ rw stays (omega (arith, count-delete_le p q rows))
]

pub delete-WellLinked :
    (p : LinkedWalletAddressRecord → Bool) (rows : List LinkedWalletAddressRecord)
    → WellLinked rows
    → WellLinked (delete_where p rows)
delete-WellLinked p rows h = record {
  once = Apart-delete_where same_link p rows h.once;
  few = λ uid. omega (arith, h.few uid, count-delete_le (link_of_uid uid) p rows);
}

pub rename-WellLinked :
    (now : ℕ) (name : Option Text) (p : LinkedWalletAddressRecord → Bool)
    (rows : List LinkedWalletAddressRecord)
    → WellLinked rows
    → WellLinked (update_where p (set_link_name now name) rows)
unfolding link_of_uid link_of_wallet
rename-WellLinked now name p rows h = record {
  once =
      Apart-update (λ x y. y.wallet_address ≡ x.wallet_address) (λ r. refl) p
        (set_link_name now name) same_link (λ x x' y y' a b. ap₂ same_lower b a) rows
        (All-intro _ rows (λ r _. refl)) h.once;
  few = λ uid.
      let same =
        count-update_where (link_of_uid uid) p (set_link_name now name) rows
        ∙ count_ext _ (link_of_uid uid) rows (All-intro _ rows (kept uid)) in
      omega (arith, h.few uid, same);
}
  where
    kept :
        (uid : Text) (r : LinkedWalletAddressRecord)
        → link_of_uid uid (if p r then set_link_name now name r else r) ≡ link_of_uid uid r
    kept uid r = elim (Bool-cases (p r)) [
      | inl e ↦ unfold link_of_uid in rw e refl
      | inr e ↦ rw e refl
    ]
