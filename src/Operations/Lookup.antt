-- ===== src/Operations/Lookup.antt =====
-- TokenOperations.findByTxHash, and what an answer of it says.
use ev_web3_award_system.Prelude.{
  ◌≡◌, refl, inl, inr, Bool, true, false, List, [], ◌∷◌, ◌++◌, Option, none, some, Result, ok, err,
  ◌>>=◌, if◌then◌else◌, All, Bool-cases, Ensures, Ensures-ok, arith, subst, ap, >>=-eq-ok,
}
use ev_web3_award_system.Text.{Text, same_lower}
use ev_web3_award_system.Store.{Database, TokenOperationRecord, Error, tx_hash_ambiguous_review}
use ev_web3_award_system.Operations.Hash.{require_canonical_transaction_hash}
use ev_web3_award_system.Operations.Rows.{nullable_same_lower}

-- The rows of a query.
unfoldable pub filter_rows {ℓ} : {A : Type ℓ} → (A → Bool) → List A → List A
filter_rows p [] = []
filter_rows p (r ∷ rows) = let rest = filter_rows p rows in if p r then r ∷ rest else rest

unfoldable pub require_unambiguous_transaction_match {ℓ} :
    {A : Type ℓ} → List A → Result Error (Option A)
require_unambiguous_transaction_match [] = ok none
require_unambiguous_transaction_match (r ∷ []) = ok (some r)
require_unambiguous_transaction_match (r ∷ s ∷ rows) = err tx_hash_ambiguous_review

-- `whereRaw('lower(tx_hash) = lower(?)')`.
unfoldable pub has_hash : Text → TokenOperationRecord → Bool
unfolding same_lower
has_hash hash r = nullable_same_lower hash r.tx_hash

unfoldable pub find_by_tx_hash : Text → Database → Result Error (Option TokenOperationRecord)
unfolding filter_rows require_unambiguous_transaction_match has_hash
    require_canonical_transaction_hash
find_by_tx_hash tx_hash db = do
  hash ← require_canonical_transaction_hash tx_hash
  require_unambiguous_transaction_match (filter_rows (has_hash hash) db.token_operations)

module _ {A : Type 0} (p : A → Bool) where
  no_match : (rows : List A) → filter_rows p rows ≡ [] → All (λ q. p q ≡ false) rows
  unfolding filter_rows
  no_match [] h = tt
  no_match (x ∷ rows) h = elim (Bool-cases (p x)) [
    | inl hit ↦ absurd (ground arith)
    | inr miss ↦ (miss, no_match rows (rw miss at h))
  ]

  -- A query with one answer: the answer is a row of the table that fits, and no other row, before it
  -- or after it, fits.
  pub record OnlyMatch (rows : List A) (r : A) : Type 0 where
    pub before : List A
    pub after : List A
    pub stands : rows ≡ before ++ (r ∷ after)
    pub fits : p r ≡ true
    pub none_before : All (λ q. p q ≡ false) before
    pub none_after : All (λ q. p q ≡ false) after

  first_match :
      (x r : A) (rows : List A)
      → p x ≡ true
      → x ∷ filter_rows p rows ≡ r ∷ []
      → OnlyMatch (x ∷ rows) r
  first_match x r rows hit e =
      let same : x ≡ r = cc in
      let rest : filter_rows p rows ≡ [] = cc in
      record {
        before = [];
        after = rows;
        stands = ap (λ y. y ∷ rows) same;
        fits = subst (λ y. p y ≡ true) same hit;
        none_before = tt;
        none_after = no_match rows rest;
      }

  later_match : (x r : A) (rows : List A) → p x ≡ false → OnlyMatch rows r → OnlyMatch (x ∷ rows) r
  later_match x r rows miss m = record {
    before = x ∷ m.before;
    after = m.after;
    stands = ap (λ l. x ∷ l) m.stands;
    fits = m.fits;
    none_before = (miss, m.none_before);
    none_after = m.none_after;
  }

  one_match : (rows : List A) (r : A) → filter_rows p rows ≡ r ∷ [] → OnlyMatch rows r
  unfolding filter_rows
  one_match [] r h = absurd (cc)
  one_match (x ∷ rows) r h = elim (Bool-cases (p x)) [
    | inl hit ↦ first_match x r rows hit (rw hit at h)
    | inr miss ↦ later_match x r rows miss (one_match rows r (rw miss at h))
  ]

  -- What an answer of a query says: none of the rows fits, or one row of the table and no other.
  abbrev pub Answer : List A → Option A → Type 0
  Answer rows none = All (λ q. p q ≡ false) rows
  Answer rows (some r) = OnlyMatch rows r

  unambiguous :
      (rows : List A)
      → Ensures (Answer rows) (require_unambiguous_transaction_match (filter_rows p rows))
  unambiguous rows = answer (filter_rows p rows) refl
    where
      answer :
          (matches : List A)
          → filter_rows p rows ≡ matches
          → Ensures (Answer rows) (require_unambiguous_transaction_match matches)
      answer [] e = unfold require_unambiguous_transaction_match in no_match rows e
      answer (r ∷ []) e = unfold require_unambiguous_transaction_match in one_match rows r e
      answer (r ∷ s ∷ rest) e = unfold require_unambiguous_transaction_match in tt

-- If findByTxHash returns, then for the canonical form of the given hash, it returned a row of the table that holds it,
-- up to the case of letters, while no row before or after it does, or none if no row of the table does.
pub find_by_tx_hash-Answer :
    (tx_hash : Text) (db : Database) (answer : Option TokenOperationRecord)
    → find_by_tx_hash tx_hash db ≡ ok answer
    → (hash : Text) × (require_canonical_transaction_hash tx_hash ≡ ok hash)
      × Answer (has_hash hash) db.token_operations answer
unfolding find_by_tx_hash
find_by_tx_hash-Answer tx_hash db answer h =
    let (hash, canonical, rest) =
      >>=-eq-ok (require_canonical_transaction_hash tx_hash)
        (λ hash.
          require_unambiguous_transaction_match (filter_rows (has_hash hash) db.token_operations))
        h in
    (hash, canonical, Ensures-ok _ _ (unambiguous (has_hash hash) db.token_operations) rest)
