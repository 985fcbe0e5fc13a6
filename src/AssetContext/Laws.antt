-- ===== src/AssetContext/Laws.antt =====
-- What an asset context that is accepted agrees on.
use ev_web3_award_system.Prelude.{
  ◌≡◌, refl, ◌⊎◌, inl, inr, true, ◌||◌, Option, none, some, ok, require, or_fail, Ensures,
  Ensures-ok, Ensures-bind, or_fail-eq-ok, require-eq-ok, Bool-cases, arith, ap, ◌∙◌,
}
use ev_web3_award_system.Text.{Text, text_eq, nullable_eq, to_lower, is_empty}
use ev_web3_award_system.Text.Laws.{text_eq_iff}
use ev_web3_award_system.Operations.Rows.{truthy}
use ev_web3_award_system.AssetContext.{
  TokenAssetContext, StoredAssetContext, incomplete, contract_changed, chain_changed,
  treasury_changed, signer_changed, lower_text, string_of, lower_nullable, lower_treasury,
  compare_context, asset_context_mismatch,
}

-- The stored context is there in full, and names the current contract, chain, treasury and signer; an
-- empty chain agrees with every chain.
pub record Agrees (asset : StoredAssetContext) (current : TokenAssetContext) : Type 0 where
  pub chain : Text
  pub same_contract :
      lower_text asset.token_contract_address ≡ some (to_lower current.token_contract_address)
  pub chain_stored : string_of asset.chain_id ≡ some chain
  pub same_chain : (is_empty chain ≡ true) ⊎ (chain ≡ current.chain_id)
  pub same_treasury :
      lower_nullable asset.treasury_address ≡ some (lower_treasury current.treasury_address)
  pub same_signer : lower_text asset.signer_address ≡ some (to_lower current.signer_address)

truthy-some : (o : Option Text) {s : Text} → truthy o ≡ some s → o ≡ some s
truthy-some none h = h
truthy-some (some t) h = ground arith

nullable_eq-eq : (a b : Option Text) → nullable_eq a b ≡ true → a ≡ b
unfolding nullable_eq
nullable_eq-eq none none h = refl
nullable_eq-eq none (some t) h = absurd (cc)
nullable_eq-eq (some s) none h = absurd (cc)
nullable_eq-eq (some s) (some t) h = ap some ((text_eq_iff s t).0 h)

same_or_empty :
    (chain current : Text)
    → is_empty chain || text_eq chain current ≡ true
    → (is_empty chain ≡ true) ⊎ (chain ≡ current)
same_or_empty chain current h = elim (Bool-cases (is_empty chain)) [
  | inl e ↦ inl e
  | inr e ↦ inr ((text_eq_iff chain current).0 (rw e at h))
]

compare-Agrees :
    (asset : StoredAssetContext) (current : TokenAssetContext) (contract chain : Text)
    (treasury : Option Text) (signer : Text)
    → truthy (lower_text asset.token_contract_address) ≡ some contract
    → string_of asset.chain_id ≡ some chain
    → lower_nullable asset.treasury_address ≡ some treasury
    → truthy (lower_text asset.signer_address) ≡ some signer
    → Ensures (λ _. Agrees asset current) (compare_context contract chain treasury signer current)
unfolding compare_context
compare-Agrees asset current contract chain treasury signer c h t s =
    Ensures-bind _
      (require (text_eq contract (to_lower current.token_contract_address)) contract_changed) _
      λ _ c'.
        Ensures-bind _ (require (is_empty chain || text_eq chain current.chain_id) chain_changed) _
          λ _ h'.
            Ensures-bind _
              (require (nullable_eq treasury (lower_treasury current.treasury_address))
                treasury_changed)
              _ λ _ t'. checked (require-eq-ok _ _ c') (require-eq-ok _ _ h') (require-eq-ok _ _ t')
  where
    checked :
        text_eq contract (to_lower current.token_contract_address) ≡ true
        → is_empty chain || text_eq chain current.chain_id ≡ true
        → nullable_eq treasury (lower_treasury current.treasury_address) ≡ true
        → Ensures
            (λ _. Agrees asset current)
            (require (text_eq signer (to_lower current.signer_address)) signer_changed)
    checked c' h' t' = elim (Bool-cases (text_eq signer (to_lower current.signer_address))) [
      | inr differs ↦ rw differs tt
      | inl s' ↦ rw s' (record {
        chain = chain;
        same_contract = truthy-some _ c ∙ ap some ((text_eq_iff _ _).0 c');
        chain_stored = h;
        same_chain = same_or_empty chain current.chain_id h';
        same_treasury = t ∙ ap some (nullable_eq-eq _ _ t');
        same_signer = truthy-some _ s ∙ ap some ((text_eq_iff _ _).0 s');
      })
    ]

-- A stored asset context that is accepted is there in full, and names the current token contract,
-- treasury and signer, up to the case of their letters, and the current chain, unless the stored chain
-- is the empty text.
pub accepted_context-Agrees :
    (asset : StoredAssetContext) (current : TokenAssetContext)
    → asset_context_mismatch (some asset) current ≡ ok tt
    → Agrees asset current
unfolding asset_context_mismatch
accepted_context-Agrees asset current e =
    Ensures-ok (λ _. Agrees asset current) _
      (Ensures-bind _ (or_fail (truthy (lower_text asset.token_contract_address)) incomplete) _
        λ contract c. Ensures-bind _ (or_fail (string_of asset.chain_id) incomplete) _ λ chain h.
          Ensures-bind _ (or_fail (lower_nullable asset.treasury_address) incomplete) _
            λ treasury t.
              Ensures-bind _ (or_fail (truthy (lower_text asset.signer_address)) incomplete) _
                λ signer s.
                  compare-Agrees asset current contract chain treasury signer (or_fail-eq-ok _ _ c)
                    (or_fail-eq-ok _ _ h) (or_fail-eq-ok _ _ t) (or_fail-eq-ok _ _ s))
      e
