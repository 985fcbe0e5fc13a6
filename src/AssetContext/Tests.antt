-- ===== src/AssetContext/Tests.antt =====
-- An asset context on concrete fields.
use ev_web3_award_system.Prelude.{◌≡◌, refl, some, err}
use ev_web3_award_system.Text.{codes, text_eq, to_lower}
use ev_web3_award_system.AssetContext.{
  TokenAssetContext, StoredAssetContext, StoredField, AssetMismatch, asset_context_mismatch,
}
use ev_web3_award_system.AssetContext.Laws.{Agrees, accepted_context-Agrees}

abbrev current_context : TokenAssetContext
current_context = record {
  token_contract_address = codes "0xcc";
  chain_id = codes "80002";
  treasury_address = some (codes "0xAA");
  signer_address = codes "0xaa";
}

abbrev stored_context : StoredAssetContext
stored_context = record {
  token_contract_address = StoredField.text (codes "0xCC");
  chain_id = StoredField.other (codes "80002");
  treasury_address = StoredField.text (codes "0xaa");
  signer_address = StoredField.text (codes "0xAA");
}

accepted_context-Agrees_example : Agrees stored_context current_context
unfolding asset_context_mismatch text_eq to_lower
accepted_context-Agrees_example = accepted_context-Agrees stored_context current_context refl

moved_treasury_test :
    asset_context_mismatch
      (some (record stored_context { treasury_address = StoredField.null }))
      current_context
    ≡ err AssetMismatch.treasury_changed
unfolding asset_context_mismatch text_eq to_lower
moved_treasury_test = refl
