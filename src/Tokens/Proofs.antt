-- ===== src/Tokens/Proofs.antt =====
-- src/routes/tokens.rs: the proofs of a token, from the answers of two subgraphs, and the public
-- form of a token. Texts that a package parses or prints are parameters.
use st0x_rest_api.Prelude.{
  ℕ, Bool, false, ◌&&◌, ◌||◌, Option, none, some, List, [], ◌∷◌, ◌++◌, String, ◌==◌, if◌then◌else◌,
  find, first, map, Result, ok, err, ◌>>=◌, ok_or, traverse,
}
use st0x_rest_api.ApiError.{ApiError, internal, not_found}
use st0x_rest_api.WrapRatio.{TokenCfg, JsonValue, json_text, json_other, extension, is_st0x_token}
use st0x_rest_api.Denomination.{concat}
use st0x_rest_api.Tokens.{registry_tokens}
use st0x_rest_api.Tokens.Graphql.{Sent, post_graphql}

pub data TimestampValue : Type 0 where
  number : ℕ → TimestampValue
  text : String → TimestampValue

pub record SftTransaction : Type 0 where
  pub id : String

pub record SftReceiptInformation : Type 0 where
  pub id : String
  pub information : String

pub record SftReceipt : Type 0 where
  pub receipt_id : String
  pub receipt_informations : List SftReceiptInformation

pub record SftReceiptEvent : Type 0 where
  pub timestamp : TimestampValue
  pub transaction : Option SftTransaction
  pub receipt : Option SftReceipt

pub record SftReceiptVaultInformation : Type 0 where
  pub id : String
  pub information : String
  pub timestamp : TimestampValue

pub record SftVault : Type 0 where
  pub receipt_vault_informations : List SftReceiptVaultInformation
  pub deposits : List SftReceiptEvent
  pub withdraws : List SftReceiptEvent

pub record TokenProofMetadata : Type 0 where
  pub id : String
  pub meta : String
  pub sender : String
  pub subject : String
  pub meta_hash : String

pub data TokenProofReceiptType : Type 0 where
  deposit withdraw : TokenProofReceiptType

pub record TokenProofSchema : Type 0 where
  pub id : String
  pub information : String
  pub timestamp : ℕ

pub record TokenProofReceipt : Type 0 where
  pub id : String
  pub receipt_id : String
  pub tx_hash : String
  pub receipt_type : TokenProofReceiptType
  pub information : String
  pub timestamp : ℕ

pub record TokenProofsResponse : Type 0 where
  pub address : ℕ
  pub metadata : List TokenProofMetadata
  pub schemas : List TokenProofSchema
  pub receipts : List TokenProofReceipt

-- `parse::<u64>` and `parse::<Address>` are given.
module _ (parse_u64 : String → Option ℕ) where
  unfoldable pub parse_timestamp : TimestampValue → Result ApiError ℕ
  parse_timestamp (number value) = ok value
  parse_timestamp (text value) =
      ok_or (parse_u64 value) (internal "invalid timestamp from subgraph")

  -- The rows of one event.
  unfoldable pub event_rows :
      TokenProofReceiptType → SftReceiptEvent → Result ApiError (List TokenProofReceipt)
  event_rows receipt_type event = do
    timestamp ← parse_timestamp event.timestamp
    transaction ← ok_or event.transaction (internal "receipt event missing transaction")
    receipt ← ok_or event.receipt (internal "receipt event missing receipt")
    ok (
        map {B = TokenProofReceipt}
          (λ information. record {
            id = information.id;
            receipt_id = receipt.receipt_id;
            tx_hash = transaction.id;
            receipt_type = receipt_type;
            information = information.information;
            timestamp = timestamp;
          })
          receipt.receipt_informations)

  unfoldable pub flatten_receipt_events :
      TokenProofReceiptType → List SftReceiptEvent → Result ApiError (List TokenProofReceipt)
  flatten_receipt_events receipt_type [] = ok []
  flatten_receipt_events receipt_type (event ∷ events) = do
    here ← event_rows receipt_type event
    later ← flatten_receipt_events receipt_type events
    ok (here ++ later)

  unfoldable pub schema_of : SftReceiptVaultInformation → Result ApiError TokenProofSchema
  schema_of schema = parse_timestamp schema.timestamp >>= λ timestamp.
      ok (record { id = schema.id; information = schema.information; timestamp = timestamp })

  unfoldable pub build_token_proofs_response :
      ℕ → List SftVault → List TokenProofMetadata → Result ApiError TokenProofsResponse
  build_token_proofs_response address vaults metadata = do
    vault ← ok_or (first vaults) (not_found "SFT vault not found for token")
    schemas ← traverse schema_of vault.receipt_vault_informations
    deposits ← flatten_receipt_events deposit vault.deposits
    withdraws ← flatten_receipt_events withdraw vault.withdraws
    ok (record {
      address = address;
      metadata = metadata;
      schemas = schemas;
      receipts = deposits ++ withdraws;
    })

module _ (parse_address : String → Option ℕ) where
  abbrev text_address : Option JsonValue → Option ℕ
  text_address (some (json_text value)) = parse_address value
  text_address (some (json_other value)) = none
  text_address none = none

  unfoldable pub extension_address : TokenCfg → String → Option ℕ
  extension_address token key = text_address (extension token key)

  abbrev is_address : ℕ → Option ℕ → Bool
  is_address address none = false
  is_address address (some other) = other == address

  unfoldable pub matches_token_proof_address : TokenCfg → ℕ → Bool
  matches_token_proof_address token address =
      token.address == address
      || (is_address address (extension_address token "unwrappedAddress")
          || is_address address (extension_address token "legacyAddress"))

-- The settings' subgraphs and metaboards, by their keys.
unfoldable pub resolve_sft_subgraph_url : (String → Option String) → String → Result ApiError String
resolve_sft_subgraph_url get_subgraph network_key =
    ok_or (get_subgraph (concat "sft-" network_key)) (internal "SFT subgraph is not configured")

unfoldable pub resolve_proof_subgraph_urls :
    (String → Option String) → (String → Option String) → String → Result ApiError (String × String)
resolve_proof_subgraph_urls get_subgraph get_metaboard network_key = do
  sft_subgraph ← resolve_sft_subgraph_url get_subgraph network_key
  metaboard ← ok_or (get_metaboard network_key) (internal "metadata subgraph is not configured")
  ok (sft_subgraph, metaboard)

-- `try_join!` polls the requests side by side, and ends with the first error that occurs: `sft_first`
-- tells whether the first request's error comes before the second's.
unfoldable pub try_join :
    {A B : Type 0} → Bool → Result ApiError A → Result ApiError B → Result ApiError (A × B)
try_join sft_first (ok a) (ok b) = ok (a, b)
try_join sft_first (ok a) (err f) = err f
try_join sft_first (err e) (ok b) = err e
try_join sft_first (err e) (err f) = err (if sft_first then e else f)

-- The answers of the two subgraphs to the attempts, for a token.
module _ (parse_u64 : String → Option ℕ) (sft_first : Bool)
    (send_sft : String → ℕ → ℕ → Sent (List SftVault))
    (send_metadata : String → ℕ → ℕ → Sent (List TokenProofMetadata)) where
  unfoldable pub read_token_proofs : ℕ → String → String → Result ApiError TokenProofsResponse
  read_token_proofs address sft_url metadata_url = do
    answers ←
        try_join sft_first (post_graphql (send_sft sft_url address)).1
          (post_graphql (send_metadata metadata_url address)).1
    build_token_proofs_response parse_u64 address answers.0 answers.1

  unfoldable pub get_token_proofs :
      (String → Option ℕ)
      → Option (List TokenCfg)
      → (String → Option String)
      → (String → Option String)
      → ℕ
      → Result ApiError TokenProofsResponse
  get_token_proofs parse_address registry get_subgraph get_metaboard address = do
    tokens ← registry_tokens registry
    token ←
        ok_or
          (find
            (λ token.
              is_st0x_token token && matches_token_proof_address parse_address token address)
            tokens)
          (not_found "wrapped ST0x token not found")
    urls ← resolve_proof_subgraph_urls get_subgraph get_metaboard token.network_key
    read_token_proofs token.address urls.0 urls.1
