-- ===== src/Sdk.antt =====
-- The values that the program reads from the raindex client (a third-party package): a record
-- holds what the accessors of one type return. Addresses, hashes and 256-bit words are numbers.
mod Word
pub use Word.*
use st0x_rest_api.Prelude.{ℕ, Bool, Option, List, String}
use st0x_rest_api.Bytes.{ByteString}

pub data VaultType : Type 0 where
  input output input_output : VaultType

pub record TokenInfo : Type 0 where
  pub address : ℕ
  pub name : Option String
  pub symbol : Option String
  pub decimals : ℕ

pub record RaindexVault : Type 0 where
  pub vault_id : ℕ
  pub vault_type : Option VaultType
  pub token : TokenInfo
  pub balance : ℕ
  pub formatted_balance : String

-- `builder_deployments` are the deployments that the builder states among the parsed metas select.
pub record RaindexOrder : Type 0 where
  pub chain_id : ℕ
  pub raindex : ℕ
  pub order_hash : ℕ
  pub owner : ℕ
  pub order_bytes : ByteString
  pub active : Bool
  pub timestamp_added : ℕ
  pub timestamp_removed : Option ℕ
  pub rainlang : Option ByteString
  pub dotrain_source : Option ByteString
  pub vaults_list : List RaindexVault
  pub inputs_list : List RaindexVault
  pub outputs_list : List RaindexVault
  pub builder_deployments : List ByteString

pub record QuoteValue : Type 0 where
  pub formatted_ratio : String
  pub formatted_max_output : String

-- A quote whose simulation failed has no value.
pub record RaindexOrderQuote : Type 0 where
  pub value : Option QuoteValue
