-- ===== src/Tokens/Public.antt =====
-- src/routes/tokens.rs: the list of the tokens of the registry in its public form.
use st0x_rest_api.Prelude.{
  ◌≡◌, refl, ap, Option, none, some, List, [], ◌∷◌, String, str_eq, if◌then◌else◌, map, Result, ok,
  map_ok,
}
use st0x_rest_api.ApiError.{ApiError}
use st0x_rest_api.WrapRatio.{JsonValue, json_text, json_other, TokenCfg, extension}
use st0x_rest_api.Tokens.{registry_tokens}

pub record TokenResponse : Type 0 where
  pub token : TokenCfg
  pub name : Option String
  pub isin : Option String

-- A value that is not a text is printed, except for `null`, which is printed so.
unfoldable pub extract_extension_string : Option JsonValue → Option String
extract_extension_string none = none
extract_extension_string (some (json_text value)) = some value
extract_extension_string (some (json_other printed)) =
    if str_eq printed "null" then none else some printed

-- `or_else`
abbrev or_read : Option String → Option String → Option String
or_read (some value) other = some value
or_read none other = other

-- `From<TokenCfg>`, in which `sanitize_network` clears the RPC endpoints of the network.
unfoldable pub sanitize_network : TokenCfg → TokenCfg
sanitize_network token = record token { rpcs = [] }

unfoldable pub token_response : TokenCfg → TokenResponse
token_response token = record {
  token = sanitize_network token;
  name = token.label;
  isin =
      or_read (extract_extension_string (extension token "isin"))
        (extract_extension_string (extension token "ISIN"));
}

unfoldable pub get_tokens : Option (List TokenCfg) → Result ApiError (List TokenResponse)
get_tokens registry = map_ok (map token_response) (registry_tokens registry)

sanitized :
    (tokens : List TokenCfg)
    → map token_response (map sanitize_network tokens) ≡ map token_response tokens
unfolding token_response sanitize_network
sanitized [] = refl
sanitized (token ∷ tokens) = ap (◌∷◌ (token_response token)) (sanitized tokens)

-- The public list of a registry does not depend on the RPC endpoints of its networks.
pub get_tokens-sanitize_network :
    (tokens : List TokenCfg)
    → get_tokens (some (map sanitize_network tokens)) ≡ get_tokens (some tokens)
unfolding get_tokens registry_tokens
get_tokens-sanitize_network tokens = ap ok (sanitized tokens)
