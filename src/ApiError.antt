-- ===== src/ApiError.antt =====
-- src/error.rs: the API's errors and the response that each becomes.
pub mod Laws
use st0x_rest_api.Prelude.{ℕ, Option, none, some, String}

pub data ApiError : Type 0 where
  bad_request : String → ApiError
  unauthorized : String → ApiError
  forbidden : String → ApiError
  not_found : String → ApiError
  internal : String → ApiError
  rate_limited : String → ApiError
  not_yet_indexed : String → ApiError

-- What the client sees of an error: the status, the body's code and message, the request's id,
-- and the `Retry-After` header.
pub record ErrorResponse : Type 0 where
  pub status : ℕ
  pub request_id : String
  pub code : String
  pub message : String
  pub retry_after : Option String

-- The triple that `respond_to` computes first.
unfoldable pub parts : ApiError → ℕ × String × String
parts (bad_request msg) = (400, "BAD_REQUEST", msg)
parts (unauthorized msg) = (401, "UNAUTHORIZED", msg)
parts (forbidden msg) = (403, "FORBIDDEN", msg)
parts (not_found msg) = (404, "NOT_FOUND", msg)
parts (internal msg) = (500, "INTERNAL_ERROR", msg)
parts (rate_limited msg) = (429, "RATE_LIMITED", msg)
parts (not_yet_indexed msg) = (202, "NOT_YET_INDEXED", msg)

unfoldable pub retry_after_for : ApiError → Option String
retry_after_for (rate_limited msg) = some "60"
retry_after_for _ = none

-- The JSON body always serializes: its fields are texts.
unfoldable pub respond_to : ApiError → String → ErrorResponse
unfolding parts retry_after_for
respond_to e request_id =
    let (status, code, message) = parts e in
    record {
      status = status;
      request_id = request_id;
      code = code;
      message = message;
      retry_after = retry_after_for e;
    }

-- `api_error_message` of routes/tokens.rs.
pub api_error_message : ApiError → String
api_error_message (bad_request msg) = msg
api_error_message (unauthorized msg) = msg
api_error_message (forbidden msg) = msg
api_error_message (not_found msg) = msg
api_error_message (internal msg) = msg
api_error_message (rate_limited msg) = msg
api_error_message (not_yet_indexed msg) = msg
