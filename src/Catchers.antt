-- ===== src/Catchers.antt =====
-- src/catchers.rs: what a client gets where no handler answers, because a guard failed, a body could
-- not be read or no route matched. Rocket sends a catcher's body with the status that it catches.
mod Tests
use st0x_rest_api.Prelude.{ℕ, ◌≡◌, ◌≢◌, refl, Option, none, some, String, ◌==◌, if◌then◌else◌}
use st0x_rest_api.ApiError.{
  ApiError, bad_request, unauthorized, forbidden, not_found, internal, rate_limited,
  not_yet_indexed, ErrorResponse, parts, retry_after_for, respond_to,
}

abbrev pub plain_body : ℕ → String → String → String → ErrorResponse
plain_body status code message request_id = record {
  status = status;
  request_id = request_id;
  code = code;
  message = message;
  retry_after = none;
}

unfoldable pub catch_bad_request : String → ErrorResponse
catch_bad_request = plain_body 400 "BAD_REQUEST" "The request was invalid or malformed"

unfoldable pub catch_unauthorized : String → ErrorResponse
catch_unauthorized = plain_body 401 "UNAUTHORIZED" "Missing or invalid credentials"

unfoldable pub catch_forbidden : String → ErrorResponse
catch_forbidden = plain_body 403 "FORBIDDEN" "Insufficient permissions"

unfoldable pub catch_not_found : String → ErrorResponse
catch_not_found = plain_body 404 "NOT_FOUND" "The requested resource was not found"

unfoldable pub unprocessable_entity : String → ErrorResponse
unprocessable_entity = plain_body 422 "UNPROCESSABLE_ENTITY" "Request body could not be parsed"

unfoldable pub rate_limited_response : ErrorResponse → ErrorResponse
rate_limited_response body = record body { retry_after = some "60" }

unfoldable pub too_many_requests : String → ErrorResponse
too_many_requests request_id =
    rate_limited_response
      (plain_body 429 "RATE_LIMITED" "Too many requests, please try again later" request_id)

unfoldable pub internal_server_error : String → ErrorResponse
internal_server_error = plain_body 500 "INTERNAL_ERROR" "Internal server error"

-- The catcher that is registered for a status.
unfoldable pub catchers : ℕ → Option (String → ErrorResponse)
catchers status =
    if status == 400
    then some catch_bad_request
    else if status == 401
    then some catch_unauthorized
    else if status == 403
    then some catch_forbidden
    else if status == 404
    then some catch_not_found
    else if status == 429
    then some too_many_requests
    else if status == 422
    then some unprocessable_entity
    else if status == 500
    then some internal_server_error
    else none

-- An error that is not of the status 202 has a catcher for its status, which sends what the error's
-- own response sends, with the same status, code and headers, up to the message.
pub catchers-respond_to :
    (e : ApiError) (request_id : String)
    → (respond_to e request_id).status ≢ 202
    → (catcher : String → ErrorResponse) × (catchers (respond_to e request_id).status
        ≡ some catcher)
      × (record (catcher request_id) { message = (respond_to e request_id).message }
          ≡ respond_to e request_id)
unfolding catchers respond_to parts retry_after_for catch_bad_request catch_unauthorized
    catch_forbidden catch_not_found too_many_requests internal_server_error rate_limited_response
catchers-respond_to (bad_request msg) request_id h = (catch_bad_request, refl, refl)
catchers-respond_to (unauthorized msg) request_id h = (catch_unauthorized, refl, refl)
catchers-respond_to (forbidden msg) request_id h = (catch_forbidden, refl, refl)
catchers-respond_to (not_found msg) request_id h = (catch_not_found, refl, refl)
catchers-respond_to (internal msg) request_id h = (internal_server_error, refl, refl)
catchers-respond_to (rate_limited msg) request_id h = (too_many_requests, refl, refl)
catchers-respond_to (not_yet_indexed msg) request_id h = absurd (h refl)
