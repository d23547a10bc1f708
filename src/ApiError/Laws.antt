-- ===== src/ApiError/Laws.antt =====
-- What a client can read off an error response.
use st0x_rest_api.Prelude.{◌≡◌, refl, sym, ap, ◌∙◌, ◌↔◌, some, String, arith, ◌==◌, if◌then◌else◌}
use st0x_rest_api.ApiError.{
  ApiError, bad_request, unauthorized, forbidden, not_found, internal, rate_limited,
  not_yet_indexed, ErrorResponse, respond_to, api_error_message,
}

-- The error that a client reconstructs from the status code and the message.
decode_error : ErrorResponse → ApiError
decode_error r =
    if r.status == 400
    then bad_request r.message
    else if r.status == 401
    then unauthorized r.message
    else if r.status == 403
    then forbidden r.message
    else if r.status == 404
    then not_found r.message
    else if r.status == 429
    then rate_limited r.message
    else if r.status == 202
    then not_yet_indexed r.message
    else internal r.message

decode_error-respond_to : (e : ApiError) (id : String) → decode_error (respond_to e id) ≡ e
unfolding decode_error respond_to
decode_error-respond_to (bad_request msg) id = refl
decode_error-respond_to (unauthorized msg) id = refl
decode_error-respond_to (forbidden msg) id = refl
decode_error-respond_to (not_found msg) id = refl
decode_error-respond_to (internal msg) id = refl
decode_error-respond_to (rate_limited msg) id = refl
decode_error-respond_to (not_yet_indexed msg) id = refl

-- An error can be told from its response: two errors that give one response to the same request
-- are the same error, with the same message.
pub respond_to_injective :
    (e f : ApiError) (id : String) → respond_to e id ≡ respond_to f id → e ≡ f
respond_to_injective e f id h =
    sym (decode_error-respond_to e id) ∙ (ap decode_error h ∙ decode_error-respond_to f id)

-- The body's message is the error's own text, and the header `Retry-After: 60` is sent exactly
-- with the status 429.
pub respond_to_headers :
    (e : ApiError) (id : String)
    → ((respond_to e id).message ≡ api_error_message e)
      × (((respond_to e id).retry_after ≡ some "60") ↔ ((respond_to e id).status ≡ 429))
unfolding respond_to api_error_message
respond_to_headers (bad_request msg) id = (refl, ground arith)
respond_to_headers (unauthorized msg) id = (refl, ground arith)
respond_to_headers (forbidden msg) id = (refl, ground arith)
respond_to_headers (not_found msg) id = (refl, ground arith)
respond_to_headers (internal msg) id = (refl, ground arith)
respond_to_headers (rate_limited msg) id = (refl, ground arith)
respond_to_headers (not_yet_indexed msg) id = (refl, ground arith)
