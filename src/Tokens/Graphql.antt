-- ===== src/Tokens/Graphql.antt =====
-- src/routes/tokens.rs: the requests to a subgraph, tried again after a failure that may pass, and
-- the body of an error that is read up to a limit.
use st0x_rest_api.Prelude.{
  ℕ, zero, suc, ◌+◌, ◌-◌, ◌*◌, ◌^◌, Bool, ◌||◌, ◌&&◌, Option, none, some, List, [], ◌∷◌, ◌++◌,
  String, ltb, leb, ◌==◌, if◌then◌else◌, length, take, min, Result, err, ok_or,
}
use st0x_rest_api.ApiError.{ApiError, internal}

abbrev pub subgraph_max_attempts : ℕ
subgraph_max_attempts = 3

-- In milliseconds.
abbrev pub subgraph_retry_backoff : ℕ
subgraph_retry_backoff = 250

-- The decoded answer of a subgraph.
pub record GraphqlResponse (T : Type 0) : Type 0 where
  pub data' : Option T
  pub errors : Option String

-- What the package reqwest returns for a request: an error, a status that is no success, or a
-- successful answer whose body may fail to decode.
pub data Sent (T : Type 0) : Type 0 where
  not_sent : Sent T
  refused : ℕ → Sent T
  answered : Option (GraphqlResponse T) → Sent T

unfoldable pub should_retry : ℕ → Bool
should_retry status = status == 408 || (status == 429 || (leb 500 status && ltb status 600))

-- What the program did: a request, or a pause in milliseconds.
pub data Act : Type 0 where
  request : Act
  pause : ℕ → Act

abbrev reject_errors : {T : Type 0} → GraphqlResponse T → Result ApiError T
reject_errors body = elim body.errors [
  | some errors ↦ err (internal "subgraph returned GraphQL errors")
  | none ↦ ok_or body.data' (internal "subgraph response missing data")
]

unfoldable pub decoded : {T : Type 0} → Option (GraphqlResponse T) → Result ApiError T
decoded none = err (internal "failed to decode subgraph response")
decoded (some body) = reject_errors body

-- What an attempt decides: to try again with the error kept as the last one, or to end.
pub data AttemptVerdict (T : Type 0) : Type 0 where
  retry_after : ApiError → AttemptVerdict T
  end_with : Result ApiError T → AttemptVerdict T

module _ {T : Type 0} where
  unfoldable pub verdict : Sent T → AttemptVerdict T
  verdict not_sent = retry_after (internal "failed to query subgraph")
  verdict (answered body) = end_with (decoded body)
  verdict (refused status) =
      if should_retry status
      then retry_after (internal "subgraph returned error status")
      else end_with (err (internal "subgraph returned error status"))

  -- The result where no attempt is left.
  abbrev pub last_result : AttemptVerdict T → Result ApiError T
  last_result (retry_after e) = err e
  last_result (end_with r) = r

  -- One attempt, and what the attempts after it do.
  abbrev pub one_attempt :
      ℕ → AttemptVerdict T → List Act × Result ApiError T → List Act × Result ApiError T
  one_attempt attempt (retry_after e) later =
      (request ∷ pause (subgraph_retry_backoff * attempt) ∷ later.0, later.1)
  one_attempt attempt (end_with r) later = (request ∷ [], r)

  -- The loop over `attempt..=SUBGRAPH_MAX_ATTEMPTS`, with the number of the attempts after this
  -- one. `send` gives the answer to an attempt.
  unfoldable pub attempts_from : (ℕ → Sent T) → ℕ → ℕ → List Act × Result ApiError T
  attempts_from send attempt zero = (request ∷ [], last_result (verdict (send attempt)))
  attempts_from send attempt (suc others) =
      let later = attempts_from send (suc attempt) others in
      one_attempt attempt (verdict (send attempt)) later

  unfoldable pub post_graphql : (ℕ → Sent T) → List Act × Result ApiError T
  post_graphql send = attempts_from send 1 (subgraph_max_attempts - 1)

-- A part of a body as it arrives: bytes, or an error.
abbrev pub Chunk : Type 0
Chunk = Option (List ℕ)

unfoldable pub body_loop : ℕ → List ℕ → List Chunk → List ℕ
body_loop max_bytes bytes [] = bytes
body_loop max_bytes bytes (none ∷ chunks) = bytes
body_loop max_bytes bytes (some chunk ∷ chunks) =
    let rest = body_loop max_bytes (bytes ++ take (max_bytes - length bytes) chunk) chunks in
    if ltb (length bytes) max_bytes then rest else bytes

-- `saturating_add` of `u64`
abbrev pub saturating_add : ℕ → ℕ → ℕ
saturating_add a b = min (a + b) (2 ^ 64 - 1)

-- The bytes that are shown, and whether the text that tells of a truncation follows them.
unfoldable pub read_limited_response_body : List Chunk → ℕ → List ℕ × Bool
read_limited_response_body chunks limit =
    let bytes = body_loop (saturating_add limit 1) [] chunks in
    (take limit bytes, ltb limit (length bytes))
