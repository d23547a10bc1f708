-- ===== src/Tokens/Attempts.antt =====
-- How the requests to a subgraph end.
use st0x_rest_api.Prelude.{
  ℕ, zero, suc, ◌+◌, ◌*◌, ◌<◌, ◌≤◌, ◌≡◌, refl, sym, ap, ◌∙◌, ◌⊎◌, inl, inr, List, [], ◌∷◌, Result,
  arith,
}
use st0x_rest_api.ApiError.{ApiError}
use st0x_rest_api.Tokens.Graphql.{
  Sent, Act, request, pause, subgraph_retry_backoff, AttemptVerdict, retry_after, end_with, verdict,
  last_result, one_attempt, attempts_from, post_graphql,
}

-- Requests with growing pauses between them: `k` pauses, from the pause after the attempt `a` on.
abbrev pub trace : ℕ → ℕ → List Act
trace a zero = request ∷ []
trace a (suc k) = request ∷ pause (subgraph_retry_backoff * a) ∷ trace (suc a) k

module _ {T : Type 0} where
  abbrev pub IsRetried : AttemptVerdict T → Type 0
  IsRetried v = (e : ApiError) × (v ≡ retry_after e)

  abbrev pub IsFinal : AttemptVerdict T → Type 0
  IsFinal v = (r : Result ApiError T) × (v ≡ end_with r)

  AttemptVerdict-cases : (v : AttemptVerdict T) → IsRetried v ⊎ IsFinal v
  AttemptVerdict-cases (retry_after e) = inl (e, refl)
  AttemptVerdict-cases (end_with r) = inr (r, refl)

  -- The `k` attempts from `a` on fail in a way that may pass.
  abbrev pub Retries : (ℕ → Sent T) → ℕ → ℕ → Type 0
  Retries send a zero = Unit
  Retries send a (suc k) = IsRetried (verdict (send a)) × Retries send (suc a) k

  -- The run ends with the attempt that `k` others precede: because of its answer, or as the last.
  abbrev pub Ends : (ℕ → Sent T) → ℕ → ℕ → ℕ → Type 0
  Ends send a left k = Retries send a k × ((k ≡ left) ⊎ IsFinal (verdict (send (k + a))))

  attempts_from-Ends :
      (send : ℕ → Sent T) (a left : ℕ)
      → (k : ℕ) × (k ≤ left)
        × Ends send a left k
        × (attempts_from send a left ≡ (trace a k, last_result (verdict (send (k + a)))))
  unfolding attempts_from
  attempts_from-Ends send a zero = (
    0,
    omega arith,
    (tt, inl refl),
    ap (λ b. (request ∷ [], last_result (verdict (send b)))) (omega arith),
  )
  attempts_from-Ends send a (suc left) = elim (AttemptVerdict-cases (verdict (send a))) [
    | inl (e, again) ↦
        let (k, few, (tries, how), run) = attempts_from-Ends send (suc a) left in
        let place : k + suc a ≡ suc k + a = omega arith in
        (
          suc k,
          omega arith,
          (
            ((e, again), tries),
            (elim how [
              | inl last ↦ inl (ap suc last)
              | inr (r, final) ↦ inr (r, sym (ap (λ b. verdict (send b)) place) ∙ final)
            ]),
          ),
          rw again (
              ap (λ r. (request ∷ pause (subgraph_retry_backoff * a) ∷ r.0, r.1)) run
              ∙ ap (λ b. (trace a (suc k), last_result (verdict (send b)))) place),
        )
    | inr (r, final) ↦
        let here : verdict (send (0 + a)) ≡ end_with r =
          (let place : 0 + a ≡ a = omega arith in ap (λ b. verdict (send b)) place ∙ final) in
        (
          0,
          omega arith,
          (tt, inr (r, here)),
          ap (λ v. one_attempt a v (attempts_from send (suc a) left)) final
              ∙ ap (λ v. (request ∷ [], last_result v)) (sym here),
        )
  ]

-- A request to a subgraph ends after at most three attempts, with the answer of the last one: each
-- attempt before it failed in a way that may pass and was followed by its pause, and the last one
-- is the third, or its answer is final.
pub post_graphql-Ends :
    {T : Type 0} (send : ℕ → Sent T)
    → (k : ℕ) × (k < 3)
      × Ends send 1 2 k
      × (post_graphql send ≡ (trace 1 k, last_result (verdict (send (k + 1)))))
unfolding post_graphql
post_graphql-Ends send =
    let (k, few, ends, run) = attempts_from-Ends send 1 2 in (k, omega arith, ends, run)
