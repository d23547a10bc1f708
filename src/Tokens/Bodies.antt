-- ===== src/Tokens/Bodies.antt =====
-- The body of an error is read up to the limit.
use st0x_rest_api.Prelude.{
  ℕ, ◌+◌, ◌-◌, ◌^◌, ◌<◌, ◌≤◌, ◌≡◌, refl, sym, ap, ◌∙◌, inl, inr, none, some, List, [], ◌∷◌, ◌++◌,
  ltb, false, length, take, min, Bool-cases, length-append, take-append, length-take, take-take,
  append_nil, append_assoc, take_nil, arith,
}
use st0x_rest_api.Tokens.Graphql.{Chunk, body_loop, saturating_add, read_limited_response_body}

-- The bytes that arrive before an error.
abbrev pub received : List Chunk → List ℕ
received [] = []
received (none ∷ chunks) = []
received (some chunk ∷ chunks) = chunk ++ received chunks

abbrev room : ℕ → List ℕ → ℕ
room max_bytes bytes = max_bytes - length bytes

-- The loop stops as soon as there is no room.
body_loop-full :
    (max_bytes : ℕ) (bytes : List ℕ) (chunks : List Chunk)
    → ltb (length bytes) max_bytes ≡ false
    → body_loop max_bytes bytes chunks ≡ bytes
unfolding body_loop
body_loop-full max_bytes bytes [] h = refl
body_loop-full max_bytes bytes (none ∷ chunks) h = refl
body_loop-full max_bytes bytes (some chunk ∷ chunks) h = rw h refl

body_loop-eq-take :
    (max_bytes : ℕ) (bytes : List ℕ) (chunks : List Chunk)
    → length bytes ≤ max_bytes
    → body_loop max_bytes bytes chunks ≡ bytes ++ take (room max_bytes bytes) (received chunks)
unfolding body_loop
body_loop-eq-take max_bytes bytes [] h =
    sym (ap (◌++◌ bytes) (take_nil (room max_bytes bytes)) ∙ append_nil bytes)
body_loop-eq-take max_bytes bytes (none ∷ chunks) h =
    sym (ap (◌++◌ bytes) (take_nil (room max_bytes bytes)) ∙ append_nil bytes)
body_loop-eq-take max_bytes bytes (some chunk ∷ chunks) h =
    elim (Bool-cases (ltb (length bytes) max_bytes)) [
      | inr full ↦
          let no_room : 0 ≡ room max_bytes bytes = ground arith in
          rw full
            (sym (append_nil bytes) ∙ ap (λ k. bytes ++ take k (chunk ++ received chunks)) no_room)
      | inl open' ↦
          let k = room max_bytes bytes in
          let part = take k chunk in
          let size : length (bytes ++ part) ≡ length bytes + min k (length chunk) =
            length-append bytes part ∙ ap (λ n. length bytes + n) (length-take k chunk) in
          let fits : length (bytes ++ part) ≤ max_bytes = ground (arith, size) in
          let left : room max_bytes (bytes ++ part) ≡ k - length chunk = ground (arith, size) in
          rw open' (
            body_loop-eq-take max_bytes (bytes ++ part) chunks fits
            ∙ append_assoc bytes part (take (room max_bytes (bytes ++ part)) (received chunks))
            ∙ ap (λ n. bytes ++ (part ++ take n (received chunks))) left
            ∙ ap (◌++◌ bytes) (sym (take-append k chunk (received chunks))))
    ]

-- For a limit below the greatest number of 64 bits, what is shown of a body are the first bytes
-- that arrive before an error, as many as the limit allows, and it is marked as truncated exactly
-- if more bytes arrive.
pub read_limited_response_body-eq-take :
    (chunks : List Chunk) (limit : ℕ)
    → limit < 2 ^ 64 - 1
    → read_limited_response_body chunks limit
      ≡ (take limit (received chunks), ltb limit (length (received chunks)))
unfolding read_limited_response_body
read_limited_response_body-eq-take chunks limit h =
    let all = received chunks in
    let size : saturating_add limit 1 ≡ limit + 1 = ground arith in
    let room_for_all : limit + 1 - 0 ≡ limit + 1 = omega arith in
    let loop : body_loop (saturating_add limit 1) [] chunks ≡ take (limit + 1) all =
      ap (λ n. body_loop n [] chunks) size
      ∙ body_loop-eq-take (limit + 1) [] chunks (omega arith)
      ∙ ap (λ n. take n all) room_for_all in
    let longer : ltb limit (length (take (limit + 1) all)) ≡ ltb limit (length all) =
      ground (arith, length-take (limit + 1) all) in
    rw loop (cc (take-take limit (limit + 1) all (omega arith), longer))
