-- ===== src/RateLimiter/Log.antt =====
-- The abstract limiter: a log of every admitted instant, and no window. A call is admitted if
-- fewer than `rpm` of the admitted instants lie within the last 60 seconds.
use st0x_rest_api.Prelude.{
  ℕ, ◌+◌, ◌-◌, ◌≤◌, ◌≡◌, refl, sym, Bool, true, false, ◌&&◌, List, [], ◌∷◌, ◌++◌, arith, ltb, leb,
  if◌then◌else◌, length, length-append, keep,
}
use mathlib.Core.List.{append_assoc, append-nil}
use st0x_rest_api.RateLimiter.{window_duration}

-- How many admitted instants lie within the last 60 seconds.
unfoldable pub recent : ℕ → List ℕ → ℕ
recent now log = length (keep (leb (now - window_duration)) log)

unfoldable pub log_step : ℕ → List ℕ → ℕ → List ℕ × Bool
log_step rpm log now = if ltb (recent now log) rpm then (log ++ now ∷ [], true) else (log, false)

-- The decisions on a sequence of calls.
unfoldable pub sliding_log : ℕ → List ℕ → List ℕ → List Bool
unfolding log_step recent
sliding_log rpm log [] = []
sliding_log rpm log (now ∷ later) =
    let (log', allowed) = log_step rpm log now in allowed ∷ sliding_log rpm log' later

-- The instants at which a sequence of decisions admits.
abbrev pub admitted : List Bool → List ℕ → List ℕ
admitted [] times = []
admitted (b ∷ flags) [] = []
admitted (b ∷ flags) (t ∷ times) = if b then t ∷ admitted flags times else admitted flags times

-- The instants from `lo` up to `lo` and 60 seconds.
abbrev pub in_span : ℕ → List ℕ → List ℕ
in_span lo = keep (λ t. leb lo t && leb t (lo + window_duration))

keep-append : (p : ℕ → Bool) (xs ys : List ℕ) → keep p (xs ++ ys) ≡ keep p xs ++ keep p ys
keep-append p [] ys = refl
keep-append p (x ∷ xs) ys = ground (arith, keep-append p xs ys)

length-in_span-le :
    (lo c : ℕ) (log : List ℕ) → c ≤ lo → length (in_span lo log) ≤ length (keep (leb c) log)
length-in_span-le lo c [] h = omega arith
length-in_span-le lo c (t ∷ log) h = ground (arith, length-in_span-le lo c log h)

log_step-in_span :
    (rpm lo now : ℕ) (log : List ℕ)
    → length (in_span lo log) ≤ rpm
    → length (in_span lo (log_step rpm log now).0) ≤ rpm
unfolding log_step recent
log_step-in_span rpm lo now log h = ground (
  arith,
  keep-append (λ t. leb lo t && leb t (lo + window_duration)) log (now ∷ []),
  length-append (in_span lo log) (in_span lo (now ∷ [])),
  length-in_span-le lo (now - window_duration) log,
)

-- The log at the end of a sequence of calls.
final_log : ℕ → List ℕ → List ℕ → List ℕ
unfolding log_step recent
final_log rpm log [] = log
final_log rpm log (now ∷ later) = final_log rpm (log_step rpm log now).0 later

final_log-eq-admitted :
    (rpm : ℕ) (log times : List ℕ)
    → final_log rpm log times ≡ log ++ admitted (sliding_log rpm log times) times
unfolding final_log sliding_log
final_log-eq-admitted rpm log [] = sym (append-nil log)
final_log-eq-admitted rpm log (now ∷ later) = ground (
  arith,
  final_log-eq-admitted rpm log later,
  final_log-eq-admitted rpm (log ++ now ∷ []) later,
  append_assoc log (now ∷ []) (admitted (sliding_log rpm (log ++ now ∷ []) later) later),
)

final_log-in_span :
    (rpm lo : ℕ) (log times : List ℕ)
    → length (in_span lo log) ≤ rpm
    → length (in_span lo (final_log rpm log times)) ≤ rpm
unfolding final_log
final_log-in_span rpm lo log [] h = h
final_log-in_span rpm lo log (now ∷ later) h =
    final_log-in_span rpm lo (log_step rpm log now).0 later (log_step-in_span rpm lo now log h)

-- Over any calls from an empty log, no span of 60 seconds holds more than `rpm` admissions.
pub sliding_log-in_span :
    (rpm lo : ℕ) (times : List ℕ)
    → length (in_span lo (admitted (sliding_log rpm [] times) times)) ≤ rpm
sliding_log-in_span rpm lo times =
    rw (final_log-eq-admitted rpm [] times) at (final_log-in_span rpm lo [] times (omega arith))
