-- ===== src/AppCache.antt =====
-- src/cache.rs: a cache of responses, as a function from its keys. The keys are compared by `same`.
-- Entries that expire are gone before a call, which the given cache says.
use st0x_rest_api.Prelude.{
  ◌≡◌, refl, sym, ap, ◌∙◌, inl, inr, Bool, true, Option, none, some, if◌then◌else◌, Bool-cases,
  Option-cases, Result, ok, err, Result-cases,
}

abbrev pub AppCache : Type 0 → Type 0 → Type 0
AppCache K V = K → Option V

unfoldable pub insert : {K V : Type 0} → (K → K → Bool) → K → V → AppCache K V → AppCache K V
insert same key value cache j = if same key j then some value else cache j

module _ {K V E : Type 0} (same : K → K → Bool) where
  -- `try_get_with`: an answer that is not there is fetched, and kept unless it is an error.
  abbrev pub fetched : AppCache K V → K → Result E V → AppCache K V × Result E V
  fetched cache key (ok value) = (insert same key value cache, ok value)
  fetched cache key (err e) = (cache, err e)

  abbrev pub get_or_fetch : AppCache K V → K → Option V → Result E V → AppCache K V × Result E V
  get_or_fetch cache key (some value) fetch = (cache, ok value)
  get_or_fetch cache key none fetch = fetched cache key fetch

  unfoldable pub get_or_try_insert : AppCache K V → K → Result E V → AppCache K V × Result E V
  get_or_try_insert cache key fetch = get_or_fetch cache key (cache key) fetch

  -- What the cache has at a key is the answer for the key.
  abbrev pub Holds : (K → Result E V) → AppCache K V → Type 0
  Holds answer cache = (key : K) (value : V) → cache key ≡ some value → answer key ≡ ok value

  -- A cache that holds answers gives the answer and holds answers afterwards.
  pub get_or_try_insert-Holds :
      (answer : K → Result E V) (cache : AppCache K V) (key : K)
      → ((j k : K) → same j k ≡ true → j ≡ k)
      → Holds answer cache
      → ((get_or_try_insert cache key (answer key)).1 ≡ answer key)
        × Holds answer (get_or_try_insert cache key (answer key)).0
  unfolding get_or_try_insert insert
  get_or_try_insert-Holds answer cache key sound h = elim (Option-cases (cache key)) [
    | inr (value, hit) ↦ rw hit (sym (h key value hit), h)
    | inl missed ↦ rw missed (elim (Result-cases (answer key)) [
      | inr (e, failed) ↦ rw failed (refl, h)
      | inl (value, read) ↦ rw read (
        refl,
        λ j v found. elim (Bool-cases (same key j)) [
          | inl hit ↦
              let new : some value ≡ some v = rw hit at found in
              sym (ap answer (sound key j hit)) ∙ read ∙ cc
          | inr other ↦ let old : cache j ≡ some v = rw other at found in h j v old
        ],
      )
    ])
  ]
