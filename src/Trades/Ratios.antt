-- ===== src/Trades/Ratios.antt =====
-- The detour over the ratios by token and block cannot be seen: a trade of the list is converted
-- by the current ratios of its two tokens.
use mathlib.Core.List.{Memᴰ}
use st0x_rest_api.Prelude.{
  ℕ, ◌≡◌, refl, sym, ap, ◌∙◌, ◌⊎◌, inl, inr, Option, none, some, List, [], ◌∷◌, ◌==◌, ==_iff,
  ==_refl, if◌then◌else◌, Bool-cases, Option-cases, Result, ok, ◌>>=◌, Result-cases, traverse,
  >>=-eq-ok, is_empty,
}
use st0x_rest_api.ApiError.{ApiError}
use st0x_rest_api.Denomination.{Denomination, wrapped, unwrapped, WrapRatioValue, WrapRatioMap}
use st0x_rest_api.Orders.Summaries.{sort_dedup}
use st0x_rest_api.Trades.{
  RaindexTrade, TradesDataSource, wrap_ratios_in, trade_addresses, trade_block_number,
  current_wrap_ratios_for_trades, TradeWrapRatioMap, insert_at, insert_at_if, insert_if,
  input_address, output_address, ratios_by_block, wrap_ratio_map_for_trade,
}

-- Every block number of the trades fits into 64 bits.
abbrev pub Fits : List RaindexTrade → Type 0
Fits [] = Unit
Fits (trade ∷ trades) = ((b : ℕ) × (trade_block_number trade ≡ ok b)) × Fits trades

module _ (current : WrapRatioMap) where
  -- An entry is the current ratio of its token, or missing.
  abbrev IsCurrent : TradeWrapRatioMap → Type 0
  IsCurrent m = (t b : ℕ) → (m t b ≡ none) ⊎ (m t b ≡ current t)

  insert_at-IsCurrent :
      (token block : ℕ) (ratio : WrapRatioValue) (m : TradeWrapRatioMap)
      → current token ≡ some ratio
      → IsCurrent m
      → IsCurrent (insert_at token block ratio m)
  insert_at-IsCurrent token block ratio m h c t b = elim (Bool-cases (token == t)) [
    | inl hit ↦ elim (Bool-cases (block == b)) [
      | inl here ↦ rw (hit, here) (inr (sym h ∙ ap current ((==_iff token t).0 hit)))
      | inr away ↦ rw (hit, away) (c t b)
    ]
    | inr miss ↦ rw miss (c t b)
  ]

  insert_at_if-IsCurrent :
      (token block : ℕ) (m : TradeWrapRatioMap)
      → IsCurrent m
      → IsCurrent (insert_at_if (current token) token block m)
  insert_at_if-IsCurrent token block m c = elim (Option-cases (current token)) [
    | inl none_there ↦ rw none_there c
    | inr (ratio, found) ↦ rw found (insert_at-IsCurrent token block ratio m found c)
  ]

  -- What is inserted is the current ratio, and stays so.
  insert_at-same :
      (token block : ℕ) (ratio : WrapRatioValue) (m : TradeWrapRatioMap)
      → insert_at token block ratio m token block ≡ some ratio
  insert_at-same token block ratio m = rw (==_refl token, ==_refl block) refl

  insert_at_if-same :
      (token block : ℕ) (m : TradeWrapRatioMap)
      → IsCurrent m
      → insert_at_if (current token) token block m token block ≡ current token
  insert_at_if-same token block m c = elim (Option-cases (current token)) [
    | inl none_there ↦
        rw none_there (elim (c token block) [ inl void ↦ void | inr same ↦ same ∙ none_there ])
    | inr (ratio, found) ↦ rw found (insert_at-same token block ratio m)
  ]

  insert_at_if-keeps :
      (token block t b : ℕ) (m : TradeWrapRatioMap)
      → m t b ≡ current t
      → insert_at_if (current token) token block m t b ≡ current t
  insert_at_if-keeps token block t b m h = elim (Option-cases (current token)) [
    | inl none_there ↦ rw none_there h
    | inr (ratio, found) ↦ rw found (elim (Bool-cases (token == t)) [
      | inl hit ↦ elim (Bool-cases (block == b)) [
        | inl here ↦ rw (hit, here) (sym found ∙ ap current ((==_iff token t).0 hit))
        | inr away ↦ rw (hit, away) h
      ]
      | inr miss ↦ rw miss h
    ])
  ]

  -- The ratios of a trade's two tokens at its block.
  abbrev pub HasRatios : TradeWrapRatioMap → RaindexTrade → ℕ → Type 0
  HasRatios m trade b =
      (m (input_address trade) b ≡ current (input_address trade))
      × (m (output_address trade) b ≡ current (output_address trade))

  abbrev add_trade : RaindexTrade → ℕ → TradeWrapRatioMap → TradeWrapRatioMap
  add_trade trade b m =
      insert_at_if (current (output_address trade)) (output_address trade) b
        (insert_at_if (current (input_address trade)) (input_address trade) b m)

  add_trade-IsCurrent :
      (trade : RaindexTrade) (b : ℕ) (m : TradeWrapRatioMap)
      → IsCurrent m
      → IsCurrent (add_trade trade b m)
  add_trade-IsCurrent trade b m c =
      insert_at_if-IsCurrent (output_address trade) b _
        (insert_at_if-IsCurrent (input_address trade) b m c)

  add_trade-HasRatios :
      (trade : RaindexTrade) (b : ℕ) (m : TradeWrapRatioMap)
      → IsCurrent m
      → HasRatios (add_trade trade b m) trade b
  add_trade-HasRatios trade b m c = (
    insert_at_if-keeps (output_address trade) b (input_address trade) b _
        (insert_at_if-same (input_address trade) b m c),
    insert_at_if-same (output_address trade) b _
        (insert_at_if-IsCurrent (input_address trade) b m c),
  )

  add_trade-keeps :
      (trade : RaindexTrade) (b t a : ℕ) (m : TradeWrapRatioMap)
      → m t a ≡ current t
      → add_trade trade b m t a ≡ current t
  add_trade-keeps trade b t a m h =
      insert_at_if-keeps (output_address trade) b t a _
        (insert_at_if-keeps (input_address trade) b t a m h)

  ratios_by_block-keeps :
      (trades : List RaindexTrade) (m r : TradeWrapRatioMap) (t a : ℕ)
      → ratios_by_block current m trades ≡ ok r
      → m t a ≡ current t
      → r t a ≡ current t
  unfolding ratios_by_block
  ratios_by_block-keeps [] m r t a e h = let same : m ≡ r = cc in ap (λ n. n t a) (sym same) ∙ h
  ratios_by_block-keeps (trade ∷ trades) m r t a e h =
      let (b, fits, next) = >>=-eq-ok (trade_block_number trade) _ e in
      ratios_by_block-keeps trades (add_trade trade b m) r t a next
        (add_trade-keeps trade b t a m h)

  ratios_by_block-HasRatios :
      (trades : List RaindexTrade) (m r : TradeWrapRatioMap) (trade : RaindexTrade) (a : ℕ)
      → IsCurrent m
      → ratios_by_block current m trades ≡ ok r
      → Memᴰ trade trades
      → trade_block_number trade ≡ ok a
      → HasRatios r trade a
  unfolding ratios_by_block
  ratios_by_block-HasRatios [] m r trade a c e i k = elim i [ ]
  ratios_by_block-HasRatios (x ∷ trades) m r trade a c e (Memᴰ.tail i) k =
      let (b, fits, next) = >>=-eq-ok (trade_block_number x) _ e in
      ratios_by_block-HasRatios trades (add_trade x b m) r trade a (add_trade-IsCurrent x b m c)
        next i k
  ratios_by_block-HasRatios (x ∷ trades) m r trade a c e (Memᴰ.head same) k =
      let (b, fits, next) = >>=-eq-ok (trade_block_number x) _ e in
      let here : HasRatios (add_trade x b m) x b = add_trade-HasRatios x b m c in
      let kept : HasRatios r x b = (
        ratios_by_block-keeps trades _ r (input_address x) b next here.0,
        ratios_by_block-keeps trades _ r (output_address x) b next here.1,
      ) in
      let block : a ≡ b = cc in rw (same, block) kept

  ratios_by_block-Fits :
      (trades : List RaindexTrade) (m : TradeWrapRatioMap)
      → Fits trades
      → (r : TradeWrapRatioMap) × (ratios_by_block current m trades ≡ ok r)
  unfolding ratios_by_block
  ratios_by_block-Fits [] m h = (m, refl)
  ratios_by_block-Fits (trade ∷ trades) m ((b, fits), hs) =
      let (r, e) = ratios_by_block-Fits trades (add_trade trade b m) hs in (r, rw fits e)

  -- One trade's own map, which has the ratio of its output token and of its input token.
  insert_if-same :
      (x : Option WrapRatioValue) (k : ℕ) (m : WrapRatioMap)
      → (m k ≡ none) ⊎ (m k ≡ x)
      → insert_if x k m k ≡ x
  insert_if-same none k m (inl h) = h
  insert_if-same none k m (inr h) = h
  insert_if-same (some ratio) k m h = rw (==_refl k) refl

  insert_if-keeps :
      (x y : Option WrapRatioValue) (k j : ℕ) (m : WrapRatioMap)
      → m j ≡ y
      → (k ≡ j → x ≡ y)
      → insert_if x k m j ≡ y
  insert_if-keeps none y k j m h same = h
  insert_if-keeps (some ratio) y k j m h same = elim (Bool-cases (k == j)) [
    | inl hit ↦ rw hit (same ((==_iff k j).0 hit))
    | inr miss ↦ rw miss h
  ]

  first_ratio :
      (x y : Option WrapRatioValue) (k j : ℕ)
      → (k ≡ j → x ≡ y)
      → (insert_if x k (λ token. none) j ≡ none) ⊎ (insert_if x k (λ token. none) j ≡ y)
  first_ratio none y k j same = inl refl
  first_ratio (some ratio) y k j same = elim (Bool-cases (k == j)) [
    | inl hit ↦ rw hit (inr (same ((==_iff k j).0 hit)))
    | inr miss ↦ rw miss (inl refl)
  ]

  wrap_ratio_map_for_trade-tokens :
      (i o b : ℕ) (m : TradeWrapRatioMap)
      → m i b ≡ current i
      → m o b ≡ current o
      → (wrap_ratio_map_for_trade i o b m i ≡ current i)
        × (wrap_ratio_map_for_trade i o b m o ≡ current o)
  unfolding wrap_ratio_map_for_trade
  wrap_ratio_map_for_trade-tokens i o b m h k = (
    insert_if-keeps (m o b) (current i) o i _
        (insert_if-same (m i b) i (λ token. none) (inl refl) ∙ h) (λ same. k ∙ ap current same),
    insert_if-same (m o b) o _
          (first_ratio (m i b) (m o b) i o (λ same. h ∙ ap current same ∙ sym k))
        ∙ k,
  )

-- The ratios that the request asks for: none for the wrapped denomination or without trades.
abbrev pub ratios_asked :
    TradesDataSource → Denomination → List RaindexTrade → Result ApiError WrapRatioMap
ratios_asked ds wrapped trades = ok (λ token. none)
ratios_asked ds unwrapped trades =
    if is_empty trades
    then ok (λ token. none)
    else ds.get_current_wrap_ratios_for_tokens (sort_dedup (trade_addresses trades))

-- The trades are converted by the same ratios, whether by token and block or by token.
abbrev pub Shares : Denomination → TradeWrapRatioMap → WrapRatioMap → List RaindexTrade → Type 0
Shares d m current trades =
    (trade : RaindexTrade) (b : ℕ)
    → Memᴰ trade trades
    → trade_block_number trade ≡ ok b
    → (wrap_ratios_in d m trade b (input_address trade) ≡ current (input_address trade))
      × (wrap_ratios_in d m trade b (output_address trade) ≡ current (output_address trade))

module _ {Y : Type 0} (k : TradeWrapRatioMap → Result ApiError Y)
    (k' : WrapRatioMap → Result ApiError Y) where
  after_ratios :
      (current : WrapRatioMap) (trades : List RaindexTrade)
      → Fits trades
      → ((m : TradeWrapRatioMap) → Shares unwrapped m current trades → k m ≡ k' current)
      → (ratios_by_block current (λ token block. none) trades >>= k) ≡ k' current
  unfolding wrap_ratios_in
  after_ratios current trades fits h =
      let (r, e) = ratios_by_block-Fits current trades (λ token block. none) fits in
      let shares : Shares unwrapped r current trades = (λ trade b i found.
        let (input, output) =
          ratios_by_block-HasRatios current trades _ r trade b (λ t a. inl refl) e i found in
        wrap_ratio_map_for_trade-tokens current (input_address trade) (output_address trade) b r
          input output) in
      rw e (h r shares)

  pub shared_ratios :
      (ds : TradesDataSource) (d : Denomination) (trades : List RaindexTrade)
      → Fits trades
      → ((m : TradeWrapRatioMap) (current : WrapRatioMap)
          → Shares d m current trades
          → k m ≡ k' current)
      → (current_wrap_ratios_for_trades ds d trades >>= k) ≡ (ratios_asked ds d trades >>= k')
  unfolding current_wrap_ratios_for_trades wrap_ratios_in
  shared_ratios ds wrapped trades fits h =
      h (λ token block. none) (λ token. none) (λ trade b i e. (refl, refl))
  shared_ratios ds unwrapped [] fits h =
      h (λ token block. none) (λ token. none) (λ trade b i e. elim i [ ])
  shared_ratios ds unwrapped (x ∷ trades) fits h =
      elim (Result-cases
        (ds.get_current_wrap_ratios_for_tokens (sort_dedup (trade_addresses (x ∷ trades))))) [
          | inl (current, found) ↦
              rw found (after_ratios current (x ∷ trades) fits (λ m. h m current))
          | inr (e, failed) ↦ rw failed refl
        ]

-- `traverse` depends on a function at the members only.
pub traverse-ext {ℓ κ} :
    {A : Type ℓ} {B : Type κ} (f g : A → Result ApiError B) (xs : List A)
    → ((x : A) → Memᴰ x xs → f x ≡ g x)
    → traverse f xs ≡ traverse g xs
traverse-ext f g [] h = refl
traverse-ext f g (x ∷ xs) h =
    rw (h x (Memᴰ.head refl), traverse-ext f g xs (λ y m. h y (Memᴰ.tail m))) refl
