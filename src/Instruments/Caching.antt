-- ===== src/Instruments/Caching.antt =====
-- The two caches of the symbol resolution.
use pynecore_plugin_bybit.Prelude.Texts.{codes, same_text}
use pynecore_plugin_bybit.Prelude.{
  ℕ, true, ◌≡◌, refl, sym, ap, ◌∙◌, inl, inr, Bool-cases, Option, none, some, List, [], ◌∷◌, ◌==◌,
  String, arith,
}
use pynecore_plugin_bybit.Errors.{
  BybitError, bybit, connection, adoption_baseline, position_data, symbol, unsupported_timeframe,
  api,
}
use pynecore_plugin_bybit.Instruments.Info.{
  Category, spot, linear, inverse, Number, InstrumentInfo, parse_instrument,
}
use pynecore_plugin_bybit.Instruments.Resolve.{
  same_category, Cache, cached, Answer, listed, refused, Found, instrument, not_listed, raised,
  on_refusal, params_error_code, remember, on_answer, cached_or_asked, fetch_instrument, Chart, pin,
  repin, pinned, market_on, market_for, get_market, resolve_market,
}

same_text_refl : (s : List ℕ) → same_text s s ≡ true
unfolding same_text
same_text_refl [] = refl
same_text_refl (c ∷ s) = ground (arith, same_text_refl s)

same_category_refl : (c : Category) → same_category c c ≡ true
same_category_refl spot = refl
same_category_refl linear = refl
same_category_refl inverse = refl

cached-remember :
    (c : Category) (i : InstrumentInfo) (cache : Cache)
    → cached c (codes i.symbol) (remember c i cache) ≡ some i
unfolding cached remember
cached-remember c i cache = elim (Bool-cases (same_category i.category c)) [
  | inl same ↦ rw (same, same_text_refl (codes i.symbol)) refl
  | inr other ↦ rw (other, same_category_refl c, same_text_refl (codes i.symbol)) refl
]

on_refusal-finds_none : (e : BybitError) (i : InstrumentInfo) → on_refusal e ≡ instrument i → ⊥
unfolding on_refusal
on_refusal-finds_none (api e) i h = elim (Bool-cases (e.ret_code == params_error_code)) [
  | inl unknown ↦ cc
  | inr other ↦ cc
]
on_refusal-finds_none (bybit m) i h = cc
on_refusal-finds_none (connection m) i h = cc
on_refusal-finds_none (adoption_baseline m) i h = cc
on_refusal-finds_none (position_data m) i h = cc
on_refusal-finds_none (symbol m) i h = cc
on_refusal-finds_none (unsupported_timeframe m) i h = cc

module _ (read_float : String → Option Number) where
  -- the cache holds the instrument that was found under the name
  asked-cached :
      (c : Category) (name : List ℕ) (answer : Answer) (cache : Cache) (i : InstrumentInfo)
      → (on_answer read_float c answer cache).0 ≡ instrument i
      → codes i.symbol ≡ name
      → cached c name (on_answer read_float c answer cache).1 ≡ some i
  unfolding on_answer
  asked-cached c name (refused e) cache i h k = absurd (on_refusal-finds_none e i h)
  asked-cached c name (listed []) cache i h k = absurd (cc)
  asked-cached c name (listed (raw ∷ rest)) cache i h k =
      let same : parse_instrument read_float c raw ≡ i = cc in
      rw (same, sym k) (cached-remember c i cache)

  found-cached :
      (c : Category) (name : List ℕ) (answer : Answer) (known : Option InstrumentInfo)
      (cache : Cache) (i : InstrumentInfo)
      → cached c name cache ≡ known
      → (cached_or_asked read_float c answer known cache).0 ≡ instrument i
      → codes i.symbol ≡ name
      → cached c name (cached_or_asked read_float c answer known cache).1 ≡ some i
  unfolding cached_or_asked
  found-cached c name answer none cache i e h k = asked-cached c name answer cache i h k
  found-cached c name answer (some j) cache i e h k = let same : j ≡ i = cc in e ∙ ap some same

  -- An instrument that was found once under its name is found again, the same and with the cache as
  -- it was, whatever the venue then answers.
  pub fetch_instrument_again :
      (venue later : Category → List ℕ → Answer) (c : Category) (name : List ℕ) (cache : Cache)
      (i : InstrumentInfo)
      → (fetch_instrument read_float venue c name cache).0 ≡ instrument i
      → codes i.symbol ≡ name
      → let after = (fetch_instrument read_float venue c name cache).1 in
        fetch_instrument read_float later c name after ≡ (instrument i, after)
  unfolding fetch_instrument
  fetch_instrument_again venue later c name cache i h k =
      let found = found-cached c name (venue c name) (cached c name cache) cache i refl h k in
      ap
        (λ known.
          cached_or_asked read_float c (later c name) known
            (cached_or_asked read_float c (venue c name) (cached c name cache) cache).1)
        found
      ∙ (unfold cached_or_asked in refl)

  pin-found :
      (name : List ℕ) (chart : Chart) (r : Found × Cache) (i : InstrumentInfo)
      → (pin name chart r).0 ≡ instrument i
      → let after = (pin name chart r).1 in
        (after.chart_symbol ≡ chart.chart_symbol)
        × (after.market ≡ some i)
        × (after.market_symbol ≡ some name)
  unfolding pin
  pin-found name chart (instrument j, cache) i h =
      let same : j ≡ i = cc in (refl, ap some same, refl)
  pin-found name chart (not_listed, cache) i h = absurd (cc)
  pin-found name chart (raised e, cache) i h = absurd (cc)

  -- the chart's market is pinned under its symbol
  abbrev Settled : List ℕ → InstrumentInfo → Chart → Type 0
  Settled name i chart =
      (key : List ℕ) × (chart.chart_symbol ≡ some name)
      × (chart.market ≡ some i)
      × (chart.market_symbol ≡ some key)
      × (same_text key name ≡ true)

  repin-Settled :
      (venue : Category → List ℕ → Answer) (name : List ℕ) (chart : Chart) (i : InstrumentInfo)
      → chart.chart_symbol ≡ some name
      → (repin read_float venue name chart).0 ≡ instrument i
      → Settled name i (repin read_float venue name chart).1
  unfolding repin
  repin-Settled venue name chart i at h =
      let (kept, market, key) =
        pin-found name chart
          (resolve_market read_float venue (chart.resolve_symbol name) chart.instruments) i h in
      (name, kept ∙ at, market, key, same_text_refl name)

  pinned-Settled :
      (venue : Category → List ℕ → Answer) (name : List ℕ) (j : InstrumentInfo)
      (key : Option (List ℕ)) (chart : Chart) (i : InstrumentInfo)
      → chart.chart_symbol ≡ some name
      → chart.market ≡ some j
      → chart.market_symbol ≡ key
      → (pinned read_float venue name j key chart).0 ≡ instrument i
      → Settled name i (pinned read_float venue name j key chart).1
  unfolding pinned
  pinned-Settled venue name j none chart i at held key h =
      let same : j ≡ i = cc in (name, at, held ∙ ap some same, refl, same_text_refl name)
  pinned-Settled venue name j (some k) chart i at held key h =
      elim (Bool-cases (same_text k name)) [
        | inl same ↦ let here : j ≡ i = cc in rw same (k, at, held ∙ ap some here, key, same)
        | inr other ↦ rw other (repin-Settled venue name chart i at (rw other at h))
      ]

  market_on-Settled :
      (venue : Category → List ℕ → Answer) (name : List ℕ) (market : Option InstrumentInfo)
      (chart : Chart) (i : InstrumentInfo)
      → chart.chart_symbol ≡ some name
      → chart.market ≡ market
      → (market_on read_float venue name market chart).0 ≡ instrument i
      → Settled name i (market_on read_float venue name market chart).1
  unfolding market_on
  market_on-Settled venue name none chart i at held h = repin-Settled venue name chart i at h
  market_on-Settled venue name (some j) chart i at held h =
      pinned-Settled venue name j chart.market_symbol chart i at held refl h

  Settled-market_for :
      (later : Category → List ℕ → Answer) (c : ℕ) (name : List ℕ) (i : InstrumentInfo)
      (chart : Chart)
      → Settled (c ∷ name) i chart
      → get_market read_float later chart ≡ (instrument i, chart)
  unfolding get_market market_for market_on pinned
  Settled-market_for later c name i chart (key, at, held, pinned_under, same) =
      rw (at, held, pinned_under, same) refl

  market_for-again :
      (venue later : Category → List ℕ → Answer) (s : Option (List ℕ)) (chart : Chart)
      (i : InstrumentInfo)
      → chart.chart_symbol ≡ s
      → (market_for read_float venue s chart).0 ≡ instrument i
      → let after = (market_for read_float venue s chart).1 in
        get_market read_float later after ≡ (instrument i, after)
  unfolding market_for
  market_for-again venue later none chart i at h = absurd (cc)
  market_for-again venue later (some []) chart i at h = absurd (cc)
  market_for-again venue later (some (c ∷ name)) chart i at h =
      Settled-market_for later c name i _
        (market_on-Settled venue (c ∷ name) chart.market chart i at refl h)

  -- A market that was resolved is pinned: as long as the chart's symbol stays, `_get_market` gives the
  -- same instrument and changes nothing, whatever the venue then answers.
  pub get_market_again :
      (venue later : Category → List ℕ → Answer) (chart : Chart) (i : InstrumentInfo)
      → (get_market read_float venue chart).0 ≡ instrument i
      → let after = (get_market read_float venue chart).1 in
        get_market read_float later after ≡ (instrument i, after)
  unfolding get_market
  get_market_again venue later chart i h =
      market_for-again venue later chart.chart_symbol chart i refl h
