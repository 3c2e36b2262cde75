-- ===== src/Instruments/Resolve.antt =====
-- The resolution of the chart's symbol in pynecore_bybit/provider.py, with its two caches. `venue`
-- answers `instruments-info` for a category and a name.
use pynecore_plugin_bybit.Prelude.Texts.{codes, same_text}
use pynecore_plugin_bybit.Prelude.{
  ℕ, Bool, true, false, Option, none, some, List, [], ◌∷◌, ◌==◌, ◌&&◌, if◌then◌else◌, String,
}
use pynecore_plugin_bybit.Errors.{BybitError, api, symbol}
use pynecore_plugin_bybit.Instruments.Info.{
  Category, spot, linear, inverse, Number, RawInstrument, InstrumentInfo, parse_instrument,
}
use pynecore_plugin_bybit.Instruments.Symbols.{probes_of}

abbrev pub same_category : Category → Category → Bool
same_category spot spot = true
same_category linear linear = true
same_category inverse inverse = true
same_category _ _ = false

-- `_instruments`, newest first: the first row of a key is its value
abbrev pub Cache : Type 0
Cache = List ((Category × List ℕ) × InstrumentInfo)

unfoldable pub cached : Category → List ℕ → Cache → Option InstrumentInfo
cached c name [] = none
cached c name (((d, key), i) ∷ rest) =
    let later = cached c name rest in
    if same_category d c && same_text key name then some i else later

-- the `result.list`, or what the call raised
pub data Answer : Type 0 where
  listed : List RawInstrument → Answer
  refused : BybitError → Answer

pub data Found : Type 0 where
  instrument : InstrumentInfo → Found
  not_listed : Found
  raised : BybitError → Found

-- `_PARAMS_ERROR_CODE`
abbrev pub params_error_code : ℕ
params_error_code = 10001

unfoldable pub on_refusal : BybitError → Found
on_refusal (api e) = if e.ret_code == params_error_code then not_listed else raised (api e)
on_refusal e = raised e

-- the instrument under the category of the query and under its own
unfoldable pub remember : Category → InstrumentInfo → Cache → Cache
remember queried i cache =
    ((i.category, codes i.symbol), i) ∷ ((queried, codes i.symbol), i) ∷ cache

unfoldable pub on_answer : (String → Option Number) → Category → Answer → Cache → Found × Cache
on_answer read_float queried (refused e) cache = (on_refusal e, cache)
on_answer read_float queried (listed []) cache = (not_listed, cache)
on_answer read_float queried (listed (raw ∷ _)) cache =
    let i = parse_instrument read_float queried raw in (instrument i, remember queried i cache)

-- the cached instrument, or what the venue answers
unfoldable pub cached_or_asked :
    (String → Option Number) → Category → Answer → Option InstrumentInfo → Cache → Found × Cache
cached_or_asked read_float queried answer (some i) cache = (instrument i, cache)
cached_or_asked read_float queried answer none cache = on_answer read_float queried answer cache

-- The fields that `_get_market` reads and writes, and the core's `resolve_symbol`; `symbol` is `none` where
-- it is not set.
pub record Chart : Type 0 where
  pub resolve_symbol : List ℕ → List ℕ
  pub chart_symbol : Option (List ℕ)
  pub market : Option InstrumentInfo
  pub market_symbol : Option (List ℕ)
  pub instruments : Cache

-- the market that is resolved now is pinned under the symbol
unfoldable pub pin : List ℕ → Chart → Found × Cache → Found × Chart
pin name chart (instrument i, cache) =
    (instrument i, record chart { market = some i; market_symbol = some name; instruments = cache })
pin name chart (r, cache) = (r, record chart { instruments = cache })

module _ (read_float : String → Option Number) (venue : Category → List ℕ → Answer) where
  -- `_fetch_instrument`
  unfoldable pub fetch_instrument : Category → List ℕ → Cache → Found × Cache
  fetch_instrument c name cache =
      cached_or_asked read_float c (venue c name) (cached c name cache) cache

  -- one probe, where `next` makes the ones after it
  unfoldable pub probe_on : (Cache → Found × Cache) → Found × Cache → Found × Cache
  probe_on next (not_listed, cache) = next cache
  probe_on next r = r

  -- the loop over the categories; `BybitSymbolError` at its end
  unfoldable pub probe : List ℕ → List Category → Cache → Found × Cache
  unfolding probe_on
  probe name [] cache = (raised (symbol name), cache)
  probe name (c ∷ cs) cache = probe_on (probe name cs) (fetch_instrument c name cache)

  -- `_resolve_market`, of the symbol that the plugin's symbol map gives
  unfoldable pub resolve_market : List ℕ → Cache → Found × Cache
  resolve_market mapped cache = let (name, order) = probes_of mapped in probe name order cache

  -- resolve the symbol anew and pin it
  unfoldable pub repin : List ℕ → Chart → Found × Chart
  repin name chart = pin name chart (resolve_market (chart.resolve_symbol name) chart.instruments)

  -- a pinned market; one without a symbol takes the current one
  unfoldable pub pinned : List ℕ → InstrumentInfo → Option (List ℕ) → Chart → Found × Chart
  pinned name i none chart = (instrument i, record chart { market_symbol = some name })
  pinned name i (some key) chart =
      if same_text key name then (instrument i, chart) else repin name chart

  unfoldable pub market_on : List ℕ → Option InstrumentInfo → Chart → Found × Chart
  market_on name none chart = repin name chart
  market_on name (some i) chart = pinned name i chart.market_symbol chart

  -- `if not symbol`
  unfoldable pub market_for : Option (List ℕ) → Chart → Found × Chart
  market_for none chart = (raised (symbol []), chart)
  market_for (some []) chart = (raised (symbol []), chart)
  market_for (some (c ∷ name)) chart = market_on (c ∷ name) chart.market chart

  -- `_get_market`
  unfoldable pub get_market : Chart → Found × Chart
  get_market chart = market_for chart.chart_symbol chart
