-- ===== src/Instruments/Tradable.antt =====
-- What `update_symbol_info` promises of an instrument that it describes.
use pynecore_plugin_bybit.Prelude.Texts.{codes}
use pynecore_plugin_bybit.Prelude.{
  ℕ, ◌<◌, Bool, true, false, not, ◌==◌, ◌≡◌, refl, Option, none, some, List, length, if_rule,
  String, str_eq, eq_iff, arith,
}
use pynecore_plugin_bybit.Instruments.Info.{Category, Number, InstrumentInfo, is_inverse}
use pynecore_plugin_bybit.Instruments.Symbols.{strip}
use pynecore_plugin_bybit.Instruments.Resolve.{
  Answer, Found, instrument, not_listed, raised, Cache, Chart, get_market,
}
use pynecore_plugin_bybit.Instruments.PriceGrid.{partition, drop_dot, read_int, price_grid}
use pynecore_plugin_bybit.Instruments.PriceGrid.Exact.{IsExact, IsGridOf, price_grid-IsGridOf}
use pynecore_plugin_bybit.Instruments.Metadata.{
  Described, described, refused, syminfo, with_sibling, describe_on, describe, describe_found,
  update_symbol_info,
}

-- The grid of an instrument's tick text.
abbrev pub HasGrid : InstrumentInfo → ℕ × ℕ → Type 0
HasGrid i grid =
    let text = strip (codes i.tick_size_str) in
    IsExact (read_int (drop_dot text)) (length (partition text).1) grid

-- a tradable instrument with a tick, described by its exact grid
abbrev pub IsTradable : Described → Type 0
IsTradable (refused e) = Unit
IsTradable (described i s) =
    (i.status ≡ "Trading") × (0 < i.tick_size.units) × HasGrid i (s.minmove, s.pricescale)

module _ (read_float : String → Option Number) (venue : Category → List ℕ → Answer)
    (timeframe : Option String) where
  with_sibling-IsTradable :
      (i : InstrumentInfo) (grid : ℕ × ℕ) (chart : Chart) (found : Found × Cache)
      → i.status ≡ "Trading"
      → 0 < i.tick_size.units
      → HasGrid i grid
      → IsTradable (with_sibling timeframe i grid chart found).0
  unfolding with_sibling syminfo
  with_sibling-IsTradable i grid chart (instrument s, cache) t p g = (t, p, g)
  with_sibling-IsTradable i grid chart (not_listed, cache) t p g = (t, p, g)
  with_sibling-IsTradable i grid chart (raised e, cache) t p g = tt

  describe_on-IsTradable :
      (i : InstrumentInfo) (grid : Option (ℕ × ℕ)) (chart : Chart)
      → i.status ≡ "Trading"
      → 0 < i.tick_size.units
      → IsGridOf (strip (codes i.tick_size_str)) grid
      → IsTradable (describe_on read_float venue timeframe i grid chart).0
  unfolding describe_on syminfo
  describe_on-IsTradable i none chart t p g = tt
  describe_on-IsTradable i (some grid) chart t p g =
      if_rule (λ (r : Described × Chart). IsTradable r.0) (is_inverse i) _ _
        (λ yes_inverse. with_sibling-IsTradable i grid chart _ t p g.1) (λ direct. (t, p, g.1))

  describe-IsTradable :
      (i : InstrumentInfo) (chart : Chart)
      → IsTradable (describe read_float venue timeframe i chart).0
  unfolding describe
  describe-IsTradable i chart =
      if_rule (λ (r : Described × Chart). IsTradable r.0) (not (str_eq i.status "Trading")) _ _
        (λ halted. tt)
        (λ trading.
          if_rule (λ (r : Described × Chart). IsTradable r.0) (i.tick_size.units == 0) _ _
            (λ no_tick. tt)
            (λ tick.
              describe_on-IsTradable i (price_grid i) chart
                ((eq_iff i.status "Trading").0 (untrue (str_eq i.status "Trading") trading))
                (ground (arith, tick)) (price_grid-IsGridOf i)))
    where
      untrue : (t : Bool) → not t ≡ false → t ≡ true
      untrue true e = refl
      untrue false e = absurd cc

  -- Whatever the caches hold and the venue answers: an instrument is described to the core only if it
  -- is being traded and its tick is positive, and then by the exact price grid of its tick's text, in
  -- lowest terms.
  pub update_symbol_info-IsTradable :
      (chart : Chart) → IsTradable (update_symbol_info read_float venue timeframe chart).0
  unfolding update_symbol_info
  update_symbol_info-IsTradable chart = found_tradable (get_market read_float venue chart)
    where
      found_tradable :
          (f : Found × Chart) → IsTradable (describe_found read_float venue timeframe f).0
      found_tradable (instrument i, c) = unfold describe_found in describe-IsTradable i c
      found_tradable (not_listed, c) = unfold describe_found in tt
      found_tradable (raised e, c) = unfold describe_found in tt
