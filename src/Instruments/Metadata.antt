-- ===== src/Instruments/Metadata.antt =====
-- What pynecore_bybit/provider.py tells the core of instruments: `get_list_of_symbols` and
-- `update_symbol_info`. The 24/7 schedule and the timezone, which are constants, are left out of
-- `SymInfo`.
use pynecore_plugin_bybit.Prelude.Texts.{codes}
use pynecore_plugin_bybit.Prelude.{
  ℕ, Bool, true, false, not, ◌&&◌, ◌||◌, ◌==◌, Option, none, some, List, [], ◌∷◌, ◌++◌, sort_by,
  ltb, if◌then◌else◌, String, str_eq,
}
use pynecore_plugin_bybit.Errors.{BybitError, symbol}
use pynecore_plugin_bybit.Instruments.Info.{
  Category, spot, linear, inverse, Number, nil, RawInstrument, InstrumentInfo, is_perpetual,
  is_inverse, parse_instrument,
}
use pynecore_plugin_bybit.Instruments.Symbols.{listed_name}
use pynecore_plugin_bybit.Instruments.Resolve.{
  Answer, Found, instrument, not_listed, raised, Cache, Chart, fetch_instrument, get_market,
}
use pynecore_plugin_bybit.Instruments.PriceGrid.{price_grid}

-- The answers of the venue along its cursors: the last page has none.
pub data Pages : Type 0 where
  last_page : List RawInstrument → Pages
  page : List RawInstrument → Pages → Pages
  broken_off : BybitError → Pages

pub data Listing : Type 0 where
  names : List (List ℕ) → Listing
  failed : BybitError → Listing

unfoldable pub is_listed : InstrumentInfo → Bool
is_listed i = str_eq i.status "Trading" && not (str_eq i.symbol "")

unfoldable pub name_of : InstrumentInfo → List ℕ
name_of i = listed_name (is_perpetual i) (codes i.symbol)

module _ (read_float : String → Option Number) where
  -- the names of one page, before those that follow
  unfoldable pub names_of : Category → List RawInstrument → List (List ℕ)
  names_of c [] = []
  names_of c (raw ∷ rest) =
      let i = parse_instrument read_float c raw in
      let others = names_of c rest in if is_listed i then name_of i ∷ others else others

  unfoldable pub prepend : List (List ℕ) → Listing → Listing
  prepend found (names others) = names (found ++ others)
  prepend found (failed e) = failed e

  -- the loop over the cursors of one category, `next` what the other categories give
  unfoldable pub walk_pages : Category → Pages → Listing → Listing
  unfolding prepend
  walk_pages c (last_page raws) next = prepend (names_of c raws) next
  walk_pages c (page raws rest) next = prepend (names_of c raws) (walk_pages c rest next)
  walk_pages c (broken_off e) next = failed e

  unfoldable pub walk_categories : (Category → Pages) → List Category → Listing
  walk_categories venue [] = names []
  walk_categories venue (c ∷ cs) = walk_pages c (venue c) (walk_categories venue cs)

-- the order of texts by code point
unfoldable pub comes_before : List ℕ → List ℕ → Bool
comes_before [] name = true
comes_before (c ∷ s) [] = false
comes_before (c ∷ s) (d ∷ t) = let rest = comes_before s t in ltb c d || c == d && rest

unfoldable pub sort_names : Listing → Listing
sort_names (names found) = names (sort_by comes_before found)
sort_names (failed e) = failed e

-- `(category,) if category else CATEGORIES`
unfoldable pub categories_of : Option Category → List Category
categories_of none = spot ∷ linear ∷ inverse ∷ []
categories_of (some c) = c ∷ []

-- `get_list_of_symbols`
unfoldable pub get_list_of_symbols :
    (String → Option Number) → (Category → Pages) → Option Category → Listing
get_list_of_symbols read_float venue category =
    sort_names (walk_categories read_float venue (categories_of category))

pub data SymType : Type 0 where
  crypto futures : SymType

pub data VolumeType : Type 0 where
  base quote : VolumeType

-- the fields of `SymInfo` that come from the instrument
pub record SymInfo : Type 0 where
  pub description : List ℕ
  pub ticker : List ℕ
  pub currency : String
  pub basecurrency : Option String
  pub period : String
  pub type : SymType
  pub volumetype : VolumeType
  pub mintick : Number
  pub minmove : ℕ
  pub pricescale : ℕ
  pub mincontract : Number
  pub expiration_date : Option ℕ

pub data Described : Type 0 where
  described : InstrumentInfo → SymInfo → Described
  refused : BybitError → Described

unfoldable pub is_spot : Category → Bool
is_spot spot = true
is_spot linear = false
is_spot inverse = false

-- `_syminfo_type_for`
unfoldable pub syminfo_type_for : InstrumentInfo → SymType
syminfo_type_for i = if is_spot i.category || is_perpetual i then crypto else futures

-- `text or default`
unfoldable pub or_else : String → Option String → String
or_else default none = default
or_else default (some text) = if str_eq text "" then default else text

unfoldable pub or_missing : String → Option String
or_missing text = if str_eq text "" then none else some text

unfoldable pub syminfo : Option String → InstrumentInfo → ℕ × ℕ → Number → SymInfo
syminfo timeframe i grid mincontract = record {
  description =
      codes i.base_coin
      ++ codes "/"
      ++ codes i.quote_coin
      ++ (if is_perpetual i then codes " Perpetual" else []);
  ticker = name_of i;
  currency = i.quote_coin;
  basecurrency = or_missing i.base_coin;
  period = or_else "1D" timeframe;
  type = syminfo_type_for i;
  volumetype = if is_inverse i then quote else base;
  mintick = i.tick_size;
  minmove = grid.0;
  pricescale = grid.1;
  mincontract = mincontract;
  expiration_date = i.delivery_time;
}

-- with the lot of the linear sibling, 0.0 where there is none
unfoldable pub with_sibling :
    Option String → InstrumentInfo → ℕ × ℕ → Chart → Found × Cache → Described × Chart
with_sibling timeframe i grid chart (instrument s, cache) =
    (described i (syminfo timeframe i grid s.qty_step), record chart { instruments = cache })
with_sibling timeframe i grid chart (not_listed, cache) =
    (described i (syminfo timeframe i grid nil), record chart { instruments = cache })
with_sibling timeframe i grid chart (raised e, cache) =
    (refused e, record chart { instruments = cache })

module _ (read_float : String → Option Number) (venue : Category → List ℕ → Answer) where
  unfoldable pub describe_on :
      Option String → InstrumentInfo → Option (ℕ × ℕ) → Chart → Described × Chart
  describe_on timeframe i none chart = (refused (symbol (codes i.symbol)), chart)
  describe_on timeframe i (some grid) chart =
      if is_inverse i
      then with_sibling timeframe i grid chart (
          fetch_instrument read_float venue linear (codes i.base_coin ++ codes "USDT")
            chart.instruments)
      else (described i (syminfo timeframe i grid i.qty_step), chart)

  -- the two guards, then the grid
  unfoldable pub describe : Option String → InstrumentInfo → Chart → Described × Chart
  describe timeframe i chart =
      if not (str_eq i.status "Trading")
      then (refused (symbol (codes i.symbol)), chart)
      else if i.tick_size.units == 0
      then (refused (symbol (codes i.symbol)), chart)
      else describe_on timeframe i (price_grid i) chart

  unfoldable pub describe_found : Option String → Found × Chart → Described × Chart
  describe_found timeframe (instrument i, chart) = describe timeframe i chart
  describe_found timeframe (not_listed, chart) = (refused (symbol []), chart)
  describe_found timeframe (raised e, chart) = (refused e, chart)

  -- `update_symbol_info`
  unfoldable pub update_symbol_info : Option String → Chart → Described × Chart
  update_symbol_info timeframe chart = describe_found timeframe (get_market read_float venue chart)
