-- ===== src/Hosts.antt =====
-- Static host resolution of pynecore_bybit/hosts.py. An empty override is the text "".
mod Sound
mod Examples
use pynecore_plugin_bybit.Prelude.{
  String, Bool, true, false, Option, none, some, List, [], ◌∷◌, ◌&&◌, not, if◌then◌else◌, str_eq,
  some_of, table_get,
}

-- `BybitHosts`
pub record BybitHosts : Type 0 where
  pub rest : String
  pub ws_public : Option String
  pub ws_private : Option String

-- the override arguments of `resolve_hosts`
pub record Overrides : Type 0 where
  pub rest_host : String
  pub ws_public_host : String
  pub ws_private_host : String

-- The two `ValueError`s, and the return.
pub data Resolution : Type 0 where
  unknown_region : Resolution
  no_known_host : Resolution
  resolved : BybitHosts → Resolution

-- three documented hosts
abbrev full : String → String → String → BybitHosts
full rest ws_public ws_private = record {
  rest = rest;
  ws_public = some ws_public;
  ws_private = some ws_private;
}

-- a REST host only
abbrev rest_only : String → BybitHosts
rest_only rest = record { rest = rest; ws_public = none; ws_private = none }

-- `_LIVE`
abbrev pub live_table : List (String × BybitHosts)
live_table =
    ("global", full "api.bybit.com" "stream.bybit.com" "stream.bybit.com")
    ∷ ("eu", full "api.bybit.eu" "stream.bybit.eu" "stream.bybit.eu")
    ∷ ("nl", rest_only "api.bybit.nl")
    ∷ ("tr", full "api.bybit.tr" "stream.bybit.tr" "stream.bybit.tr")
    ∷ ("kz", full "api.bybit.kz" "stream.bybit.kz" "stream.bybit.kz")
    ∷ ("ge", full "api.bybitgeorgia.ge" "stream.bybitgeorgia.ge" "stream.bybitgeorgia.ge")
    ∷ ("ae", rest_only "api.bybit.ae")
    ∷ ("id", full "api.bybit.id" "stream.bybit.id" "stream.bybit.id")
    ∷ ("testnet", rest_only "api-testnet.bybit.com")
    ∷ []

-- `_DEMO`
abbrev pub demo_table : List (String × BybitHosts)
demo_table =
    ("global", full "api-demo.bybit.com" "stream.bybit.com" "stream-demo.bybit.com")
    ∷ ("eu", full "api-demo.bybit.eu" "stream.bybit.eu" "stream-demo.bybit.eu")
    ∷ []

-- `REGIONS`
abbrev pub regions : List String
regions = "global" ∷ "eu" ∷ "nl" ∷ "tr" ∷ "kz" ∷ "ge" ∷ "ae" ∷ "id" ∷ "testnet" ∷ []

-- truth of a text
unfoldable pub given : String → Bool
given s = not (str_eq s "")

-- `override or base`, where the base is a text or `None`
unfoldable pub or_host : String → Option String → Option String
or_host override base = if given override then some override else base

unfoldable pub or_rest : String → String → String
or_rest override base = if given override then override else base

abbrev pub all_given : Overrides → Bool
all_given o = given o.rest_host && given o.ws_public_host && given o.ws_private_host

-- The region passed the first test; the table of the mode holds `base` for it.
unfoldable pub resolve_on : Option BybitHosts → Overrides → Resolution
resolve_on none o =
    if all_given o
    then resolved (record {
      rest = o.rest_host;
      ws_public = some o.ws_public_host;
      ws_private = some o.ws_private_host;
    })
    else no_known_host
resolve_on (some base) o = resolved (record {
  rest = or_rest o.rest_host base.rest;
  ws_public = or_host o.ws_public_host base.ws_public;
  ws_private = or_host o.ws_private_host base.ws_private;
})

abbrev pub table_of : Bool → List (String × BybitHosts)
table_of demo = if demo then demo_table else live_table

unfoldable pub resolve_hosts : String → Bool → Overrides → Resolution
resolve_hosts region demo o =
    if some_of (str_eq region) regions
    then resolve_on (table_get region (table_of demo)) o
    else unknown_region
