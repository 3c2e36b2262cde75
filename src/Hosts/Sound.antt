-- ===== src/Hosts/Sound.antt =====
-- Where the hosts that pynecore_bybit/hosts.py resolves come from.
use pynecore_plugin_bybit.Prelude.{
  table_get, String, Bool, true, false, Option, none, some, ◌≡◌, refl, ◌≢◌, ◌⊎◌, inl, inr,
  Bool-cases, arith, str_eq, some_of, eq_iff,
}
use mathlib.Core.Path.{subst}
use pynecore_plugin_bybit.Hosts.{
  BybitHosts, Overrides, Resolution, unknown_region, no_known_host, resolved, demo_table, regions,
  table_of, given, or_host, or_rest, all_given, resolve_on, resolve_hosts,
}

-- `host` is the override where one is given, and otherwise what the table lists.
pub record Taken (override : String) (listed host : Option String) : Type 0 where
  pub taken :
      (given override ≡ true) × (host ≡ some override) ⊎ (given override ≡ false) × (host ≡ listed)

-- Why the resolver answered what it did, in terms of the table's entry and the overrides: without an
-- entry each of the three overrides counts.
abbrev pub Justified : Option BybitHosts → Overrides → Resolution → Type 0
Justified base o unknown_region = ⊥
Justified none o no_known_host =
    (given o.rest_host ≡ false)
    ⊎ (given o.ws_public_host ≡ false)
    ⊎ (given o.ws_private_host ≡ false)
Justified none o (resolved h) =
    ((given o.rest_host ≡ true) × (h.rest ≡ o.rest_host))
    × ((given o.ws_public_host ≡ true) × (h.ws_public ≡ some o.ws_public_host))
    × ((given o.ws_private_host ≡ true) × (h.ws_private ≡ some o.ws_private_host))
Justified (some base) o no_known_host = ⊥
Justified (some base) o (resolved h) =
    Taken o.rest_host (some base.rest) (some h.rest)
    × Taken o.ws_public_host base.ws_public h.ws_public
    × Taken o.ws_private_host base.ws_private h.ws_private

-- The same with the region, which must be one of `REGIONS`.
abbrev pub Answered : String → Bool → Overrides → Resolution → Type 0
Answered region demo o r =
    (some_of (str_eq region) regions ≡ false) × (r ≡ unknown_region)
    ⊎ (some_of (str_eq region) regions ≡ true) × Justified (table_get region (table_of demo)) o r

or_host-Taken :
    (override : String) (base : Option String) → Taken override base (or_host override base)
unfolding or_host
or_host-Taken override base = elim (Bool-cases (given override)) [
  | inl chosen ↦ record { taken = inl (chosen, rw chosen refl) }
  | inr missing ↦ record { taken = inr (missing, rw missing refl) }
]

or_rest-Taken : (override base : String) → Taken override (some base) (some (or_rest override base))
unfolding or_rest
or_rest-Taken override base = elim (Bool-cases (given override)) [
  | inl chosen ↦ record { taken = inl (chosen, rw chosen refl) }
  | inr missing ↦ record { taken = inr (missing, rw missing refl) }
]

all_given_parts :
    (o : Overrides)
    → all_given o ≡ true
    → (given o.rest_host ≡ true)
      × (given o.ws_public_host ≡ true)
      × (given o.ws_private_host ≡ true)
all_given_parts o h = ground arith

missing_part :
    (o : Overrides)
    → all_given o ≡ false
    → (given o.rest_host ≡ false)
      ⊎ (given o.ws_public_host ≡ false)
      ⊎ (given o.ws_private_host ≡ false)
missing_part o h = ground arith

resolve_on-Justified :
    (base : Option BybitHosts) (o : Overrides) → Justified base o (resolve_on base o)
unfolding resolve_on
resolve_on-Justified none o = elim (Bool-cases (all_given o)) [
  | inl chosen ↦
      let (a, b, c) = all_given_parts o chosen in rw chosen ((a, refl), (b, refl), (c, refl))
  | inr missing ↦ rw missing (missing_part o missing)
]
resolve_on-Justified (some base) o = (
  or_rest-Taken o.rest_host base.rest,
  or_host-Taken o.ws_public_host base.ws_public,
  or_host-Taken o.ws_private_host base.ws_private,
)

-- Every answer of `resolve_hosts`: an unknown region is refused; a region that the mode's table
-- does not list is refused where one of the three overrides is missing, and where all three are given
-- they are the hosts; for a region that it lists each of the three hosts is its override where one is
-- given, and else exactly what the table lists for that region and mode, `None` included.
pub resolve_hosts-Answered :
    (region : String) (demo : Bool) (o : Overrides)
    → Answered region demo o (resolve_hosts region demo o)
unfolding resolve_hosts
resolve_hosts-Answered region demo o = elim (Bool-cases (some_of (str_eq region) regions)) [
  | inl chosen ↦ rw chosen (inr (refl, resolve_on-Justified (table_get region (table_of demo)) o))
  | inr missing ↦ rw missing (inl (refl, refl))
]

abbrev pub no_overrides : Overrides
no_overrides = record { rest_host = ""; ws_public_host = ""; ws_private_host = "" }

-- What a demo resolution owes to the live one of its region.
pub record DemoOf (demo_hosts live_hosts : BybitHosts) : Type 0 where
  pub same_public : demo_hosts.ws_public ≡ live_hosts.ws_public
  pub own_rest : demo_hosts.rest ≢ live_hosts.rest
  pub own_private : demo_hosts.ws_private ≢ live_hosts.ws_private

abbrev pub DemoAnswer : Resolution → Resolution → Type 0
DemoAnswer (resolved d) (resolved h) = DemoOf d h
DemoAnswer (resolved d) _ = ⊥
DemoAnswer no_known_host _ = Unit
DemoAnswer unknown_region r = r ≡ unknown_region

demo_global :
    DemoAnswer
      (resolve_hosts "global" true no_overrides)
      (resolve_hosts "global" false no_overrides)
unfolding resolve_hosts table_get resolve_on or_host or_rest given some_of
demo_global = record {
  same_public = refl;
  own_rest = ground (arith, eq_iff "api-demo.bybit.com" "api.bybit.com");
  own_private = ground (arith, eq_iff "stream-demo.bybit.com" "stream.bybit.com");
}

demo_eu : DemoAnswer (resolve_hosts "eu" true no_overrides) (resolve_hosts "eu" false no_overrides)
unfolding resolve_hosts table_get resolve_on or_host or_rest given some_of
demo_eu = record {
  same_public = refl;
  own_rest = ground (arith, eq_iff "api-demo.bybit.eu" "api.bybit.eu");
  own_private = ground (arith, eq_iff "stream-demo.bybit.eu" "stream.bybit.eu");
}

unlisted-DemoAnswer :
    (region : String)
    → table_get region demo_table ≡ none
    → DemoAnswer (resolve_hosts region true no_overrides) (resolve_hosts region false no_overrides)
unfolding resolve_hosts resolve_on given
unlisted-DemoAnswer region h = elim (Bool-cases (some_of (str_eq region) regions)) [
  | inl listed ↦ rw (listed, h) tt
  | inr unlisted ↦ rw unlisted refl
]

-- Without overrides, a demo region either is refused or keeps the public stream of its live
-- counterpart and has a REST host and a private stream of its own.
pub demo-DemoAnswer :
    (region : String)
    → DemoAnswer (resolve_hosts region true no_overrides) (resolve_hosts region false no_overrides)
demo-DemoAnswer region = elim (Bool-cases (str_eq "global" region)) [
  | inl e ↦
      subst
        (λ (r : String).
          DemoAnswer (resolve_hosts r true no_overrides) (resolve_hosts r false no_overrides))
        ((eq_iff "global" region).0 e) demo_global
  | inr other ↦ elim (Bool-cases (str_eq "eu" region)) [
    | inl e ↦
        subst
          (λ (r : String).
            DemoAnswer (resolve_hosts r true no_overrides) (resolve_hosts r false no_overrides))
          ((eq_iff "eu" region).0 e) demo_eu
    | inr neither ↦ unlisted-DemoAnswer region (unfold table_get in rw (other, neither) refl)
  ]
]
