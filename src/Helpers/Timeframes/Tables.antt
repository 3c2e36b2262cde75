-- ===== src/Helpers/Timeframes/Tables.antt =====
-- The timeframe tables against each other.
use pynecore_plugin_bybit.Prelude.{
  table_get, ℕ, ◌<◌, arith, some, List, [], ◌∷◌, ◌≡◌, refl, Bool-cases, inl, inr, String, str_eq,
  eq_iff,
}
use mathlib.Core.Path.{subst}
use pynecore_plugin_bybit.Helpers.Timeframes.{
  timeframes, inverted, interval_ms, to_exchange_timeframe, to_tradingview_timeframe,
}

module _ {ℓ} {V : Type ℓ} where
  -- the property holds at each row of the table
  abbrev pub Rows : (String → V → Type 0) → List (String × V) → Type 0
  Rows P [] = Unit
  Rows P ((k, v) ∷ m) = P k v × Rows P m

  pub table_get-Rows :
      (P : String → V → Type 0) (m : List (String × V)) (k : String) (v : V)
      → Rows P m
      → table_get k m ≡ some v
      → P k v
  unfolding table_get
  table_get-Rows P [] k v rows h = cc
  table_get-Rows P ((j, w) ∷ m) k v rows h = elim (Bool-cases (str_eq j k)) [
    | inl here ↦
        let value : w ≡ v = cc in
        subst (λ (x : V). P k x) value
          (subst (λ (x : String). P x w) ((eq_iff j k).0 here) (rows.0))
    | inr other ↦ let there : table_get k m ≡ some v = cc in table_get-Rows P m k v rows.1 there
  ]

timeframes-Rows : Rows (λ k v. to_tradingview_timeframe v ≡ some k) timeframes
unfolding to_tradingview_timeframe table_get inverted
timeframes-Rows = (
  refl,
  (
    refl,
    (refl, (refl, (refl, (refl, (refl, (refl, (refl, (refl, (refl, (refl, (refl, tt))))))))))),
  ),
)

-- every fixed step moves forward
interval_ms-Rows : Rows (λ k (v : ℕ). 0 < v) interval_ms
interval_ms-Rows = omega arith

pub interval_ms_positive :
    (interval : String) (step : ℕ) → table_get interval interval_ms ≡ some step → 0 < step
interval_ms_positive interval step h =
    table_get-Rows (λ k (v : ℕ). 0 < v) interval_ms interval step interval_ms-Rows h

-- A timeframe that is taken is given back by the inverse conversion.
timeframe_round_trip :
    (timeframe interval : String)
    → to_exchange_timeframe timeframe ≡ some interval
    → to_tradingview_timeframe interval ≡ some timeframe
unfolding to_exchange_timeframe
timeframe_round_trip timeframe interval h =
    table_get-Rows (λ k v. to_tradingview_timeframe v ≡ some k) timeframes timeframe interval
      timeframes-Rows h
