-- ===== src/Download/Examples.antt =====
-- A download on a concrete venue: hourly bars, newest first, the last of them still forming.
use pynecore_plugin_bybit.Prelude.{ℕ, ◌*◌, Option, none, some, List, [], ◌∷◌}
use pynecore_plugin_bybit.Download.{Bar, download_ohlcv}
use pynecore_plugin_bybit.Download.Progress.{IsAnswer, download_ohlcv-IsAnswer}

abbrev hourly : ℕ → ℕ → ℕ → Option (List Bar)
hourly start end limit = some (
    record { timestamp = 7200000; prices = "3" ∷ [] }
    ∷ record { timestamp = 3600000; prices = "2" ∷ [] }
    ∷ record { timestamp = 0; prices = "1" ∷ [] }
    ∷ [])

download_ohlcv-IsAnswer_example :
    IsAnswer "60" (0 * 1000) (10000 * 1000) (download_ohlcv hourly "60" none 10000 0 20000)
download_ohlcv-IsAnswer_example = download_ohlcv-IsAnswer hourly "60" none 10000 0 20000
