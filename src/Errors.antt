-- ===== src/Errors.antt =====
-- The exceptions of pynecore_bybit/exceptions.py: which `retCode` means what, and the translation
-- into the broker taxonomy. A message is its code points; `str(exc)` is the message.
mod Classes
mod Examples
use pynecore_plugin_bybit.Prelude.{
  ℕ, ◌+◌, Bool, true, false, Option, none, some, List, [], ◌∷◌, map, ◌==◌, leb, ◌&&◌, ◌||◌, not,
  if◌then◌else◌, String, some_of,
}
use pynecore_plugin_bybit.Prelude.Texts.{codes, occurs, lower}

-- `BybitAPIError`
pub record ApiError : Type 0 where
  pub ret_code : ℕ
  pub message : List ℕ

-- The classes that derive from `BybitError`, with the message each is raised with.
pub data BybitError : Type 0 where
  bybit connection adoption_baseline position_data symbol unsupported_timeframe :
      List ℕ → BybitError
  api : ApiError → BybitError

-- membership in a `frozenset` of codes
abbrev pub among : ℕ → List ℕ → Bool
among c codes = some_of (λ k. c == k) codes

abbrev pub retryable_codes : List ℕ
retryable_codes = 10000 ∷ 10002 ∷ 10006 ∷ 10016 ∷ 10018 ∷ []

-- the `retryable` attribute; the classes that set none inherit `ProviderError`'s `default`
unfoldable pub retryable : Bool → BybitError → Bool
retryable default (api e) = among e.ret_code retryable_codes
retryable default (connection _) = true
retryable default (adoption_baseline _) = true
retryable default (position_data _) = true
retryable default (bybit _) = default
retryable default (symbol _) = default
retryable default (unsupported_timeframe _) = default

abbrev pub auth_error_codes : List ℕ
auth_error_codes = 10003 ∷ 10004 ∷ 10005 ∷ 10010 ∷ 33004 ∷ []

abbrev pub rate_limit_codes : List ℕ
rate_limit_codes = 10006 ∷ 10018 ∷ []

abbrev pub insufficient_balance_codes : List ℕ
insufficient_balance_codes = 170131 ∷ 110007 ∷ []

abbrev pub order_not_found_codes : List ℕ
order_not_found_codes = 170213 ∷ 110001 ∷ []

abbrev pub duplicate_coid_codes : List ℕ
duplicate_coid_codes = 170141 ∷ 110072 ∷ []

abbrev pub ambiguous_disposition_codes : List ℕ
ambiguous_disposition_codes = 10000 ∷ 10016 ∷ []

unfoldable pub is_trading_stop_zero_position_reject : ApiError → Bool
is_trading_stop_zero_position_reject e =
    e.ret_code == 10001 && occurs (codes "zero position") e.message

unfoldable pub is_benign_trading_stop_reject : ApiError → Bool
is_benign_trading_stop_reject e =
    if e.ret_code == 34040 then true else is_trading_stop_zero_position_reject e

unfoldable pub is_trading_stop_level_crossed_reject : ApiError → Bool
is_trading_stop_level_crossed_reject e =
    e.ret_code == 10001 && occurs (codes "base_price") e.message

unfoldable pub is_order_amend_unchanged_reject : ApiError → Bool
is_order_amend_unchanged_reject e =
    e.ret_code == 10001 && occurs (codes "order not modified") (lower e.message)

unfoldable pub is_reduce_only_zero_position_reject : ApiError → Bool
is_reduce_only_zero_position_reject e =
    e.ret_code == 110017 && occurs (codes "position is zero") e.message

-- The broker taxonomy's classes that the plugin raises, with their messages.
pub data BrokerError : Type 0 where
  authentication : List ℕ → ℕ → BrokerError  -- the reason's `retCode`
  rate_limit : List ℕ → BrokerError  -- to be retried after one second
  exchange_connection insufficient_margin order_rejected : List ℕ → BrokerError

unfoldable pub map_broker_error : ApiError → Option BrokerError
map_broker_error e =
    if among e.ret_code auth_error_codes
    then some (authentication e.message e.ret_code)
    else if among e.ret_code rate_limit_codes
    then some (rate_limit e.message)
    else if e.ret_code == 10002
    then some (exchange_connection e.message)
    else if among e.ret_code insufficient_balance_codes
    then some (insufficient_margin e.message)
    else none

abbrev pub message_of : BybitError → List ℕ
message_of (bybit m) = m
message_of (connection m) = m
message_of (adoption_baseline m) = m
message_of (position_data m) = m
message_of (symbol m) = m
message_of (unsupported_timeframe m) = m
message_of (api e) = e.message

abbrev mapped_or : Option BrokerError → BrokerError → BrokerError
mapped_or none default = default
mapped_or (some mapped) default = mapped

unfoldable pub classify_read_error : BybitError → BrokerError
classify_read_error (api e) = mapped_or (map_broker_error e) (exchange_connection e.message)
classify_read_error e = exchange_connection (message_of e)

unfoldable pub reject_error : ApiError → BrokerError
reject_error e = order_rejected e.message

unfoldable pub traceback_wanted : (BybitError → Bool) → BybitError → Bool
traceback_wanted is_retryable_provider_error e = not (is_retryable_provider_error e)
