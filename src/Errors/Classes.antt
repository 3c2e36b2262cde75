-- ===== src/Errors/Classes.antt =====
-- The code sets of pynecore_bybit/exceptions.py against each other and against the classification.
use pynecore_plugin_bybit.Prelude.{
  ℕ, ◌+◌, ◌≤◌, Bool, true, none, ◌≡◌, ◌||◌, arith, ◌==◌, if◌then◌else◌, some_of,
}
use pynecore_plugin_bybit.Errors.{
  is_benign_trading_stop_reject, is_trading_stop_zero_position_reject,
  is_trading_stop_level_crossed_reject, is_order_amend_unchanged_reject,
  is_reduce_only_zero_position_reject, ApiError, BybitError, bybit, connection, adoption_baseline,
  position_data, symbol, unsupported_timeframe, api, BrokerError, exchange_connection, rate_limit,
  map_broker_error, classify_read_error, retryable, retryable_codes, among, auth_error_codes,
  rate_limit_codes, insufficient_balance_codes, order_not_found_codes, duplicate_coid_codes,
  ambiguous_disposition_codes,
}

-- how many of the six sets hold the code
abbrev pub classes : ℕ → ℕ
classes c =
    (if among c auth_error_codes then 1 else 0)
    + (if among c rate_limit_codes then 1 else 0)
    + (if among c insufficient_balance_codes then 1 else 0)
    + (if among c order_not_found_codes then 1 else 0)
    + (if among c duplicate_coid_codes then 1 else 0)
    + (if among c ambiguous_disposition_codes then 1 else 0)

-- No code is in two of the six sets.
classes_le_one : (c : ℕ) → classes c ≤ 1
unfolding some_of
classes_le_one c = ground arith

-- the rejects that the dispatch paths handle themselves
abbrev pub is_control : ApiError → Bool
is_control e =
    among e.ret_code order_not_found_codes
    || among e.ret_code duplicate_coid_codes
    || among e.ret_code ambiguous_disposition_codes
    || is_benign_trading_stop_reject e
    || is_trading_stop_level_crossed_reject e
    || is_order_amend_unchanged_reject e
    || is_reduce_only_zero_position_reject e

control_code : (c : ℕ) → Bool
control_code c =
    among c order_not_found_codes
    || among c duplicate_coid_codes
    || among c ambiguous_disposition_codes
    || c == 34040
    || c == 10001
    || c == 110017

is_control_code : (e : ApiError) → is_control e ≡ true → control_code e.ret_code ≡ true
unfolding some_of is_benign_trading_stop_reject is_trading_stop_zero_position_reject
    is_trading_stop_level_crossed_reject is_order_amend_unchanged_reject
    is_reduce_only_zero_position_reject control_code
is_control_code e h = ground arith

control_code_unmapped : (e : ApiError) → control_code e.ret_code ≡ true → map_broker_error e ≡ none
unfolding some_of map_broker_error control_code
control_code_unmapped e h = ground arith

-- A reject that a dispatch path handles itself (order not found, duplicate `orderLinkId`, ambiguous
-- disposition, a benign, crossed, unchanged or proven-flat reject) is never mapped into the broker
-- taxonomy, so the mapping cannot hide it from that path.
pub control_unmapped : (e : ApiError) → is_control e ≡ true → map_broker_error e ≡ none
control_unmapped e h = control_code_unmapped e (is_control_code e h)

-- the engine retries these
abbrev pub IsTransient : BrokerError → Type 0
IsTransient (exchange_connection _) = Unit
IsTransient (rate_limit _) = Unit
IsTransient _ = ⊥

retryable_api :
    (e : ApiError)
    → among e.ret_code retryable_codes ≡ true
    → IsTransient (classify_read_error (api e))
unfolding some_of map_broker_error classify_read_error
retryable_api e h = ground arith

-- A failure that the live runner would retry is never turned into a terminal broker error when it
-- fails a read, whatever the base class answers for the classes that set no flag.
pub retryable-IsTransient :
    (default : Bool) (e : BybitError)
    → retryable default e ≡ true
    → IsTransient (classify_read_error e)
unfolding classify_read_error retryable
retryable-IsTransient default (api e) h = unfold classify_read_error in retryable_api e h
retryable-IsTransient default (bybit m) h = tt
retryable-IsTransient default (connection m) h = tt
retryable-IsTransient default (adoption_baseline m) h = tt
retryable-IsTransient default (position_data m) h = tt
retryable-IsTransient default (symbol m) h = tt
retryable-IsTransient default (unsupported_timeframe m) h = tt
