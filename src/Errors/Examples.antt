-- ===== src/Errors/Examples.antt =====
-- Rejects on concrete codes.
use pynecore_plugin_bybit.Prelude.Texts.{begins, codes, occurs}
use pynecore_plugin_bybit.Prelude.{true, false, none, ◌≡◌, refl, some_of}
use pynecore_plugin_bybit.Errors.{
  ApiError, api, map_broker_error, classify_read_error, retryable,
  is_reduce_only_zero_position_reject,
}
use pynecore_plugin_bybit.Errors.Classes.{control_unmapped, IsTransient, retryable-IsTransient}

abbrev flat_reject : ApiError
flat_reject = record {
  ret_code = 110017;
  message = codes "current position is zero, cannot fix reduce-only order qty";
}

flat_reject_matches : is_reduce_only_zero_position_reject flat_reject ≡ true
unfolding is_reduce_only_zero_position_reject occurs begins
flat_reject_matches = refl

abbrev not_found : ApiError
not_found = record { ret_code = 170213; message = codes "Order does not exist." }

control_unmapped_example : map_broker_error not_found ≡ none
unfolding some_of
control_unmapped_example = control_unmapped not_found refl

abbrev too_many : ApiError
too_many = record { ret_code = 10006; message = codes "Too many visits!" }

retryable-IsTransient_example : IsTransient (classify_read_error (api too_many))
unfolding retryable some_of
retryable-IsTransient_example = retryable-IsTransient false (api too_many) refl
