-- ===== src/Hosts/Examples.antt =====
-- Hosts resolved on concrete configurations.
use pynecore_plugin_bybit.Prelude.{false}
use pynecore_plugin_bybit.Hosts.{Overrides, resolve_hosts}
use pynecore_plugin_bybit.Hosts.Sound.{Answered, resolve_hosts-Answered}

abbrev own_stream : Overrides
own_stream = record { rest_host = ""; ws_public_host = "stream.example.nl"; ws_private_host = "" }

resolve_hosts-Answered_example :
    Answered "nl" false own_stream (resolve_hosts "nl" false own_stream)
resolve_hosts-Answered_example = resolve_hosts-Answered "nl" false own_stream
