-- ===== src/Helpers/Examples.antt =====
-- The helpers on concrete values.
use pynecore_plugin_bybit.Prelude.Texts.{codes}
use pynecore_plugin_bybit.Prelude.{ℕ, ◌≢◌, refl, List, [], arith, some_of}
use pynecore_plugin_bybit.Helpers.LinkId.{is_link_char, wire_link_id}
use pynecore_plugin_bybit.Helpers.WireIds.{
  IsWireId, wire_link_id-IsWireId, mapped_no_collision, has_foreign_char-AllLink,
}

abbrev fixed_digest : List ℕ → List ℕ
fixed_digest _ = codes "0123456789abcdef"

wire_link_id-IsWireId_example : IsWireId (wire_link_id fixed_digest (codes "bot-1-close:leg2"))
unfolding is_link_char some_of
wire_link_id-IsWireId_example =
    wire_link_id-IsWireId fixed_digest (codes "bot-1-close:leg2")
      (has_foreign_char-AllLink (fixed_digest []) refl)

mapped_no_collision_example :
    wire_link_id fixed_digest (codes "bot-1") ≢ wire_link_id fixed_digest (codes "bot:1")
unfolding is_link_char some_of
mapped_no_collision_example =
    mapped_no_collision fixed_digest (codes "bot-1") (codes "bot:1")
      (record { link_chars = has_foreign_char-AllLink (codes "bot-1") refl; short = omega arith })
      refl refl
