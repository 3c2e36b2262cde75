-- ===== src/Inverse/Examples.antt =====
-- The inverse mirror on a concrete position: 305 contracts at 78000.
use pynecore_plugin_bybit.Prelude.{ℕ, ◌*◌, ◌/◌, ◌≤◌, true, ◌≡◌, refl, none, arith}
use pynecore_plugin_bybit.Prelude.Int.{ℤ, pos, ◌+ℤ◌, neg}
use pynecore_plugin_bybit.Helpers.Grid.{quantize_qty}
use pynecore_plugin_bybit.Inverse.Mirror.{
  Mirror, flat, size_of, signed, inverse_core_size, snapped, apply_inverse_fill,
}
use pynecore_plugin_bybit.Inverse.Convert.{
  covers, positive_amount, mirror_anchor, is_held, inverse_reduce_contracts,
}
use pynecore_plugin_bybit.Inverse.Flat.{
  IsSnapped, filled, Reach, start, next, Reach-IsSnapped, inverse_core_size-keeps,
}
use pynecore_plugin_bybit.Inverse.Capped.{AtMost, inverse_reduce_contracts-AtMost}

abbrev quotient : ℕ → ℕ → ℕ
quotient contracts price = contracts * 1000000 / price

abbrev kept : ℤ → ℤ → ℤ → ℤ
kept base shifted held = base

abbrev long : Mirror
long = record { net_contracts = pos 305; net_base = pos 3910 }

-- 305 contracts are bought and sold again, at another price.
closed :
    Reach quotient kept
      (apply_inverse_fill "sell" 305 3900 (apply_inverse_fill "buy" 305 3910 flat))
closed = next (next start (filled "buy" 305 3910 flat)) (filled "sell" 305 3900 _)

Reach-IsSnapped_example :
    IsSnapped (apply_inverse_fill "sell" 305 3900 (apply_inverse_fill "buy" 305 3910 flat))
Reach-IsSnapped_example = Reach-IsSnapped closed

close_test : apply_inverse_fill "sell" 305 3900 (apply_inverse_fill "buy" 305 3910 flat) ≡ flat
unfolding apply_inverse_fill snapped signed ◌+ℤ◌ neg
close_test = refl

inverse_core_size-keeps_example :
    (3910 ≤ inverse_core_size quotient "buy" 400 78000 long)
    × (size_of long.net_contracts ≡ 400 → inverse_core_size quotient "buy" 400 78000 long ≡ 3910)
inverse_core_size-keeps_example =
    inverse_core_size-keeps quotient "buy" 400 78000 long (unfold signed in refl) (omega arith)

inverse_reduce_contracts-AtMost_example :
    AtMost (quantize_qty 305 1) (inverse_reduce_contracts 1955 1 none none long)
    × (covers 1955 3910 ≡ true
        → inverse_reduce_contracts 1955 1 none none long
          ≡ positive_amount (record { units = quantize_qty 305 1; parts = 1 }) (mirror_anchor long))
inverse_reduce_contracts-AtMost_example =
    inverse_reduce_contracts-AtMost 1955 1 none none long (unfold is_held in refl)
