-- ===== src/Ledger/Bounds.antt =====
-- What `_bounded` and `_capped` promise of the share they return.
use pynecore_plugin_bybit.Prelude.{ℕ, ◌+◌, ◌≤◌, ◌≡◌, ◌⊎◌, arith}
use pynecore_plugin_bybit.Prelude.Int.{ℤ, pos, pos_part, neg_part, ◌+ℤ◌, neg, abs, max}
use pynecore_plugin_bybit.Ledger.State.{direction}
use pynecore_plugin_bybit.Ledger.Share.{bounded, capped}

-- `small` lies between 0 and `big`.
pub record Within (small big : ℤ) : Type 0 where
  pub above : pos_part small ≤ pos_part big
  pub below : neg_part small ≤ neg_part big

-- `share` is at most `bound` on its own side, up to the tolerance.
pub record AtMost (share bound tolerance : ℤ) : Type 0 where
  pub long :
      pos_part share + neg_part bound ≤ pos_part bound + pos_part tolerance ⊎ (pos_part share ≡ 0)
  pub short :
      neg_part share + pos_part bound ≤ neg_part bound + pos_part tolerance ⊎ (neg_part share ≡ 0)

pub bounded-Within : (s j : ℤ) (t : ℕ) → Within (bounded s j (pos t)) s
unfolding bounded direction abs ◌+ℤ◌
bounded-Within s j t = ground arith

pub bounded-AtMost : (s j : ℤ) (t : ℕ) → AtMost (bounded s j (pos t)) j (pos t)
unfolding bounded direction abs ◌+ℤ◌
bounded-AtMost s j t = ground arith

pub capped-Within : (s leg : ℤ) (t : ℕ) → Within (capped s leg (pos t)) s
unfolding capped direction abs ◌+ℤ◌ max neg
capped-Within s leg t = ground arith

pub capped-AtMost : (s leg : ℤ) (t : ℕ) → AtMost (capped s leg (pos t)) leg (pos t)
unfolding capped direction abs ◌+ℤ◌ max neg
capped-AtMost s leg t = ground arith
