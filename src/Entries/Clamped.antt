-- ===== src/Entries/Clamped.antt =====
-- The netting of a fill and the clamp at adoption, on any store.
use mathlib.Core.Path.{subst}
use pynecore_plugin_bybit.Prelude.{
  ℕ, ◌+◌, ◌-◌, ◌≤◌, Bool, ◌==◌, ◌≡◌, sym, ap, List, leb, ltb, keep, sort_by, str_eq, String,
  if◌then◌else◌, if_rule, arith,
}
use pynecore_plugin_bybit.Entries.Store.{OrderRow, netted_row, OrderStore}
use pynecore_plugin_bybit.Entries.Netting.{
  older_entry, owns, is_clampable, PositionRow, lesser, owned_sum, reduce_entry_ownership,
  clampable_entry_rows, net_entry_rows_fifo, venue_of, fold_side, fold_sides, clamp_side,
  clamp_entry_ownership_to_venue,
}
use pynecore_plugin_bybit.Entries.Keys.{Distinct, total}
use pynecore_plugin_bybit.Entries.Owned.{
  weight, net_all, IsPick, reduce_rows-live, net_entry_rows_fifo-live,
}
use pynecore_plugin_bybit.Entries.Fifo.{
  slack, Sound, net_all-leaves, net_all-takes, Distinct-net_all, net_all_never_adds,
}
use pynecore_plugin_bybit.Entries.Walked.{
  picked_rows, picked_sum, picked-Distinct, picked-Sound, picked_slack,
}

owns-IsPick : (eps : ℕ) (side : String) → IsPick eps (owns eps side)
unfolding owns netted_row
owns-IsPick eps side = record {
  stays = λ r q f n h lt. ground arith;
  came = λ r q f n le h. ground arith;
}

is_clampable-IsPick : (eps : ℕ) (side : String) → IsPick eps (is_clampable eps side)
unfolding is_clampable netted_row
is_clampable-IsPick eps side = record {
  stays = λ r q f n h lt. ground arith;
  came = λ r q f n le h. ground arith;
}

left_of_excess :
    (eps after before excess venue : ℕ)
    → after + lesser excess before ≤ before + eps
    → excess ≡ before - venue
    → after ≤ venue + eps
unfolding lesser
left_of_excess eps after before excess venue h e = ground (arith, h, e)

-- the entry rows that a fill on a side reduces
abbrev pub entry_side : String → String
entry_side side = if str_eq side "sell" then "buy" else "sell"

module _ (st : OrderStore) (eps : ℕ) where
  open st use {Book, live}

  -- the exposure that the live rows of a side own, and its settled part
  abbrev pub owned : String → Book → ℕ
  owned side s = total (weight (owns eps side)) (live s)

  abbrev pub settled : String → Book → ℕ
  settled side s = total (weight (is_clampable eps side)) (live s)

  -- A fill that reduces the position takes its quantity off the exposure that the live entry rows of
  -- the opposite side own, or all of it: what it leaves is too much by at most the tolerance, and it
  -- takes too much by at most the tolerance for each live row. Of the live rows, each has its own key
  -- and is filled up to its quantity at most.
  pub reduce_entry_ownership-reduces :
      (side : String) (qty : ℕ) (s : Book)
      → Distinct (live s)
      → Sound (live s)
      → (owned (entry_side side) (reduce_entry_ownership st eps side qty s)
            + lesser qty (owned (entry_side side) s)
          ≤ owned (entry_side side) s + eps)
        × (owned (entry_side side) s
            ≤ owned (entry_side side) (reduce_entry_ownership st eps side qty s)
              + qty
              + slack eps (live s))
  unfolding reduce_entry_ownership
  reduce_entry_ownership-reduces side qty s d sound =
      let p = owns eps (entry_side side) in
      let k = owns-IsPick eps (entry_side side) in
      let rows = live s in
      let walked = sort_by older_entry (keep p rows) in
      let sum = picked_sum eps p rows in
      let same = ap (total (weight p)) (reduce_rows-live eps st walked qty s) in
      let leaves =
        net_all-leaves eps k walked qty rows 0 d (picked-Distinct eps p rows d)
          (picked_rows eps p rows) (omega (arith, sum)) in
      let takes =
        net_all-takes eps k walked qty rows d (picked-Distinct eps p rows d)
          (picked_rows eps p rows) (picked-Sound eps p rows sound) in
      let least = ap (lesser qty) sum in
      if_rule
        (λ (x : Book).
          (owned (entry_side side) x + lesser qty (owned (entry_side side) s)
            ≤ owned (entry_side side) s + eps)
          × (owned (entry_side side) s ≤ owned (entry_side side) x + qty + slack eps (live s)))
        (qty == 0) _ _ (λ nothing. unfold lesser in ground (arith, nothing))
        (λ part. (
          omega (arith, leaves, same, least, sum),
          omega (arith, takes, same, picked_slack eps p rows),
        ))

  -- what a netting of one side does to the settled exposure of any side
  module _ (side : String) (q : ℕ) (kind : String) (s : Book) (d : Distinct (live s)) where
    abbrev netted : Book
    netted = net_entry_rows_fifo st eps (clampable_entry_rows st eps side s) q kind s

    netted_same :
        live netted
        ≡ net_all eps (sort_by older_entry (keep (is_clampable eps side) (live s))) q (live s)
    unfolding clampable_entry_rows
    netted_same =
        net_entry_rows_fifo-live eps st
          (sort_by older_entry (keep (is_clampable eps side) (live s))) q kind s

    netted-Distinct : Distinct (live netted)
    netted-Distinct =
        let p = is_clampable eps side in
        subst (λ (rows : List OrderRow). Distinct rows) (sym netted_same)
          (Distinct-net_all eps (is_clampable-IsPick eps side)
            (sort_by older_entry (keep p (live s))) q (live s) d (picked-Distinct eps p (live s) d)
            (picked_rows eps p (live s)))

    netted_never_adds : (other : String) → settled other netted ≤ settled other s
    netted_never_adds other =
        let p = is_clampable eps side in
        let below =
          net_all_never_adds eps (is_clampable-IsPick eps side) (is_clampable-IsPick eps other)
            (sort_by older_entry (keep p (live s))) q (live s) d (picked-Distinct eps p (live s) d)
            (picked_rows eps p (live s)) in
        omega (arith, below, ap (total (weight (is_clampable eps other))) netted_same)

    netted_leaves : settled side netted + lesser q (settled side s) ≤ settled side s + eps
    netted_leaves =
        let p = is_clampable eps side in
        let sum = picked_sum eps p (live s) in
        let leaves =
          net_all-leaves eps (is_clampable-IsPick eps side) (sort_by older_entry (keep p (live s)))
            q (live s) 0 d (picked-Distinct eps p (live s) d) (picked_rows eps p (live s))
            (omega (arith, sum)) in
        omega (arith, leaves, sum, ap (lesser q) sum, ap (total (weight p)) netted_same)

  -- A store that came from another by netting: its keys are distinct, no side owns more.
  record Shrinks (s t : Book) : Type 0 where
    keys : Distinct (live t)
    less : (side : String) → settled side t ≤ settled side s

  fold_side-Shrinks :
      (side : String) (folded : ℕ) (s : Book)
      → Distinct (live s)
      → Shrinks s (fold_side st eps side folded s)
  unfolding fold_side
  fold_side-Shrinks side folded s d = record {
    keys = netted-Distinct side folded "adoption_baseline_folded" s d;
    less = λ other. netted_never_adds side folded "adoption_baseline_folded" s d other;
  }

  fold_sides-Shrinks :
      (hedge : Bool) (s : Book) → Distinct (live s) → Shrinks s (fold_sides st eps hedge s)
  unfolding fold_sides
  fold_sides-Shrinks hedge s d =
      let folded =
        lesser (owned_sum (clampable_entry_rows st eps "buy" s))
          (owned_sum (clampable_entry_rows st eps "sell" s)) in
      let bought = fold_side-Shrinks "buy" folded s d in
      let sold = fold_side-Shrinks "sell" folded (fold_side st eps "buy" folded s) bought.keys in
      if_rule (Shrinks s) hedge _ _ (λ both. record { keys = d; less = λ side. omega arith })
        (λ one_way.
          if_rule (Shrinks s) (ltb eps folded) _ _
            (λ some_part. record {
              keys = sold.keys;
              less = λ side. omega (arith, bought.less side, sold.less side);
            })
            (λ nothing. record { keys = d; less = λ side. omega arith }))

  clamp_side-Shrinks :
      (side : String) (venue : ℕ) (s : Book)
      → Distinct (live s)
      → Shrinks s (clamp_side st eps side venue s)
        × (settled side (clamp_side st eps side venue s) ≤ venue + eps)
  unfolding clamp_side
  clamp_side-Shrinks side venue s d =
      let excess = owned_sum (clampable_entry_rows st eps side s) - venue in
      let kind : String = "adoption_baseline_clamped" in
      let sum : owned_sum (clampable_entry_rows st eps side s) ≡ settled side s =
        unfold clampable_entry_rows in picked_sum eps (is_clampable eps side) (live s) in
      if_rule (λ (t : Book). Shrinks s t × (settled side t ≤ venue + eps)) (leb excess eps) _ _
        (λ within. (record { keys = d; less = λ other. omega arith }, ground (arith, within, sum)))
        (λ over. (
          record {
            keys = netted-Distinct side excess kind s d;
            less = λ other. netted_never_adds side excess kind s d other;
          },
          left_of_excess eps _ (settled side s) excess venue (netted_leaves side excess kind s d)
              (omega (arith, sum)),
        ))

  -- After the clamp at adoption the settled entry rows of each side own no more than the venue holds
  -- for it, up to the tolerance, and no side owns more than before. On a hedge account the venue holds
  -- the sum of the side's position rows, on a one-way account its excess over the other side's. Each
  -- live row has its own key.
  pub clamp_entry_ownership_to_venue-clamps :
      (hedge : Bool) (rows : List PositionRow) (s : Book)
      → Distinct (live s)
      → (settled "buy" (clamp_entry_ownership_to_venue st eps hedge rows s)
          ≤ venue_of st eps hedge "buy" rows + eps)
        × (settled "sell" (clamp_entry_ownership_to_venue st eps hedge rows s)
            ≤ venue_of st eps hedge "sell" rows + eps)
        × ((side : String)
            → settled side (clamp_entry_ownership_to_venue st eps hedge rows s) ≤ settled side s)
  unfolding clamp_entry_ownership_to_venue
  clamp_entry_ownership_to_venue-clamps hedge rows s d =
      let folded = fold_sides-Shrinks hedge s d in
      let buys = clamp_side-Shrinks "buy" (venue_of st eps hedge "buy" rows) _ folded.keys in
      let sells = clamp_side-Shrinks "sell" (venue_of st eps hedge "sell" rows) _ buys.0.keys in
      (
        omega (arith, buys.1, sells.0.less "buy"),
        sells.1,
        λ side. omega (arith, folded.less side, buys.0.less side, sells.0.less side),
      )
