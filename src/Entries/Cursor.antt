-- ===== src/Entries/Cursor.antt =====
-- What the netting of a row leaves alone: how far the venue's order has filled, and what of it still
-- works.
use mathlib.Core.Path.{subst}
use pynecore_plugin_bybit.Prelude.{
  ℕ, ◌-◌, ◌≤◌, Bool, true, not, ◌==◌, ◌≡◌, refl, sym, ap, ◌∙◌, inl, inr, List, [], ◌∷◌, keep, leb,
  str_eq, String, if◌then◌else◌, if_rule, arith,
}
use pynecore_plugin_bybit.Entries.Store.{
  OrderRow, or_none_zero, venue_filled_qty, without, changed, netted_row, OrderStore,
}
use pynecore_plugin_bybit.Entries.Netting.{net_entry_row}
use pynecore_plugin_bybit.Entries.Keys.{Has, Free, Distinct, Free-Has, Distinct-changed, same_key}
use pynecore_plugin_bybit.Entries.Owned.{net_row, less, net_entry_row-live}

-- one row for a key
Has-Has :
    (x r : OrderRow) (rows : List OrderRow)
    → Distinct rows
    → Has x rows
    → Has r rows
    → x.client_order_id ≡ r.client_order_id
    → x ≡ r
Has-Has x r [] d hx hr e = absurd hx
Has-Has x r (y ∷ ys) d (inl ex) (inl er) e = sym ex ∙ er
Has-Has x r (y ∷ ys) d (inl ex) (inr hr) e = absurd (
    Free-Has y.client_order_id r ys d.0 hr
      (sym e ∙ ap (λ (z : OrderRow). z.client_order_id) (sym ex)))
Has-Has x r (y ∷ ys) d (inr hx) (inl er) e =
    absurd (
      Free-Has y.client_order_id x ys d.0 hx
        (e ∙ ap (λ (z : OrderRow). z.client_order_id) (sym er)))
Has-Has x r (y ∷ ys) d (inr hx) (inr hr) e = Has-Has x r ys d.1 hx hr e

Has-changed_self :
    (f : OrderRow → OrderRow) (r : OrderRow) (rows : List OrderRow)
    → Has r rows
    → Has (f r) (changed r.client_order_id f rows)
unfolding changed
Has-changed_self f r [] h = absurd h
Has-changed_self f r (x ∷ xs) (inr h) = inr (Has-changed_self f r xs h)
Has-changed_self f r (x ∷ xs) (inl e) = inl (
    subst (λ (y : OrderRow). (if str_eq x.client_order_id y.client_order_id then f x else x) ≡ f y)
      e (rw (same_key x.client_order_id) refl))

Free-without : (id : String) (rows : List OrderRow) → Free id (without id rows)
unfolding without keep
Free-without id [] = tt
Free-without id (x ∷ xs) =
    if_rule (Free id) (not (str_eq x.client_order_id id)) _ _
      (λ kept.
        (λ e. absurd (differs kept (ap (λ k. str_eq k id) e ∙ same_key id)), Free-without id xs))
      (λ gone. Free-without id xs)
  where
    differs : {b : Bool} → not b ≡ true → b ≡ true → ⊥
    differs {b} h e = cc

-- the same order: as far filled on the venue, as much of it working
abbrev pub SameOrder : OrderRow → OrderRow → Type 0
SameOrder r x =
    (venue_filled_qty x ≡ venue_filled_qty r) × (x.qty - x.filled_qty ≡ r.qty - r.filled_qty)

less-SameOrder :
    (eps c : ℕ) (r : OrderRow)
    → c ≤ r.filled_qty
    → r.filled_qty ≤ r.qty
    → SameOrder r (less eps r c r)
unfolding netted_row venue_filled_qty or_none_zero
less-SameOrder eps c r le filled = (omega (arith, le), omega (arith, le, filled))

net_row-SameOrder :
    (eps c : ℕ) (r x : OrderRow) (rows : List OrderRow)
    → Distinct rows
    → Has r rows
    → c ≤ r.filled_qty
    → r.filled_qty ≤ r.qty
    → Has x (net_row eps r c rows)
    → x.client_order_id ≡ r.client_order_id
    → SameOrder r x
net_row-SameOrder eps c r x rows d h le filled hx e =
    if_rule (λ (xs : List OrderRow). Has x xs → SameOrder r x) (c == 0) _ _
      (λ nothing hx'. subst (SameOrder r) (sym (Has-Has x r rows d hx' h e)) (refl, refl))
      (λ part.
        if_rule (λ (xs : List OrderRow). Has x xs → SameOrder r x) (leb (r.qty - c) eps) _ _
          (λ spent hx'.
            absurd (Free-Has r.client_order_id x _ (Free-without r.client_order_id rows) hx' e))
          (λ left hx'.
            subst (SameOrder r)
              (sym (
                Has-Has x (less eps r c r) _
                  (Distinct-changed r.client_order_id (less eps r c) rows
                    (λ y. unfold netted_row in refl) d)
                  hx' (Has-changed_self (less eps r c) r rows h) (e ∙ unfold netted_row in refl)))
              (less-SameOrder eps c r le filled)))
      hx

-- Netting part of what a live row owns never moves the venue's view of its order: if the row is still
-- live, its venue-domain fill cursor and its working remainder are what they were. Each live row has
-- its own key, and the row is filled up to its quantity at most.
pub net_entry_row-SameOrder :
    (st : OrderStore) (eps c : ℕ) (r x : OrderRow) (s : st.Book)
    → Distinct (st.live s)
    → Has r (st.live s)
    → c ≤ r.filled_qty
    → r.filled_qty ≤ r.qty
    → Has x (st.live (net_entry_row st eps r c s))
    → x.client_order_id ≡ r.client_order_id
    → SameOrder r x
net_entry_row-SameOrder st eps c r x s d h le filled hx e =
    net_row-SameOrder eps c r x (st.live s) d h le filled
      (subst (Has x) (net_entry_row-live eps st r c s) hx) e
