-- ===== src/Inventory/Fills.antt =====
-- Which execution rows become fills of the bot.
use mathlib.Core.Path.{subst}
use pynecore_plugin_bybit.Prelude.{
  ◌>>=◌, Bool, true, false, ◌≡◌, refl, ◌⊎◌, inl, inr, Bool-cases, Option, none, some, ◌&&◌,
  if◌then◌else◌, String, str_eq, eq_iff,
}
use pynecore_plugin_bybit.Inventory.Rows.{
  Entry, SpotExecution, Amounts, stored, by_ref, attribute, amounts_of, fill_of, Port, is_trade,
  validated, attributed, to_execution,
}

-- The order of the bot's that a row belongs to: the echoed link id, known to the plugin or stored, or
-- the order that is stored under the row's order id.
abbrev pub Owned : Port → Entry → String → Type 0
Owned p e coid =
    (coid ≡ e.order_link_id)
      × ((p.owns_order_link_id e.order_link_id ≡ true)
          ⊎ (stored p.store_ctx e.order_link_id ≡ true))
    ⊎ (by_ref p.store_ctx e.order_id ≡ some coid)

pub record IsOwnFill (p : Port) (e : Entry) (x : SpotExecution) : Type 0 where
  pub trade : is_trade e ≡ true
  pub symbol : e.symbol ≡ p.market.symbol
  pub owner : Owned p e x.client_order_id
  pub fill_id : x.fill_id ≡ e.exec_id
  pub valid : p.is_valid x ≡ true

first_or_second :
    (a b : Bool) (k c : String) (r : Option String)
    → (if a then some k else if b then some k else r) ≡ some c
    → (c ≡ k) × ((a ≡ true) ⊎ (b ≡ true)) ⊎ (r ≡ some c)
first_or_second true b k c r h = inl (cc, inl refl)
first_or_second false true k c r h = inl (cc, inr refl)
first_or_second false false k c r h = inr h

both-right : (a b : Bool) → (a && b) ≡ true → b ≡ true
both-right true b h = h
both-right false b h = absurd (cc)

attribute-Owned :
    (p : Port) (e : Entry) (coid : String)
    → attribute p.owns_order_link_id p.store_ctx e ≡ some coid
    → Owned p e coid
unfolding attribute
attribute-Owned p e coid h =
    elim (first_or_second _ _ e.order_link_id coid (by_ref p.store_ctx e.order_id) h) [
      | inl (same, inl owned) ↦ inl (same, inl (both-right _ _ owned))
      | inl (same, inr kept) ↦ inl (same, inr (both-right _ _ kept))
      | inr ref ↦ inr ref
    ]

validated-valid :
    (is_valid : SpotExecution → Bool) (x y : SpotExecution)
    → validated is_valid x ≡ some y
    → (x ≡ y) × (is_valid x ≡ true)
unfolding validated
validated-valid is_valid x y h = elim (Bool-cases (is_valid x)) [
  | inl good ↦ (cc, good)
  | inr bad ↦ absurd (cc)
]

bind-some :
    {A B : Type 0} (o : Option A) (f : A → Option B) (y : B)
    → (o >>= f) ≡ some y
    → (x : A) × (o ≡ some x) × (f x ≡ some y)
bind-some none f y h = absurd (cc)
bind-some (some x) f y h = (x, refl, h)

attributed-fill :
    (p : Port) (e : Entry) (x : SpotExecution)
    → attributed p e ≡ some x
    → (coid : String) × (a : Amounts) × Owned p e coid
      × (fill_of p.digits p.market e coid a ≡ x)
      × (p.is_valid x ≡ true)
unfolding attributed
attributed-fill p e x h =
    let (coid, found, rest) = bind-some (attribute p.owns_order_link_id p.store_ctx e) _ x h in
    let (a, amounts, last) = bind-some (amounts_of e) _ x rest in
    let (same, good) = validated-valid p.is_valid (fill_of p.digits p.market e coid a) x last in
    (coid, a, attribute-Owned p e coid found, same, cc (good, same))

-- No foreign execution enters the bot's ledger: a row that becomes a fill is a trade of the chart's
-- symbol, belongs by its link id or its order id to an order that the plugin or its store knows, has
-- passed the validation, and the fill carries the row's execution id and that order's client id.
pub to_execution-IsOwnFill :
    (p : Port) (e : Entry) (x : SpotExecution) → to_execution p e ≡ some x → IsOwnFill p e x
unfolding to_execution
to_execution-IsOwnFill p e x h = elim (Bool-cases (is_trade e)) [
  | inr other ↦ absurd (cc)
  | inl trade ↦ elim (Bool-cases (str_eq e.symbol p.market.symbol)) [
    | inr elsewhere ↦ absurd (cc)
    | inl here ↦
        let found : attributed p e ≡ some x = cc in
        let (coid, a, owner, same, good) = attributed-fill p e x found in
        record {
          trade = trade;
          symbol = (eq_iff e.symbol p.market.symbol).0 here;
          owner =
              subst (λ (y : SpotExecution). Owned p e y.client_order_id) same
                (unfold fill_of in owner);
          fill_id =
              subst (λ (y : SpotExecution). y.fill_id ≡ e.exec_id) same (unfold fill_of in refl);
          valid = good;
        }
  ]
]
