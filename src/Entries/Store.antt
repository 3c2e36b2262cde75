-- ===== src/Entries/Store.antt =====
-- The order rows that the plugin keeps in the core's store, and the store itself, which is an argument:
-- its operations and what the plugin relies on. Quantities are multiples of one quantum.
use pynecore_plugin_bybit.Prelude.{
  ℕ, ◌+◌, Bool, true, false, not, ◌≡◌, Option, none, some, List, [], ◌∷◌, keep, str_eq, String,
  if◌then◌else◌,
}

-- the `kind` of a row's extras
pub data RowKind : Type 0 where
  position working other : RowKind

-- A row, with the extras that are read here as fields: `netted` is `none` where the extra is missing or
-- no number.
pub record OrderRow : Type 0 where
  pub client_order_id : String
  pub intent_key : Option String
  pub side : String
  pub qty : ℕ
  pub filled_qty : ℕ
  pub kind : RowKind
  pub netted : Option ℕ
  pub pending_dispatch : Bool
  pub defensive_close_pending : Bool
  pub created_ts_ms : ℕ

-- `kind in (ENTRY_KIND_POSITION, ENTRY_KIND_WORKING)`
unfoldable pub is_entry : RowKind → Bool
is_entry position = true
is_entry working = true
is_entry other = false

unfoldable pub or_none_zero : Option ℕ → ℕ
or_none_zero none = 0
or_none_zero (some n) = n

-- `venue_filled_qty`
unfoldable pub venue_filled_qty : OrderRow → ℕ
venue_filled_qty row = row.filled_qty + or_none_zero row.netted

-- what closing and writing an order does to the live rows
unfoldable pub without : String → List OrderRow → List OrderRow
without id rows = keep (λ r. not (str_eq r.client_order_id id)) rows

unfoldable pub changed : String → (OrderRow → OrderRow) → List OrderRow → List OrderRow
changed id f [] = []
changed id f (r ∷ rs) = (if str_eq r.client_order_id id then f r else r) ∷ changed id f rs

-- The quantities that netting writes: `upsert_order(id, qty=, filled_qty=, extras=)`.
unfoldable pub netted_row : ℕ → ℕ → ℕ → OrderRow → OrderRow
netted_row qty filled netted row = record row {
  qty = qty;
  filled_qty = filled;
  netted = some netted;
}

-- The run's store, of which the plugin uses the live rows and the completed intents, newest first:
-- closing an order takes its row out, writing one changes its row, and neither the audit log nor the
-- completion of an intent touches a row.
pub record OrderStore : Type 1 where
  pub Book : Type 0
  pub live : Book → List OrderRow
  pub completed : Book → List String
  pub close_order : String → Book → Book
  pub upsert_order : String → ℕ → ℕ → ℕ → Book → Book
  pub record_complete : String → Book → Book
  pub log_event : String → OrderRow → ℕ → Book → Book
  pub live-close_order : (id : String) (s : Book) → live (close_order id s) ≡ without id (live s)
  pub live-upsert_order :
      (id : String) (qty filled netted : ℕ) (s : Book)
      → live (upsert_order id qty filled netted s)
        ≡ changed id (netted_row qty filled netted) (live s)
  pub live-record_complete : (key : String) (s : Book) → live (record_complete key s) ≡ live s
  pub live-log_event :
      (kind : String) (row : OrderRow) (consumed : ℕ) (s : Book)
      → live (log_event kind row consumed s) ≡ live s
  pub completed-record_complete :
      (key : String) (s : Book) → completed (record_complete key s) ≡ key ∷ completed s
  pub completed-close_order : (id : String) (s : Book) → completed (close_order id s) ≡ completed s
