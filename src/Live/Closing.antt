-- ===== src/Live/Closing.antt =====
-- What the pushes change that still come while a transport is closed.
use pynecore_plugin_bybit.Prelude.{
  ℕ, Bool, false, not, ◌&&◌, ◌||◌, ◌≡◌, ◌∙◌, refl, Option, none, some, List, [], ◌∷◌, if_rule,
  arith,
}
use pynecore_plugin_bybit.Prelude.Texts.{codes, begins}
use pynecore_plugin_bybit.Live.State.{Ohlcv, LiveProvider, is_settled, set_ready}
use pynecore_plugin_bybit.Live.Dispatch.{
  KlineEntry, Push, bar_of, enqueue_closed, note_trade, on_bar, on_entry, on_entries, on_push,
  on_ws_message, on_messages,
}
use pynecore_plugin_bybit.Live.Kept.{IsPushed}
use pynecore_plugin_bybit.Live.Order.{Reached, Reached-later}

-- Whether a push confirms a bar.
abbrev pub is_final : Option Ohlcv → Bool
is_final none = false
is_final (some b) = b.is_closed

abbrev pub confirms_one : List KlineEntry → Bool
confirms_one [] = false
confirms_one (e ∷ es) = is_final (bar_of e) || confirms_one es

abbrev pub confirms : List Push → Bool
confirms [] = false
confirms (m ∷ ms) = confirms_one m.entries || confirms ms

-- Nothing moves the cursor back.
pub Reached-IsPushed : (t : Option ℕ) → IsPushed (λ p. Reached t p.last_closed_bar_ts)
unfolding enqueue_closed note_trade set_ready
Reached-IsPushed t = record {
  enqueues = λ b p final later h. Reached-later t p.last_closed_bar_ts b.timestamp h later;
  holds = λ pending b p e final h. h;
  notes = λ b p h. h;
  shows = λ b p still later h. h;
  wakes = λ p h. h;
}

-- With no backfill pending, none gets pending, and no push brings a socket back.
pub Freed-IsPushed : IsPushed (λ p. (p.pending_closed ≡ none) × (p.public_ws ≡ none))
unfolding enqueue_closed note_trade set_ready
Freed-IsPushed = record {
  enqueues = λ b p final later h. h;
  holds = λ pending b p e final h. absurd cc;
  notes = λ b p h. h;
  shows = λ b p still later h. h;
  wakes = λ p h. h;
}

first_false : (a b : Bool) → (a || b) ≡ false → (a ≡ false) × (b ≡ false)
first_false a b h = ground arith

on_entry-cursor :
    (bar : Option Ohlcv) (p : LiveProvider)
    → is_final bar ≡ false
    → (on_entry bar p).last_closed_bar_ts ≡ p.last_closed_bar_ts
unfolding on_entry on_bar note_trade
on_entry-cursor none p h = refl
on_entry-cursor (some b) p h =
    let same = λ (x : LiveProvider). x.last_closed_bar_ts ≡ p.last_closed_bar_ts in
    if_rule same (not b.is_closed && is_settled b.timestamp p.last_closed_bar_ts) _ _
      (λ stale. refl) (λ kept. if_rule same b.is_closed _ _ (λ final. absurd cc) (λ still. refl))

on_entries-cursor :
    (es : List KlineEntry) (p : LiveProvider)
    → confirms_one es ≡ false
    → (on_entries es p).last_closed_bar_ts ≡ p.last_closed_bar_ts
unfolding on_entries
on_entries-cursor [] p h = refl
on_entries-cursor (e ∷ es) p h =
    let (now, later) = first_false (is_final (bar_of e)) (confirms_one es) h in
    on_entries-cursor es (on_entry (bar_of e) p) later ∙ on_entry-cursor (bar_of e) p now

on_push-cursor :
    (queue : Option (List (Option Ohlcv))) (m : Push) (p : LiveProvider)
    → confirms_one m.entries ≡ false
    → (on_push queue m p).last_closed_bar_ts ≡ p.last_closed_bar_ts
unfolding on_push set_ready
on_push-cursor none m p h = refl
on_push-cursor (some items) m p h =
    if_rule (λ (x : LiveProvider). x.last_closed_bar_ts ≡ p.last_closed_bar_ts)
      (begins (codes "kline.") (codes m.topic)) _ _ (λ kline. on_entries-cursor m.entries p h)
      (λ other. refl)

-- Pushes that confirm no bar leave the cursor.
pub on_messages-cursor :
    (ms : List Push) (p : LiveProvider)
    → confirms ms ≡ false
    → (on_messages ms p).last_closed_bar_ts ≡ p.last_closed_bar_ts
unfolding on_messages on_ws_message
on_messages-cursor [] p h = refl
on_messages-cursor (m ∷ ms) p h =
    let (now, later) = first_false (confirms_one m.entries) (confirms ms) h in
    on_messages-cursor ms (on_push p.update_queue m p) later ∙ on_push-cursor p.update_queue m p now
