-- ===== src/Live/Repeat.antt =====
-- A push that the venue sends again changes nothing.
use mathlib.Core.Path.{subst}
use pynecore_plugin_bybit.Prelude.{
  ℕ, true, false, not, ◌&&◌, ◌≡◌, refl, sym, ap, ◌∙◌, Option, none, some, if◌then◌else◌, if_rule,
  arith,
}
use pynecore_plugin_bybit.Live.State.{Ohlcv, LiveProvider, is_settled, is_beyond}
use pynecore_plugin_bybit.Live.Dispatch.{enqueue_closed, note_trade, on_closed_bar, on_bar}

-- a second note of the same trade
IsNoted : Ohlcv → LiveProvider → Type 0
IsNoted b q = (q.last_price ≡ some b.closing) × (is_beyond b.timestamp q.stream_bar_ts ≡ false)

skipped :
    (t : ℕ) (stream : Option ℕ)
    → is_beyond t stream ≡ false
    → (if is_beyond t stream then some t else stream) ≡ stream
skipped t stream e = rw e refl

note_trade-again : (b : Ohlcv) (q : LiveProvider) → IsNoted b q → note_trade b q ≡ q
unfolding note_trade IsNoted
note_trade-again b q h =
    ap
      (λ price. record q {
        last_price = price;
        stream_bar_ts =
            if is_beyond b.timestamp q.stream_bar_ts then some b.timestamp else q.stream_bar_ts;
      })
      (sym h.0)
    ∙ ap (λ ts. record q { stream_bar_ts = ts }) (skipped b.timestamp q.stream_bar_ts h.1)

stream_again :
    (t : ℕ) (stream : Option ℕ)
    → is_beyond t (if is_beyond t stream then some t else stream) ≡ false
stream_again t none = unfold is_beyond in ground arith
stream_again t (some s) = unfold is_beyond in ground arith

note_trade-IsNoted : (b : Ohlcv) (p : LiveProvider) → IsNoted b (note_trade b p)
unfolding note_trade IsNoted
note_trade-IsNoted b p = (refl, stream_again b.timestamp p.stream_bar_ts)

-- of a closed bar at or before the cursor, once its trade is noted, nothing is left to do
closed_again :
    (b : Ohlcv) (q : LiveProvider)
    → b.is_closed ≡ true
    → q.pending_closed ≡ none
    → is_settled b.timestamp q.last_closed_bar_ts ≡ true
    → IsNoted b q
    → on_bar b q ≡ q
unfolding on_bar on_closed_bar
closed_again b q final free old noted =
    let settle : on_closed_bar none b q ≡ q =
      if_rule (λ (x : LiveProvider). x ≡ q) (is_settled b.timestamp q.last_closed_bar_ts) _ _
        (λ known. refl) (λ new. absurd cc) in
    if_rule (λ (x : LiveProvider). x ≡ q)
      (not b.is_closed && is_settled b.timestamp q.last_closed_bar_ts) _ _ (λ stale. refl)
      (λ kept.
        if_rule (λ (x : LiveProvider). x ≡ q) b.is_closed _ _
          (λ e.
            ap (λ (x : LiveProvider). on_closed_bar q.pending_closed b x)
              (note_trade-again b q noted)
            ∙ ap (λ pending. on_closed_bar pending b q) free
            ∙ settle)
          (λ still. absurd cc))

forming_again :
    (b : Ohlcv) (q : LiveProvider)
    → b.is_closed ≡ false
    → is_settled b.timestamp q.last_closed_bar_ts ≡ false
    → q.latest_snapshot ≡ some b
    → IsNoted b q
    → on_bar b q ≡ q
unfolding on_bar
forming_again b q still later shown noted =
    if_rule (λ (x : LiveProvider). x ≡ q)
      (not b.is_closed && is_settled b.timestamp q.last_closed_bar_ts) _ _ (λ stale. refl)
      (λ kept.
        if_rule (λ (x : LiveProvider). x ≡ q) b.is_closed _ _ (λ final. absurd cc)
          (λ e.
            ap (λ (x : LiveProvider). record x { latest_snapshot = some b })
              (note_trade-again b q noted)
            ∙ ap (λ snapshot. record q { latest_snapshot = snapshot }) (sym shown)))

settled_self : (t : ℕ) → is_settled t (some t) ≡ true
unfolding is_settled
settled_self t = ground arith

closed_bar_again :
    (b : Ohlcv) (p : LiveProvider)
    → b.is_closed ≡ true
    → p.pending_closed ≡ none
    → IsNoted b p
    → on_bar b (on_closed_bar none b p) ≡ on_closed_bar none b p
unfolding on_closed_bar
closed_bar_again b p final free noted =
    if_rule (λ (q : LiveProvider). on_bar b q ≡ q) (is_settled b.timestamp p.last_closed_bar_ts) _ _
      (λ old. closed_again b p final free old noted)
      (λ later.
        closed_again b (enqueue_closed b p) final (unfold enqueue_closed in free)
          (unfold enqueue_closed in settled_self b.timestamp)
          (unfold enqueue_closed IsNoted in noted))

stale_again :
    (b : Ohlcv) (q : LiveProvider)
    → (not b.is_closed && is_settled b.timestamp q.last_closed_bar_ts) ≡ true
    → on_bar b q ≡ q
unfolding on_bar
stale_again b q stale =
    if_rule (λ (x : LiveProvider). x ≡ q)
      (not b.is_closed && is_settled b.timestamp q.last_closed_bar_ts) _ _ (λ e. refl)
      (λ kept. absurd cc)

kept_again :
    (b : Ohlcv) (p : LiveProvider)
    → p.pending_closed ≡ none
    → (not b.is_closed && is_settled b.timestamp p.last_closed_bar_ts) ≡ false
    → on_bar b (
        if b.is_closed
        then on_closed_bar none b (note_trade b p)
        else record (note_trade b p) { latest_snapshot = some b })
      ≡ (if b.is_closed
          then on_closed_bar none b (note_trade b p)
          else record (note_trade b p) { latest_snapshot = some b })
kept_again b p free kept =
    if_rule (λ (q : LiveProvider). on_bar b q ≡ q) b.is_closed _ _
      (λ final.
        closed_bar_again b (note_trade b p) final (unfold note_trade in free)
          (note_trade-IsNoted b p))
      (λ still.
        forming_again b (record (note_trade b p) { latest_snapshot = some b }) still
          (unfold note_trade in cc) refl (unfold IsNoted in note_trade-IsNoted b p))

-- `on_bar` while nothing is held back
on_bar_free :
    (b : Ohlcv) (p : LiveProvider)
    → p.pending_closed ≡ none
    → on_bar b p ≡ (
        if not b.is_closed && is_settled b.timestamp p.last_closed_bar_ts
        then p
        else if b.is_closed
        then on_closed_bar none b (note_trade b p)
        else record (note_trade b p) { latest_snapshot = some b })
unfolding on_bar
on_bar_free b p free =
    ap
      (λ pending.
        if not b.is_closed && is_settled b.timestamp p.last_closed_bar_ts
        then p
        else if b.is_closed
        then on_closed_bar pending b (note_trade b p)
        else record (note_trade b p) { latest_snapshot = some b })
      free

-- While no backfill is pending, a bar that the venue pushes twice in a row, confirmed or not, leaves the
-- provider the second time as it was after the first: the queue, the cursor, the forming bar, the noted
-- trade and the rest.
pub on_bar-again :
    (b : Ohlcv) (p : LiveProvider) → p.pending_closed ≡ none → on_bar b (on_bar b p) ≡ on_bar b p
on_bar-again b p free =
    subst (λ (q : LiveProvider). on_bar b q ≡ q) (sym (on_bar_free b p free))
      (if_rule (λ (q : LiveProvider). on_bar b q ≡ q)
        (not b.is_closed && is_settled b.timestamp p.last_closed_bar_ts) _ _
        (λ stale. stale_again b p stale) (λ kept. kept_again b p free kept))
