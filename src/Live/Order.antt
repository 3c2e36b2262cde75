-- ===== src/Live/Order.antt =====
-- In which order the consumer of the live candles sees them.
use mathlib.Core.Path.{subst}
use pynecore_plugin_bybit.Prelude.{
  ℕ, ◌≤◌, ◌<◌, true, false, ◌≡◌, refl, inl, inr, Bool-cases, Option, none, some, List, [], ◌∷◌,
  ◌++◌, leb, if◌then◌else◌, arith,
}
use pynecore_plugin_bybit.Live.State.{Ohlcv, LiveProvider, is_settled, set_ready}
use pynecore_plugin_bybit.Live.Dispatch.{drop_stale, put, enqueue_closed, note_trade, on_ws_closed}
use pynecore_plugin_bybit.Live.Kept.{IsKept}

-- what the consumer has seen once the queue is drained; newest first, as `seen` is
abbrev pub drained : List (Option Ohlcv) → List Ohlcv → List Ohlcv
drained [] seen = seen
drained (none ∷ items) seen = drained items seen
drained (some b ∷ items) seen = drained items (b ∷ seen)

abbrev pub queued : Option (List (Option Ohlcv)) → List Ohlcv → List Ohlcv
queued none seen = seen
queued (some items) seen = drained items seen

-- the newest closed bar among them
abbrev pub newest_closed : List Ohlcv → Option ℕ
newest_closed [] = none
newest_closed (b ∷ bs) = if b.is_closed then some b.timestamp else newest_closed bs

abbrev pub After : Option ℕ → ℕ → Type 0
After none t = Unit
After (some s) t = s < t

-- Every update, closed or forming, is of a later bar than each closed bar before it.
abbrev pub Ordered : List Ohlcv → Type 0
Ordered [] = Unit
Ordered (b ∷ bs) = After (newest_closed bs) b.timestamp × Ordered bs

abbrev pub AllFinal : List Ohlcv → Type 0
AllFinal [] = Unit
AllFinal (b ∷ bs) = (b.is_closed ≡ true) × AllFinal bs

-- the bars of a queue are closed ones
abbrev pub FinalItems : List (Option Ohlcv) → Type 0
FinalItems [] = Unit
FinalItems (none ∷ items) = FinalItems items
FinalItems (some b ∷ items) = (b.is_closed ≡ true) × FinalItems items

abbrev pub Final : Option (List (Option Ohlcv)) → Type 0
Final none = Unit
Final (some items) = FinalItems items

abbrev pub Held : Option (List Ohlcv) → Type 0
Held none = Unit
Held (some bs) = AllFinal bs

abbrev pub Forming : Option ℕ → Option Ohlcv → Type 0
Forming newest none = Unit
Forming newest (some b) = (b.is_closed ≡ false) × After newest b.timestamp

-- the cursor has reached the newest closed bar
abbrev pub Reached : Option ℕ → Option ℕ → Type 0
Reached none cursor = Unit
Reached (some s) none = ⊥
Reached (some s) (some c) = s ≤ c

pub record InOrder (seen : List Ohlcv) (queue : Option (List (Option Ohlcv)))
    (pending : Option (List Ohlcv)) (snapshot : Option Ohlcv) : Type 0 where
  pub order : Ordered (queued queue seen)
  pub final : Final queue
  pub held : Held pending
  pub forming : Forming (newest_closed (queued queue seen)) snapshot

abbrev pub IsInOrder : List Ohlcv → LiveProvider → Type 0
IsInOrder seen p = InOrder seen p.update_queue p.pending_closed p.latest_snapshot

abbrev pub IsReached : List Ohlcv → LiveProvider → Type 0
IsReached seen p = Reached (newest_closed (queued p.update_queue seen)) p.last_closed_bar_ts

-- the whole of it, while the stream is live
abbrev pub IsLive : List Ohlcv → LiveProvider → Type 0
IsLive seen p = IsInOrder seen p × IsReached seen p

drained-bar :
    (items : List (Option Ohlcv)) (b : Ohlcv) (seen : List Ohlcv)
    → drained (items ++ some b ∷ []) seen ≡ b ∷ drained items seen
drained-bar [] b seen = refl
drained-bar (none ∷ items) b seen = drained-bar items b seen
drained-bar (some x ∷ items) b seen = drained-bar items b (x ∷ seen)

pub drained-sentinel :
    (items : List (Option Ohlcv)) (seen : List Ohlcv)
    → drained (items ++ none ∷ []) seen ≡ drained items seen
drained-sentinel [] seen = refl
drained-sentinel (none ∷ items) seen = drained-sentinel items seen
drained-sentinel (some x ∷ items) seen = drained-sentinel items (x ∷ seen)

pub queued-sentinel :
    (queue : Option (List (Option Ohlcv))) (seen : List Ohlcv)
    → queued (put none queue) seen ≡ queued queue seen
unfolding put
queued-sentinel none seen = refl
queued-sentinel (some items) seen = drained-sentinel items seen

-- a bar later than the cursor is later than each closed bar
After-cursor :
    (newest cursor : Option ℕ) (t : ℕ)
    → Reached newest cursor
    → is_settled t cursor ≡ false
    → After newest t
unfolding is_settled
After-cursor none cursor t r h = tt
After-cursor (some s) none t r h = absurd r
After-cursor (some s) (some c) t r h = ground arith

pub Reached-later :
    (newest cursor : Option ℕ) (t : ℕ)
    → Reached newest cursor
    → is_settled t cursor ≡ false
    → Reached newest (some t)
unfolding is_settled
Reached-later none cursor t r h = tt
Reached-later (some s) none t r h = absurd r
Reached-later (some s) (some c) t r h = ground arith

Forming-drop_stale :
    (newest : Option ℕ) (t : ℕ) (snapshot : Option Ohlcv)
    → Forming newest snapshot
    → Forming newest (drop_stale t snapshot)
unfolding drop_stale
Forming-drop_stale newest t none h = tt
Forming-drop_stale newest t (some b) h = elim (Bool-cases (leb b.timestamp t)) [
  | inl stale ↦ rw stale tt
  | inr later ↦ rw later h
]

Forming-new :
    (t : ℕ) (newest : Option ℕ) (snapshot : Option Ohlcv)
    → Forming newest snapshot
    → Forming (some t) (drop_stale t snapshot)
unfolding drop_stale
Forming-new t newest none h = tt
Forming-new t newest (some b) h = elim (Bool-cases (leb b.timestamp t)) [
  | inl stale ↦ rw stale tt
  | inr later ↦ rw later (h.0, ground arith)
]

FinalItems-bar :
    (items : List (Option Ohlcv)) (b : Ohlcv)
    → FinalItems items
    → b.is_closed ≡ true
    → FinalItems (items ++ some b ∷ [])
FinalItems-bar [] b h final = (final, tt)
FinalItems-bar (none ∷ items) b h final = FinalItems-bar items b h final
FinalItems-bar (some x ∷ items) b h final = (h.0, FinalItems-bar items b h.1 final)

FinalItems-sentinel :
    (items : List (Option Ohlcv)) → FinalItems items → FinalItems (items ++ none ∷ [])
FinalItems-sentinel [] h = h
FinalItems-sentinel (none ∷ items) h = FinalItems-sentinel items h
FinalItems-sentinel (some x ∷ items) h = (h.0, FinalItems-sentinel items h.1)

Final-sentinel : (queue : Option (List (Option Ohlcv))) → Final queue → Final (put none queue)
unfolding put
Final-sentinel none h = h
Final-sentinel (some items) h = FinalItems-sentinel items h

put-InOrder :
    (seen : List Ohlcv) (b : Ohlcv) (queue : Option (List (Option Ohlcv)))
    (pending : Option (List Ohlcv)) (snapshot : Option Ohlcv) (cursor : Option ℕ)
    → b.is_closed ≡ true
    → is_settled b.timestamp cursor ≡ false
    → InOrder seen queue pending snapshot
    → Reached (newest_closed (queued queue seen)) cursor
    → InOrder seen (put (some b) queue) pending (drop_stale b.timestamp snapshot)
      × Reached (newest_closed (queued (put (some b) queue) seen)) (some b.timestamp)
unfolding put
put-InOrder seen b none pending snapshot cursor final later o r = (
  record {
    order = o.order;
    final = o.final;
    held = o.held;
    forming = Forming-drop_stale _ b.timestamp snapshot o.forming;
  },
  Reached-later _ cursor b.timestamp r later,
)
put-InOrder seen b (some items) pending snapshot cursor final later o r =
    let order : Ordered (drained (items ++ some b ∷ []) seen) =
      rw (drained-bar items b seen) (After-cursor _ cursor b.timestamp r later, o.order) in
    let newest : newest_closed (drained (items ++ some b ∷ []) seen) ≡ some b.timestamp =
      rw (drained-bar items b seen, final) refl in
    (
      record {
        order = order;
        final = FinalItems-bar items b o.final final;
        held = o.held;
        forming = rw newest (Forming-new b.timestamp _ snapshot o.forming);
      },
      rw newest (omega arith),
    )

-- A closed bar later than the cursor can be queued.
pub enqueue_closed-IsLive :
    (seen : List Ohlcv) (b : Ohlcv) (p : LiveProvider)
    → b.is_closed ≡ true
    → is_settled b.timestamp p.last_closed_bar_ts ≡ false
    → IsLive seen p
    → IsLive seen (enqueue_closed b p)
unfolding enqueue_closed
enqueue_closed-IsLive seen b p final later h =
    put-InOrder seen b p.update_queue p.pending_closed p.latest_snapshot p.last_closed_bar_ts final
      later h.0 h.1

AllFinal-append :
    (bs : List Ohlcv) (b : Ohlcv) → AllFinal bs → b.is_closed ≡ true → AllFinal (bs ++ b ∷ [])
AllFinal-append [] b h final = (final, tt)
AllFinal-append (x ∷ bs) b h final = (h.0, AllFinal-append bs b h.1 final)

-- The sentinel changes neither what the consumer sees nor the cursor.
pub on_ws_closed-IsInOrder :
    (seen : List Ohlcv) (p : LiveProvider) → IsInOrder seen p → IsInOrder seen (on_ws_closed p)
unfolding on_ws_closed
on_ws_closed-IsInOrder seen p o = record {
  order = rw (queued-sentinel p.update_queue seen) o.order;
  final = Final-sentinel p.update_queue o.final;
  held = o.held;
  forming = rw (queued-sentinel p.update_queue seen) o.forming;
}

pub on_ws_closed-IsLive :
    (seen : List Ohlcv) (p : LiveProvider) → IsLive seen p → IsLive seen (on_ws_closed p)
on_ws_closed-IsLive seen p h = (
  on_ws_closed-IsInOrder seen p h.0,
  unfold on_ws_closed in rw (queued-sentinel p.update_queue seen) h.1,
)

-- Nothing that arrives disturbs the order.
pub IsLive-IsKept : (seen : List Ohlcv) → IsKept (IsLive seen)
unfolding note_trade set_ready
IsLive-IsKept seen = record {
  pushes = record {
    enqueues = λ b p final later h. enqueue_closed-IsLive seen b p final later h;
    holds = λ pending b p e final h.
        let held : Held (some pending) = subst (λ (x : Option (List Ohlcv)). Held x) e h.0.held in
        (
          record {
            order = h.0.order;
            final = h.0.final;
            held = AllFinal-append pending b held final;
            forming = h.0.forming;
          },
          h.1,
        );
    notes = λ b p h. h;
    shows = λ b p still later h. (
      record {
        order = h.0.order;
        final = h.0.final;
        held = h.0.held;
        forming = (still, After-cursor _ _ b.timestamp h.1 later);
      },
      h.1,
    );
    wakes = λ p h. h;
  };
  closes = λ p h. on_ws_closed-IsLive seen p h;
  connects = λ ws task p h. h;
}
