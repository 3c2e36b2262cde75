-- ===== src/Live/Resume.antt =====
-- A reconnect: its backfill and the bars held back meanwhile, or the rewind after an error.
use mathlib.Core.Path.{subst}
use pynecore_plugin_bybit.Prelude.{
  ℕ, Bool, true, ◌⊎◌, ◌≡◌, refl, inl, inr, Bool-cases, Option, none, some, List, [], ◌∷◌, ltb,
  if◌then◌else◌, if_rule, insert_by, sort_by, String, arith,
}
use pynecore_plugin_bybit.Live.State.{Ohlcv, Socket, LiveProvider, is_settled}
use pynecore_plugin_bybit.Live.Dispatch.{
  Push, on_messages, enqueue_closed, on_ws_closed, force_close,
}
use pynecore_plugin_bybit.Live.Kept.{IsKept, on_messages-IsKept}
use pynecore_plugin_bybit.Live.Backfill.{
  Backfilled, complete, raised, crashed, World, release, release_on, release_pending, kill, rewind,
  settle_reconnect, settled_reconnect, on_reconnect, older_bar,
}
use pynecore_plugin_bybit.Live.Order.{
  drained, queued, newest_closed, After, Ordered, AllFinal, Held, Reached, IsLive, IsLive-IsKept,
}
use pynecore_plugin_bybit.Live.Closing.{
  confirms, Reached-IsPushed, Freed-IsPushed, on_messages-cursor,
}
use pynecore_plugin_bybit.Live.Gap.{provider_of, backfill_gap-EndsWith}

insert_by-AllFinal :
    (b : Ohlcv) (bs : List Ohlcv)
    → b.is_closed ≡ true
    → AllFinal bs
    → AllFinal (insert_by older_bar b bs)
unfolding insert_by
insert_by-AllFinal b [] final h = (final, tt)
insert_by-AllFinal b (x ∷ bs) final h =
    if_rule AllFinal (ltb x.timestamp b.timestamp) _ _
      (λ below. (h.0, insert_by-AllFinal b bs final h.1)) (λ above. (final, h))

sort_by-AllFinal : (bs : List Ohlcv) → AllFinal bs → AllFinal (sort_by older_bar bs)
unfolding sort_by
sort_by-AllFinal [] h = tt
sort_by-AllFinal (b ∷ bs) h =
    insert_by-AllFinal b (sort_by older_bar bs) h.0 (sort_by-AllFinal bs h.1)

module _ {P : LiveProvider → Type 0} (k : IsKept P) where
  pub release-IsKept : (bs : List Ohlcv) (p : LiveProvider) → AllFinal bs → P p → P (release bs p)
  unfolding release
  release-IsKept [] p final h = h
  release-IsKept (b ∷ bs) p final h = release-IsKept bs _ final.1 (
      if_rule P (is_settled b.timestamp p.last_closed_bar_ts) p (enqueue_closed b p) (λ old. h)
        (λ later. k.pushes.enqueues b p final.0 later h))

  release_on-IsKept :
      (pending : Option (List Ohlcv)) (queue : Option (List (Option Ohlcv))) (p : LiveProvider)
      → Held pending
      → P p
      → P (release_on pending queue p)
  unfolding release_on
  release_on-IsKept none queue p held h = h
  release_on-IsKept (some []) queue p held h = h
  release_on-IsKept (some (b ∷ bs)) none p held h = h
  release_on-IsKept (some (b ∷ bs)) (some items) p held h =
      k.pushes.wakes _
        (release-IsKept (sort_by older_bar (b ∷ bs)) p (sort_by-AllFinal (b ∷ bs) held) h)

release_pending-IsLive :
    (seen : List Ohlcv) (p : LiveProvider) → IsLive seen p → IsLive seen (release_pending p)
unfolding release_pending
release_pending-IsLive seen p h =
    release_on-IsKept (IsLive-IsKept seen) p.pending_closed p.update_queue _ h.0.held
      (record { order = h.0.order; final = h.0.final; held = tt; forming = h.0.forming }, h.1)

-- What the consumer has seen is in order without the queue too, and the cursor has reached it.
pub seen_in_order :
    (items : List (Option Ohlcv)) (seen : List Ohlcv) (cursor : Option ℕ)
    → Ordered (drained items seen)
    → Reached (newest_closed (drained items seen)) cursor
    → Ordered seen × Reached (newest_closed seen) cursor
seen_in_order [] seen cursor o r = (o, r)
seen_in_order (none ∷ items) seen cursor o r = seen_in_order items seen cursor o r
seen_in_order (some b ∷ items) seen cursor o r =
    let (order, reached) = seen_in_order items (b ∷ seen) cursor o r in
    (order.1, earlier_reached b seen cursor order reached)
  where
    between :
        (newest cursor : Option ℕ) (t : ℕ)
        → After newest t
        → Reached (some t) cursor
        → Reached newest cursor
    between none cursor t a r = tt
    between (some s) none t a r = r
    between (some s) (some c) t a r = omega (arith, a, r)

    earlier_reached :
        (b : Ohlcv) (seen : List Ohlcv) (cursor : Option ℕ)
        → Ordered (b ∷ seen)
        → Reached (newest_closed (b ∷ seen)) cursor
        → Reached (newest_closed seen) cursor
    earlier_reached b seen cursor order r = elim (Bool-cases b.is_closed) [
      | inl final ↦ between (newest_closed seen) cursor b.timestamp order.0 (
          subst (λ (t : Bool). Reached (if t then some b.timestamp else newest_closed seen) cursor)
            final r)
      | inr still ↦
          subst (λ (t : Bool). Reached (if t then some b.timestamp else newest_closed seen) cursor)
            still r
    ]

-- what is left to the next connection: the cursor has reached all that was seen
abbrev pub IsResumable : List Ohlcv → LiveProvider → Type 0
IsResumable seen p = Ordered seen × Reached (newest_closed seen) p.last_closed_bar_ts

pub IsLive-IsResumable :
    (seen : List Ohlcv) (queue : Option (List (Option Ohlcv))) (cursor : Option ℕ)
    → Ordered (queued queue seen)
    → Reached (newest_closed (queued queue seen)) cursor
    → Ordered seen × Reached (newest_closed seen) cursor
IsLive-IsResumable seen none cursor o r = (o, r)
IsLive-IsResumable seen (some items) cursor o r = seen_in_order items seen cursor o r

-- After an error the cursor is where it was, unless a bar was confirmed while the transport was closed,
-- and not before it; no bar is held back and there is no socket.
pub record IsRewound (closing : List Push) (resume_from : Option ℕ) (p : LiveProvider)
    : Type 0 where
  pub cursor : (p.last_closed_bar_ts ≡ resume_from) ⊎ (confirms closing ≡ true)
  pub not_back : Reached resume_from p.last_closed_bar_ts
  pub dropped : p.pending_closed ≡ none
  pub offline : p.public_ws ≡ none

Reached-self : (t : Option ℕ) → Reached t t
Reached-self none = tt
Reached-self (some t) = omega arith

closed_cursor :
    (closing : List Push) (p : LiveProvider)
    → ((on_messages closing p).last_closed_bar_ts ≡ p.last_closed_bar_ts)
      ⊎ (confirms closing ≡ true)
closed_cursor closing p = elim (Bool-cases (confirms closing)) [
  | inl final ↦ inr final
  | inr still ↦ inl (on_messages-cursor closing p still)
]

force_close-IsRewound :
    (closing : List Push) (p : LiveProvider)
    → p.pending_closed ≡ none
    → IsRewound closing p.last_closed_bar_ts (force_close closing p)
unfolding force_close on_ws_closed
force_close-IsRewound closing p free =
    let q : LiveProvider = record p { public_ws = none } in
    let freed = on_messages-IsKept Freed-IsPushed closing q (free, refl) in
    record {
      cursor = closed_cursor closing q;
      not_back =
          on_messages-IsKept (Reached-IsPushed p.last_closed_bar_ts) closing q
            (Reached-self p.last_closed_bar_ts);
      dropped = freed.0;
      offline = freed.1;
    }

rewind-IsRewound :
    (closing : List Push) (resume_from : Option ℕ) (p : LiveProvider)
    → IsRewound closing resume_from (rewind closing resume_from p)
unfolding rewind
rewind-IsRewound closing resume_from p = go p.public_ws refl
  where
    go :
        (ws : Option Socket)
        → p.public_ws ≡ ws
        → IsRewound closing resume_from
            (kill closing ws (record p { last_closed_bar_ts = resume_from; pending_closed = none }))
    go none e =
        unfold kill in
        record {
          cursor = inl refl;
          not_back = Reached-self resume_from;
          dropped = refl;
          offline = e;
        }
    go (some ws) e =
        unfold kill in
        force_close-IsRewound closing
          (record p { last_closed_bar_ts = resume_from; pending_closed = none }) refl

-- How a reconnect ends: live and in order, rewound, or at a row that it cannot read, in order too.
abbrev pub Resumed : List Push → List Ohlcv → Option ℕ → Backfilled → Type 0
Resumed closing seen resume_from (complete p) = IsLive seen p
Resumed closing seen resume_from (raised p) = IsRewound closing resume_from p
Resumed closing seen resume_from (crashed p) = IsLive seen p

pub record IsResumed (closing : List Push) (seen : List Ohlcv) (resume_from : Option ℕ)
    (o : Option Backfilled) : Type 0 where
  pub result : Backfilled
  pub ends : o ≡ some result
  pub resumed : Resumed closing seen resume_from result

settle_reconnect-Resumed :
    (closing : List Push) (seen : List Ohlcv) (resume_from : Option ℕ) (b : Backfilled)
    → IsLive seen (provider_of b)
    → Resumed closing seen resume_from (settle_reconnect closing resume_from b)
unfolding settle_reconnect
settle_reconnect-Resumed closing seen resume_from (complete p) h = release_pending-IsLive seen p h
settle_reconnect-Resumed closing seen resume_from (raised p) h =
    rewind-IsRewound closing resume_from p
settle_reconnect-Resumed closing seen resume_from (crashed p) h = h

pub on_reconnect-IsResumed :
    (w : World) (timeframe : Option String) (seen : List Ohlcv) (p : LiveProvider)
    → IsLive seen p
    → IsResumed w.closing seen p.last_closed_bar_ts (on_reconnect w timeframe p)
unfolding on_reconnect
on_reconnect-IsResumed w timeframe seen p h =
    let e = backfill_gap-EndsWith (IsLive-IsKept seen) w timeframe p.update_queue p h in
    record {
      result = settle_reconnect w.closing p.last_closed_bar_ts e.result;
      ends = unfold settled_reconnect in rw e.ends refl;
      resumed = settle_reconnect-Resumed w.closing seen p.last_closed_bar_ts e.result e.provider;
    }

pub Resumed-of :
    {closing : List Push} {seen : List Ohlcv} {resume_from : Option ℕ} {o : Option Backfilled}
    (b : Backfilled)
    → IsResumed closing seen resume_from o
    → o ≡ some b
    → Resumed closing seen resume_from b
Resumed-of {closing} {seen} {resume_from} {o} b h e =
    let same : h.result ≡ b = cc in
    subst (λ (x : Backfilled). Resumed closing seen resume_from x) same h.resumed
