-- ===== src/Ledger/Limits.antt =====
-- The limits of what a ledger keeps, and what merging given-up intervals does to their doubt.
use pynecore_plugin_bybit.Prelude.{
  ℕ, suc, ◌-◌, ◌≤◌, Bool, true, false, ◌≡◌, refl, sym, ap, ◌∙◌, inl, inr, Bool-cases, Option, List,
  [], ◌∷◌, ◌++◌, length, length-last_n, last_n, sort_by, keep, ◌==◌, some_of, ltb, ◌||◌, not,
  if◌then◌else◌, String, str_eq, arith,
}
use mathlib.Core.Path.{subst}
use text.Mathlib.TextPositions.{eq_refl}
use pynecore_plugin_bybit.Prelude.Int.{ℤ, pos, ◌+ℤ◌, int_laws, parts_of_eq, leb_ℤ}
use pynecore_plugin_bybit.Ledger.State.{Dir, has_side, LegEvent, LegGap, LegLedger, View, Credit}
use pynecore_plugin_bybit.Ledger.Share.{
  max_credits, add_credit, max_gaps, merged_gap, merge_oldest, add_gap,
}
use pynecore_plugin_bybit.Ledger.Record.{
  view_before, max_views, max_events, is_echo, judged, store_view, add_view, put_event, erase_event,
  oldest_event, drop_oldest, add_event,
}
use pynecore_plugin_bybit.Ledger.Advance.{sum_doubts}

pub record IsLimited (l : LegLedger) : Type 0 where
  pub views : length l.views ≤ max_views
  pub events : length l.events ≤ max_events
  pub credits : length l.credits ≤ max_credits
  pub gaps : length l.gaps ≤ max_gaps

length-store_view :
    (seq : ℕ) (size : ℤ) (vs : List View) → length (store_view seq size vs) ≤ max_views
unfolding store_view
length-store_view seq size vs = length-last_n {A = View} max_views (
    sort_by view_before
      (keep (λ (v : View). not (v.seq == seq)) vs ++ record { seq = seq; size = size } ∷ []))

add_view-IsLimited :
    (seq : ℕ) (size : ℤ) (updated : Option ℕ) (l : LegLedger)
    → IsLimited l
    → IsLimited (add_view seq size updated l)
unfolding add_view
add_view-IsLimited seq size updated l h =
    elim (Bool-cases (is_echo seq size updated l.newest_view)) [
      | inl echo ↦
          rw echo
            (record { views = h.views; events = h.events; credits = h.credits; gaps = h.gaps })
      | inr fresh ↦ elim (Bool-cases (judged seq l.cursor_seq)) [
        | inl old ↦
            rw (fresh, old)
              (record { views = h.views; events = h.events; credits = h.credits; gaps = h.gaps })
        | inr new ↦
            rw (fresh, new)
              (record {
                views = length-store_view seq size l.views;
                events = h.events;
                credits = h.credits;
                gaps = h.gaps;
              })
      ]
    ]

length-put_event : (e : LegEvent) (es : List LegEvent) → length (put_event e es) ≤ suc (length es)
unfolding put_event
length-put_event e [] = omega arith
length-put_event e (f ∷ fs) = ground (arith, length-put_event e fs)

-- the event with the key is in the list
abbrev has_key : String → List LegEvent → Bool
has_key k es = some_of (λ f. str_eq f.exec_id k) es

length-erase_event :
    (k : String) (es : List LegEvent)
    → has_key k es ≡ true
    → suc (length (erase_event k es)) ≤ length es
unfolding erase_event some_of
length-erase_event k [] h = absurd (cc)
length-erase_event k (f ∷ fs) h = elim (Bool-cases (str_eq f.exec_id k)) [
  | inl here ↦ rw here (omega arith)
  | inr other ↦
      let there : has_key k fs ≡ true = cc in
      rw other (omega (arith, length-erase_event k fs there))
]

has_key-later :
    (k : String) (e : LegEvent) (es : List LegEvent)
    → has_key k es ≡ true
    → has_key k (e ∷ es) ≡ true
unfolding some_of
has_key-later k e es h = ground (arith, h)

has_key-second :
    (k : String) (e f : LegEvent) (fs : List LegEvent)
    → has_key k (e ∷ fs) ≡ true
    → has_key k (e ∷ f ∷ fs) ≡ true
unfolding some_of
has_key-second k e f fs h = ground (arith, h)

oldest_next :
    (e f : LegEvent) (fs : List LegEvent) (older : Bool)
    → ltb f.seq e.seq ≡ older
    → oldest_event e (f ∷ fs) ≡ oldest_event (if older then f else e) fs
unfolding oldest_event
oldest_next e f fs older h = ap (λ b. oldest_event (if b then f else e) fs) h

oldest-has_key :
    (e : LegEvent) (fs : List LegEvent) → has_key (oldest_event e fs).exec_id (e ∷ fs) ≡ true
unfolding oldest_event some_of
oldest-has_key e [] = rw (eq_refl e.exec_id) refl
oldest-has_key e (f ∷ fs) = elim (Bool-cases (ltb f.seq e.seq)) [
  | inl older ↦
      subst (λ (o : LegEvent). has_key o.exec_id (e ∷ f ∷ fs) ≡ true)
        (sym (oldest_next e f fs true older))
        (has_key-later (oldest_event f fs).exec_id e (f ∷ fs) (oldest-has_key f fs))
  | inr younger ↦
      subst (λ (o : LegEvent). has_key o.exec_id (e ∷ f ∷ fs) ≡ true)
        (sym (oldest_next e f fs false younger))
        (has_key-second (oldest_event e fs).exec_id e f fs (oldest-has_key e fs))
]

length-drop_oldest : (es : List LegEvent) → length (drop_oldest es) ≤ length es - 1
unfolding drop_oldest
length-drop_oldest [] = omega arith
length-drop_oldest (e ∷ es) =
    omega (arith, length-erase_event (oldest_event e es).exec_id (e ∷ es) (oldest-has_key e es))

add_event-IsLimited : (e : LegEvent) (l : LegLedger) → IsLimited l → IsLimited (add_event e l).0
unfolding add_event
add_event-IsLimited e l h =
    let events = put_event e l.events in
    elim (Bool-cases (judged e.seq l.cursor_seq)) [
      | inl late ↦ rw late h
      | inr due ↦ elim (Bool-cases (ltb max_events (length events))) [
        | inl full ↦
            let few : length (drop_oldest events) ≤ max_events =
              omega (arith, length-drop_oldest events, length-put_event e l.events, h.events) in
            rw (due, full)
              (record { views = h.views; events = few; credits = h.credits; gaps = h.gaps })
        | inr free ↦
            let few : length events ≤ max_events = ground arith in
            rw (due, free)
              (record { views = h.views; events = few; credits = h.credits; gaps = h.gaps })
      ]
    ]

length-last_credits : (cs : List Credit) → length (last_n max_credits cs) ≤ max_credits
length-last_credits cs = length-last_n max_credits cs

add_credit-IsLimited :
    (seq : ℕ) (q : ℤ) (d : Dir) (l : LegLedger) → IsLimited l → IsLimited (add_credit seq q d l)
unfolding add_credit
add_credit-IsLimited seq q d l h = elim (Bool-cases (leb_ℤ q (pos 0) || not (has_side d))) [
  | inl nothing ↦ rw nothing h
  | inr taken ↦ rw taken (record {
    views = h.views;
    events = h.events;
    credits = length-last_credits (l.credits ++ record { seq = seq; quantity = q; side = d } ∷ []);
    gaps = h.gaps;
  })
]

merge_oldest-limit : (ident : ℕ) (gs : List LegGap) → length (merge_oldest ident gs).0 ≤ max_gaps
unfolding merge_oldest
merge_oldest-limit ident [] = omega arith
merge_oldest-limit ident (g ∷ []) = omega arith
merge_oldest-limit ident (g ∷ k ∷ gs) = elim (Bool-cases (ltb max_gaps (length (g ∷ k ∷ gs)))) [
  | inl many ↦ rw many (merge_oldest-limit (suc ident) (merged_gap ident g k ∷ gs))
  | inr few ↦ let fits : length (g ∷ k ∷ gs) ≤ max_gaps = ground arith in rw few fits
]

add_gap-IsLimited : (g : LegGap) (l : LegLedger) → IsLimited l → IsLimited (add_gap g l)
unfolding add_gap
add_gap-IsLimited g l h = record {
  views = h.views;
  events = h.events;
  credits = h.credits;
  gaps = merge_oldest-limit l.next_ident (l.gaps ++ g ∷ []);
}

-- A ledger within its limits (64 views, 512 executions, 8 credits, 16 given-up intervals) stays within
-- them when a view, an execution, a credit or a given-up interval is added.
pub add_limits :
    (l : LegLedger)
    → IsLimited l
    → ((seq : ℕ) (size : ℤ) (updated : Option ℕ) → IsLimited (add_view seq size updated l))
      × ((e : LegEvent) → IsLimited (add_event e l).0)
      × ((seq : ℕ) (q : ℤ) (d : Dir) → IsLimited (add_credit seq q d l))
      × ((g : LegGap) → IsLimited (add_gap g l))
add_limits l h = (
  (λ seq size updated. add_view-IsLimited seq size updated l h),
  (λ e. add_event-IsLimited e l h),
  (λ seq q d. add_credit-IsLimited seq q d l h),
  (λ g. add_gap-IsLimited g l h),
)

sum_doubts-merge_oldest :
    (ident : ℕ) (gs : List LegGap) → sum_doubts (merge_oldest ident gs).0 ≡ sum_doubts gs
unfolding merge_oldest sum_doubts
sum_doubts-merge_oldest ident [] = refl
sum_doubts-merge_oldest ident (g ∷ []) = refl
sum_doubts-merge_oldest ident (g ∷ k ∷ gs) =
    elim (Bool-cases (ltb max_gaps (length (g ∷ k ∷ gs)))) [
      | inl many ↦ rw many (
          omega (
            int_laws,
            parts_of_eq (sum_doubts-merge_oldest (suc ident) (merged_gap ident g k ∷ gs)),
          ))
      | inr few ↦ rw few refl
    ]

sum_doubts-append :
    (gs : List LegGap) (g : LegGap) → sum_doubts (gs ++ g ∷ []) ≡ sum_doubts gs +ℤ g.doubt
unfolding sum_doubts
sum_doubts-append [] g = omega int_laws
sum_doubts-append (k ∷ gs) g = omega (int_laws, parts_of_eq (sum_doubts-append gs g))

-- Keeping one more given-up interval loses none of the doubt, however many older ones are merged: the
-- sum over the intervals grows by exactly the doubt of the new one.
pub sum_doubts-add_gap :
    (g : LegGap) (l : LegLedger) → sum_doubts (add_gap g l).gaps ≡ sum_doubts l.gaps +ℤ g.doubt
unfolding add_gap
sum_doubts-add_gap g l =
    sum_doubts-merge_oldest l.next_ident (l.gaps ++ g ∷ []) ∙ sum_doubts-append l.gaps g
