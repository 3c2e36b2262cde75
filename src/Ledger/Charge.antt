-- ===== src/Ledger/Charge.antt =====
-- When a foreign execution is charged to the run, and for how much.
use pynecore_plugin_bybit.Prelude.{
  ℕ, Bool, true, false, ◌≡◌, refl, ◌⊎◌, List, [], ◌∷◌, ◌++◌, arith, if◌then◌else◌, Bool-cases, inl,
  inr,
}
use pynecore_plugin_bybit.Prelude.Int.{
  ℤ, pos, ◌+ℤ◌, ◌-ℤ◌, ◌≤ℤ◌, ◌<ℤ◌, abs, neg, max, min, ltb_ℤ, leb_ℤ, int_laws,
}
use pynecore_plugin_bybit.Ledger.State.{
  Dir, up, down, flat, ◌*ᴰ◌, direction, has_side, LegLedger, View, LegEvent, LegOutcome,
}
use pynecore_plugin_bybit.Ledger.Share.{take_journal}
use pynecore_plugin_bybit.Ledger.Walk.{
  take_share, consumed_by, doubtful_of, walk_own, walk_foreign, walk_event, walk_events, walk,
}
use pynecore_plugin_bybit.Ledger.Verdict.{consumed_by_range, abs_nonneg, book_verdict-SameBook}

-- Every outcome of a list has the property.
abbrev pub Every : (LegOutcome → Type 0) → List LegOutcome → Type 0
Every P [] = Unit
Every P (o ∷ os) = P o × Every P os

pub Every-append :
    (P : LegOutcome → Type 0) (os qs : List LegOutcome)
    → Every P os
    → Every P qs
    → Every P (os ++ qs)
Every-append P [] qs h k = k
Every-append P (o ∷ os) qs h k = (h.0, Every-append P os qs h.1 k)

-- A verdict charges nothing, or what it charges is proven, is more than the tolerance, and is no
-- more than the share and than what the leg fell short of it.
abbrev pub Charge : ℕ → LegOutcome → Type 0
Charge t o =
    (o.consumed ≤ℤ pos 0)
    ⊎ (o.proven ≡ true)
      × (pos t <ℤ o.consumed)
      × (o.leg_after <ℤ o.share_before)
      × (o.consumed ≤ℤ o.share_before)
      × (o.consumed ≤ℤ o.share_before -ℤ o.leg_after)

-- What a verdict says of itself; the doubtful part of a charge is a part of it.
pub record IsCharged (t : ℕ) (o : LegOutcome) : Type 0 where
  pub charge : Charge t o
  pub in_doubt : (pos 0 ≤ℤ o.doubtful) × (o.doubtful ≤ℤ o.consumed)

sign_cases : (x : ℤ) → (x ≤ℤ pos 0) ⊎ (pos 0 <ℤ x)
sign_cases x = ground arith

consumed_by_exact :
    (proven : Bool) (t : ℕ) (d : Dir) (delta share leg : ℤ)
    → pos 0 <ℤ consumed_by proven (pos t) d delta share leg
    → (proven ≡ true)
      × (pos t <ℤ consumed_by proven (pos t) d delta share leg)
      × (leg <ℤ share)
      × (consumed_by proven (pos t) d delta share leg ≤ℤ share)
      × (consumed_by proven (pos t) d delta share leg ≤ℤ share -ℤ leg)
unfolding consumed_by min max ◌-ℤ◌
consumed_by_exact proven t d delta share leg h = ground arith

doubtful_of_range :
    (t : ℕ) (consumed share doubt leg : ℤ)
    → pos 0 ≤ℤ consumed
    → (pos 0 ≤ℤ doubtful_of (pos t) consumed share doubt leg)
      × (doubtful_of (pos t) consumed share doubt leg ≤ℤ consumed)
unfolding doubtful_of
doubtful_of_range t consumed share doubt leg h =
    let taken = min consumed (max (pos 0) (share -ℤ doubt -ℤ leg)) in
    let doubtful = consumed -ℤ taken in
    elim (Bool-cases (leb_ℤ consumed (pos 0))) [
      | inl nothing ↦ rw nothing (omega arith, h)
      | inr positive ↦ rw positive (elim (Bool-cases (leb_ℤ doubtful (pos t))) [
        | inl small ↦ rw small (omega arith, h)
        | inr large ↦ rw large (elim (Bool-cases (leb_ℤ taken (pos t))) [
          | inl little ↦ rw little (h, omega arith)
          | inr more ↦ rw more (omega int_laws, omega int_laws)
        ])
      ])
    ]

walk_foreign-IsCharged :
    (proven : Bool) (t : ℕ) (leg : ℤ) (e : LegEvent) (l : LegLedger)
    → Every (IsCharged t) (walk_foreign proven (pos t) leg e l).1
unfolding walk_foreign
walk_foreign-IsCharged proven t leg e l =
    let d = direction l.share in
    let after = if has_side d then (leg +ℤ e.delta) *ᴰ d else leg +ℤ e.delta in
    let exact = consumed_by_exact proven t d e.delta (abs l.share) after in
    let range = consumed_by_range proven t d e.delta (abs l.share) after (abs_nonneg l.share) in
    (
      record {
        charge = elim (sign_cases (consumed_by proven (pos t) d e.delta (abs l.share) after)) [
          | inl nothing ↦ inl nothing
          | inr some_part ↦ inr (exact some_part)
        ];
        in_doubt = doubtful_of_range t _ (abs l.share) l.doubt after range.0;
      },
      tt,
    )

Every-if :
    (P : LegOutcome → Type 0) (b : Bool) (o : LegOutcome) → P o → Every P (if b then o ∷ [] else [])
Every-if P true o h = (h, tt)
Every-if P false o h = tt

walk_own-IsCharged :
    (proven : Bool) (t : ℕ) (leg : ℤ) (e : LegEvent) (l : LegLedger)
    → Every (IsCharged t) (walk_own proven (pos t) leg e l).1
unfolding walk_own
walk_own-IsCharged proven t leg e l =
    Every-if (IsCharged t) _ _ (record { charge = inl (omega arith); in_doubt = omega arith })

walk_events-IsCharged :
    (proven : Bool) (t : ℕ) (leg : ℤ) (es : List LegEvent) (l : LegLedger)
    → Every (IsCharged t) (walk_events proven (pos t) leg es l).1
unfolding walk_events walk_event
walk_events-IsCharged proven t leg [] l = tt
walk_events-IsCharged proven t leg (e ∷ es) l =
    Every-append (IsCharged t) _ _
      (elim (Bool-cases e.own) [
        | inl mine ↦ simp mine (walk_own-IsCharged proven t (leg +ℤ e.delta) e l)
        | inr foreign ↦ simp foreign (walk_foreign-IsCharged proven t leg e l)
      ])
      (walk_events-IsCharged proven t (leg +ℤ e.delta) es _)

-- Every verdict of a walk charges the run for a positive quantity only on complete evidence, only
-- where the execution left the leg below the share, for no more than the share and no more than
-- the leg fell short of it; a quantity within the tolerance is not charged, and the doubtful part
-- is a part of the charge.
pub walk-IsCharged :
    (cursor : ℕ) (view : View) (proven : Bool) (t : ℕ) (l : LegLedger)
    → Every (IsCharged t) (walk cursor view proven (pos t) l).1
unfolding walk
walk-IsCharged cursor view proven t l = walk_events-IsCharged proven t l.cursor_leg _ l

take_share_share :
    (c : ℤ) (d : Dir) (l : LegLedger)
    → (take_share c d l).share ≡ (if ltb_ℤ (pos 0) c then (abs l.share -ℤ c) *ᴰ d else l.share)
unfolding take_share take_journal
take_share_share c d l = ground arith

consumed_by_reduce :
    (t : ℕ) (d : Dir) (delta share leg : ℤ)
    → has_side d ≡ true
    → delta *ᴰ d <ℤ pos 0
    → pos 0 ≤ℤ share
    → (share ≤ℤ max leg (pos 0) +ℤ pos t → consumed_by true (pos t) d delta share leg ≡ pos 0)
      × (max leg (pos 0) +ℤ pos t <ℤ share
          → consumed_by true (pos t) d delta share leg ≡ share -ℤ max leg (pos 0))
unfolding consumed_by
consumed_by_reduce t d delta share leg side reduces n =
    let lost = min share (max (pos 0) (share -ℤ leg)) in
    let down : ltb_ℤ (delta *ᴰ d) (pos 0) ≡ true = ground arith in
    rw (side, down)
      (elim (Bool-cases (leb_ℤ lost (pos t))) [
        | inl small ↦
            let fits : lost ≤ℤ pos t = ground arith in
            rw small ((λ _. refl), (λ h. absurd (omega int_laws)))
        | inr large ↦
            let over : pos t <ℤ lost = ground arith in
            rw large ((λ h. absurd (omega int_laws)), (λ h. omega int_laws))
      ])

ltb_ℤ-true : (a b : ℤ) → a <ℤ b → ltb_ℤ a b ≡ true
ltb_ℤ-true a b h = ground arith

abs_times : (x : ℤ) (d : Dir) → has_side d ≡ true → pos 0 ≤ℤ x → abs (x *ᴰ d) ≡ x
unfolding abs neg
abs_times x up s h = ground arith
abs_times x down s h = ground arith
abs_times x flat s h = cc

take_share_left :
    (t : ℕ) (d : Dir) (delta leg : ℤ) (l : LegLedger)
    → has_side d ≡ true
    → delta *ᴰ d <ℤ pos 0
    → let after = (take_share (consumed_by true (pos t) d delta (abs l.share) leg) d l).share in
      (abs l.share ≤ℤ max leg (pos 0) +ℤ pos t → after ≡ l.share)
      × (max leg (pos 0) +ℤ pos t <ℤ abs l.share
          → (after ≡ max leg (pos 0) *ᴰ d) × (abs after ≡ max leg (pos 0)))
take_share_left t d delta leg l side reduces =
    let (small, large) =
      consumed_by_reduce t d delta (abs l.share) leg side reduces (abs_nonneg l.share) in
    let held = max leg (pos 0) in
    (
      (λ h. rw (take_share_share _ d l) (rw (small h))),
      (λ h.
          let lost = abs l.share -ℤ held in
          let taken : ltb_ℤ (pos 0) lost ≡ true = ltb_ℤ-true (pos 0) lost (omega int_laws) in
          let left : abs l.share -ℤ lost ≡ held = omega int_laws in
          rw (take_share_share _ d l, large h, taken, left)
            (refl, abs_times held d side (omega int_laws))),
    )

foreign_reduce_parts :
    (t : ℕ) (leg : ℤ) (e : LegEvent) (l : LegLedger)
    → has_side (direction l.share) ≡ true
    → e.delta *ᴰ direction l.share <ℤ pos 0
    → let held = max ((leg +ℤ e.delta) *ᴰ direction l.share) (pos 0) in
      let after = (walk_foreign true (pos t) leg e l).0.share in
      (abs l.share ≤ℤ held +ℤ pos t → after ≡ l.share)
      × (held +ℤ pos t <ℤ abs l.share → (after ≡ held *ᴰ direction l.share) × (abs after ≡ held))
unfolding walk_foreign
foreign_reduce_parts t leg e l side reduces =
    let d = direction l.share in
    let after = (leg +ℤ e.delta) *ᴰ d in
    let consumed = consumed_by true (pos t) d e.delta (abs l.share) after in
    simp side (
      rw
        ((book_verdict-SameBook true (pos t) (leg +ℤ e.delta) consumed
          (doubtful_of (pos t) consumed (abs l.share) l.doubt after) d l).share)
        (take_share_left t d e.delta after l side reduces))

fits_cases : (a b : ℤ) → (a ≤ℤ b) ⊎ (b <ℤ a)
fits_cases a b = ground arith

-- A proven foreign execution against the share leaves it as it was where the leg still holds it,
-- up to the tolerance, and otherwise cuts it to what the leg still holds of that side, on the side that
-- it had.
pub foreign_reduce_share :
    (t : ℕ) (leg : ℤ) (e : LegEvent) (l : LegLedger)
    → has_side (direction l.share) ≡ true
    → e.delta *ᴰ direction l.share <ℤ pos 0
    → let held = max ((leg +ℤ e.delta) *ᴰ direction l.share) (pos 0) in
      let after = (walk_foreign true (pos t) leg e l).0.share in
      (abs l.share ≤ℤ held +ℤ pos t) × (after ≡ l.share)
      ⊎ (held +ℤ pos t <ℤ abs l.share) × (after ≡ held *ᴰ direction l.share) × (abs after ≡ held)
foreign_reduce_share t leg e l side reduces =
    let parts = foreign_reduce_parts t leg e l side reduces in
    elim (fits_cases (abs l.share) (max ((leg +ℤ e.delta) *ᴰ direction l.share) (pos 0) +ℤ pos t)) [
      | inl fits ↦ inl (fits, parts.0 fits)
      | inr over ↦ inr (over, (parts.1 over).0, (parts.1 over).1)
    ]
