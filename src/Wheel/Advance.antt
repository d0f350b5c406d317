-- ===== src/Wheel/Advance.antt =====
-- `advance`: one millisecond of the wheel fires exactly the timers that are due.
use Prim.Native.Nat.{bit_and}
use uvent.Common.{
  subst, ℕ, zero, suc, ◌+◌, ◌-◌, ◌/◌, ◌%◌, ◌≤◌, ◌<◌, ◌≡◌, refl, sym, ap, ◌∙◌, ◌⊎◌, inl, inr, ◌≢◌,
  false, some, [], arith, In, ◌==◌, Bool-cases, ==_iff,
}
use native.Mathlib.Decide.{ℕ_discrete}
use uvent.Timer.{Timer}
use uvent.Wheel.{TimerWheel, slots, interval, cascade, advance, process_slot}
use uvent.Wheel.Placement.{
  Placed, Ripe, Overdue, Placed-next, Overdue-next, Placed-lt, interval-pos, mask_slots,
}
use uvent.Wheel.Progress.{
  expiry, is_active, IsLive, Notified, SameOwner, Keeps, Keeps-refl, Keeps-trans, Survives,
  Survives-trans,
}
use uvent.Wheel.Fires.{FiresSome, FiresSome-refl, FiresSome-trans}
use uvent.Wheel.Slot.{Sorted, process_slot-Processed}

-- Between two calls: every pointer in a bucket is placed in time, or overdue in the next slot.
abbrev pub IsPlacedAt : TimerWheel → ℕ → ℕ → ℕ → Type 0
IsPlacedAt w l s x =
    (l ≤ w.levels - 1) × (Placed w.current_time (interval l) s x ⊎ Overdue w.current_time l s x)

abbrev pub IsPlaced : TimerWheel → Type 0
IsPlaced w = (l s q : ℕ) → In q (w.buckets l s) → IsPlacedAt w l s (expiry w q)

-- `++currentTime_`
abbrev later : TimerWheel → TimerWheel
later w = record w { current_time = w.current_time + 1 }

later-Sorted : (w : TimerWheel) → IsPlaced w → Sorted (suc (w.levels - 1)) (later w)
later-Sorted w ok l s q h =
    let (deep, where_now) = ok l s q h in
    (
      deep,
      elim where_now [
        | inl placed ↦
            elim (Placed-next w.current_time (interval l) s (expiry w q) (interval-pos l) placed) [
              | inl still ↦ inl still
              | inr ripe ↦ inr (omega (arith, deep), ripe)
            ]
        | inr over ↦ inr (omega (arith, deep), Overdue-next w.current_time l s (expiry w q) over)
      ],
    )

-- A level is done when its slot is empty, or when no slot of it comes up.
drop_emptied :
    (w : TimerWheel) (l s : ℕ)
    → s ≡ w.current_time / interval l % 256
    → w.buckets l s ≡ []
    → Sorted (suc l) w
    → Sorted l w
drop_emptied w l s up empty sorted i j q h =
    let (deep, fit) = sorted i j q h in
    (
      deep,
      elim fit [
        | inl placed ↦ inl placed
        | inr (low, ripe) ↦ elim (ℕ_discrete i l) [
          | no n ↦ inr (omega arith, ripe)
          | yes e ↦ absurd (gone (rw (e, same e ripe) at h))
        ]
      ],
    )
  where
    same : i ≡ l → Ripe w.current_time (interval i) j (expiry w q) → j ≡ s
    same e ripe = ripe.1 ∙ ap (λ k. w.current_time / interval k % 256) e ∙ sym up

    gone : In q (w.buckets l s) → ⊥
    gone x = elim (rw empty at x) [ ]

drop_idle :
    (w : TimerWheel) (l : ℕ) → w.current_time % interval l ≢ 0 → Sorted (suc l) w → Sorted l w
drop_idle w l idle sorted i j q h =
    let (deep, fit) = sorted i j q h in
    (
      deep,
      elim fit [
        | inl placed ↦ inl placed
        | inr (low, ripe) ↦ elim (ℕ_discrete i l) [
          | no n ↦ inr (omega arith, ripe)
          | yes e ↦ absurd (idle (rw e at ripe.0))
        ]
      ],
    )

ones : (n : ℕ) → (n % interval 0 ≡ 0) × (bit_and n (slots - 1) ≡ n / interval 0 % 256)
ones n = (omega arith, mask_slots n ∙ omega arith)

-- What a part of `advance` has done.
record Done (w : TimerWheel) (k : ℕ) (w' : TimerWheel) : Type 0 where
  keeps : Keeps w w'
  survives : Survives w w'
  sorted : Sorted k w'
  fires : FiresSome w.current_time w w'

Done-trans : {u v w : TimerWheel} (j k : ℕ) → Done u j v → Done v k w → Done u k w
Done-trans {u} {v} {w} j k a b = record {
  keeps = Keeps-trans a.keeps b.keeps;
  survives = Survives-trans a.keeps b.keeps a.survives b.survives;
  sorted = b.sorted;
  fires =
      FiresSome-trans u.current_time u v w a.keeps b.keeps a.fires
        (subst (λ now. FiresSome now v w) a.keeps.same_time b.fires);
}

slot-Done :
    (w : TimerWheel) (l s : ℕ)
    → w.current_time % interval l ≡ 0
    → s ≡ w.current_time / interval l % 256
    → Sorted (suc l) w
    → (w' : TimerWheel) × (process_slot w l s ≡ some w') × Done w l w'
slot-Done w l s whole up sorted =
    let (w', result, done) = process_slot-Processed w l s whole up sorted in
    let here : s ≡ w'.current_time / interval l % 256 = rw done.keeps.same_time up in
    (
      w',
      result,
      record {
        keeps = done.keeps;
        survives = done.survives;
        sorted = drop_emptied w' l s here done.emptied done.sorted;
        fires = done.fires;
      },
    )

cascade-Done :
    (k : ℕ) (w : TimerWheel)
    → Sorted (suc k) w
    → (w' : TimerWheel) × (cascade k w ≡ some w') × Done w 1 w'
unfolding cascade
cascade-Done zero w sorted = (
  w,
  refl,
  record {
    keeps = Keeps-refl w;
    survives = λ q live. inl live;
    sorted = sorted;
    fires = FiresSome-refl w.current_time w;
  },
)
cascade-Done (suc k) w sorted = elim (Bool-cases ((w.current_time % interval (suc k)) == 0)) [
  | inl e ↦
      let whole = (==_iff _ _).0 e in
      let (v, first, done) = slot-Done w (suc k) _ whole (mask_slots _) sorted in
      let (w', rest, more) = cascade-Done k v done.sorted in
      (w', rw (e, cascade, first) rest, Done-trans _ _ done more)
  | inr e ↦
      let idle : w.current_time % interval (suc k) ≢ 0 = λ z. cc (e, (==_iff _ _).1 z) in
      let (w', rest, more) = cascade-Done k w (drop_idle w (suc k) idle sorted) in
      (w', rw (e, cascade) rest, more)
]

-- What one `advance` does.
pub record Advanced (w w' : TimerWheel) : Type 0 where
  pub time : w'.current_time ≡ w.current_time + 1
  pub levels : w'.levels ≡ w.levels
  pub same_called : w'.called ≡ w.called
  pub placed : IsPlaced w'
  pub owner : (q : ℕ) → SameOwner (w.timers q) (w'.timers q)
  pub due :
      (q : ℕ)
      → IsLive w q
      → expiry w q ≤ w.current_time + 1
      → (is_active w' q ≡ false) × Notified w' (w.timers q)
  pub early : (q : ℕ) → IsLive w q → w.current_time + 1 < expiry w q → IsLive w' q
  pub dead : (q : ℕ) → is_active w q ≡ false → is_active w' q ≡ false
  pub told : (t : Timer) → Notified w t → Notified w' t
  pub fires : FiresSome (w.current_time + 1) w w'

-- With every level done, no timer in a bucket has expired.
Sorted-lt :
    (w : TimerWheel) (l s q : ℕ) → Sorted 0 w → In q (w.buckets l s) → w.current_time < expiry w q
Sorted-lt w l s q sorted h = elim (sorted l s q h).1 [
  | inl placed ↦ Placed-lt w.current_time (interval l) s (expiry w q) (interval-pos l) placed
  | inr x ↦ absurd (omega (arith, x.0))
]

Done-Advanced : (w w' : TimerWheel) → Done (later w) 0 w' → Advanced w w'
Done-Advanced w w' done =
    let k = done.keeps in
    record {
      time = k.same_time;
      levels = k.same_levels;
      same_called = k.same_called;
      placed = λ l s q h.
          let (deep, fit) = done.sorted l s q h in
          (deep, elim fit [ inl placed ↦ inl placed | inr x ↦ absurd (omega (arith, x.0)) ]);
      owner = k.same_owner;
      due = λ q live late. elim (done.survives q live) [
        | inl (a, l, s, h) ↦
            absurd (
              omega
                (arith, Sorted-lt w' l s q done.sorted h, (k.same_owner q).0, k.same_time, late))
        | inr (_, dead) ↦ (dead, k.notified q live.0 dead)
      ];
      early = λ q live soon. elim (done.survives q live) [
        | inl still ↦ still
        | inr (late, _) ↦ absurd (omega (arith, late, soon))
      ];
      dead = k.stays_dead;
      told = k.logged;
      fires =
          let (who, f) = done.fires in
          (
            who,
            record {
              called = f.called;
              resumed = f.resumed;
              due = f.due;
              all = f.all;
              once = f.once;
            },
          );
    }

advance_parts :
    (w v w' : TimerWheel)
    → cascade (w.levels - 1) (later w) ≡ some v
    → process_slot v 0 (bit_and v.current_time (slots - 1)) ≡ some w'
    → advance w ≡ some w'
unfolding advance
advance_parts w v w' first second = rw (first, advance) second

-- One `advance` of a wheel whose timers are all placed ends, moves the time by one, and leaves all
-- timers placed. A live timer that is due at the new time is no longer active, and its callback is
-- logged or its coroutine resumed; a live timer that is not yet due is still live. The log of callbacks and
-- the coroutines resumed grow by those of the timers that went from active to inactive, each once, and these
-- were due.
pub advance-Advanced :
    (w : TimerWheel) → IsPlaced w → (w' : TimerWheel) × (advance w ≡ some w') × Advanced w w'
advance-Advanced w ok =
    let (v, first, upper) = cascade-Done (w.levels - 1) (later w) (later-Sorted w ok) in
    let whole = ones v.current_time in
    let (w', second, lowest) = slot-Done v 0 _ whole.0 whole.1 upper.sorted in
    (w', advance_parts w v w' first second, Done-Advanced w w' (Done-trans _ _ upper lowest))
