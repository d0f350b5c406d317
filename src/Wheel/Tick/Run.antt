-- ===== src/Wheel/Tick/Run.antt =====
-- `tick` as a whole: it ends, and the timers that are due at the clock's last reading are fired.
use mathlib.Core.List.{append-nil}
use uvent.Common.{
  sym, ap, ap₂, true, List, In, ℕ, zero, suc, ◌+◌, ◌-◌, ◌≤◌, ◌<◌, ◌≡◌, refl, ◌∙◌, inl, inr, false,
  some, [], ◌++◌, arith, leb, leb→le, leb-false→lt, Bool-cases, In-append_right, length, max,
}
use native.Mathlib.Decide.{dec_le}
use uvent.Timer.{Timer}
use uvent.Wheel.{TimerWheel}
use uvent.Wheel.Progress.{
  expiry, is_active, IsLive, Told, Told-mono, Notified, Notified-back, SameOwner,
}
use uvent.Wheel.Fires.{calls, wakes, IsOnce, FiresSome, FiresSome-refl, Fires-trans, Fires-later}
use uvent.Wheel.Advance.{IsPlaced, Advanced, advance-Advanced}
use uvent.Wheel.Tick.{refresh_next_expiry, advance_by, run_callbacks, drained, tick}

-- What `n` milliseconds of `advance` do.
pub record Elapsed (n : ℕ) (w w' : TimerWheel) : Type 0 where
  pub time : w'.current_time ≡ w.current_time + n
  pub same_called : w'.called ≡ w.called
  pub placed : IsPlaced w'
  pub owner : (q : ℕ) → SameOwner (w.timers q) (w'.timers q)
  pub due :
      (q : ℕ)
      → IsLive w q
      → expiry w q ≤ w.current_time + n
      → 1 ≤ n
      → (is_active w' q ≡ false) × Notified w' (w.timers q)
  pub early : (q : ℕ) → IsLive w q → w.current_time + n < expiry w q → IsLive w' q
  pub dead : (q : ℕ) → is_active w q ≡ false → is_active w' q ≡ false
  pub told : (t : Timer) → Notified w t → Notified w' t
  pub fires : FiresSome (w.current_time + n) w w'

Elapsed-zero : (w : TimerWheel) → IsPlaced w → Elapsed 0 w w
Elapsed-zero w ok = record {
  time = omega arith;
  same_called = refl;
  placed = ok;
  owner = λ q. (refl, refl, refl, refl, refl);
  due = λ q live late h. absurd (omega arith);
  early = λ q live soon. live;
  dead = λ q h. h;
  told = λ t n. n;
  fires = FiresSome-refl (w.current_time + 0) w;
}

Elapsed-suc : (n : ℕ) (u v w : TimerWheel) → Advanced u v → Elapsed n v w → Elapsed (suc n) u w
Elapsed-suc n u v w a b = record {
  time = omega (arith, a.time, b.time);
  same_called = b.same_called ∙ a.same_called;
  placed = b.placed;
  owner = λ q.
      let x = a.owner q in
      let y = b.owner q in (y.0 ∙ x.0, y.1 ∙ x.1, y.2 ∙ x.2, y.3 ∙ x.3, y.4 ∙ x.4);
  due = λ q live late h. elim (dec_le (expiry u q) (u.current_time + 1)) [
    | yes now ↦ let (dead, told) = a.due q live now in (b.dead q dead, b.told (u.timers q) told)
    | no soon ↦
        let still = a.early q live (omega arith) in
        let same = (a.owner q).0 in
        let (dead, told) =
          b.due q still (omega (arith, same, a.time, late)) (omega (arith, late)) in
        (dead, Notified-back w (u.timers q) (v.timers q) (a.owner q) told)
  ];
  early = λ q live soon.
      b.early q (a.early q live (omega (arith, soon))) (omega (arith, (a.owner q).0, a.time, soon));
  dead = λ q h. b.dead q (a.dead q h);
  told = λ t h. b.told t (a.told t h);
  fires =
      let (xs, f) = a.fires in
      let (ys, g) = b.fires in
      (
        xs ++ ys,
        Fires-trans (u.current_time + suc n) xs ys u v w a.owner a.dead b.dead
            (Fires-later (u.current_time + 1) (u.current_time + suc n) xs u v (omega arith) f)
            (Fires-later (v.current_time + n) (u.current_time + suc n) ys v w
              (omega (arith, a.time)) g),
      );
}

pub advance_by-Elapsed :
    (n : ℕ) (w : TimerWheel)
    → IsPlaced w
    → (w' : TimerWheel) × (advance_by n w ≡ some w') × Elapsed n w w'
unfolding advance_by
advance_by-Elapsed zero w ok = (w, refl, Elapsed-zero w ok)
advance_by-Elapsed (suc n) w ok =
    let (v, first, step) = advance-Advanced w ok in
    let (w', rest, more) = advance_by-Elapsed n v step.placed in
    (w', rw (first, advance_by) rest, Elapsed-suc n w v w' step more)

-- From `v` to `w'` the timers of the list fire, each once: they were active and due at `now`, and every timer
-- that is no longer active is among them. The calls made and still to be made grow by theirs.
pub record Fired (now : ℕ) (who : List ℕ) (v w' : TimerWheel) : Type 0 where
  pub calls_are : w'.called ++ w'.fired_raw ≡ v.called ++ (v.fired_raw ++ calls v.timers who)
  pub resumed : w'.resumed ≡ v.resumed ++ wakes v.timers who
  pub was_due :
      (q : ℕ) → In q who → (is_active v q ≡ true) × (expiry v q ≤ now) × (is_active w' q ≡ false)
  pub all : (q : ℕ) → is_active v q ≡ true → is_active w' q ≡ false → In q who
  pub once : IsOnce who

-- A `tick` that ends at `w'`, from the wheel `v` that the queued operations leave, at the clock's
-- last reading `now`.
pub record Ticked (now : ℕ) (v w' : TimerWheel) : Type 0 where
  pub time : w'.current_time ≡ max now v.current_time
  pub placed : IsPlaced w'
  pub due :
      (q : ℕ)
      → IsLive v q
      → v.current_time < now
      → expiry v q ≤ now
      → let t = v.timers q in
        (is_active w' q ≡ false) × Told w'.called w'.resumed t.raw_fn t.raw_arg t.coro
  pub early : (q : ℕ) → IsLive v q → now < expiry v q → IsLive w' q
  pub no_pending : v.fired_raw ≡ [] → w'.fired_raw ≡ []
  pub fired : (who : List ℕ) × Fired (max now v.current_time) who v w'

-- The callbacks' list is appended to the log of calls.
called-Told :
    (u : TimerWheel) (t : Timer)
    → Notified u t
    → Told (u.called ++ u.fired_raw) u.resumed t.raw_fn t.raw_arg t.coro
called-Told u t n =
    Told-mono _ _ _ _ (λ x h. In-append_right x u.called u.fired_raw h) (λ x h. h) t.raw_fn
      t.raw_arg t.coro n

unequal : true ≡ false → ⊥
unequal e = cc

tick_still :
    (now : ℕ) (v : TimerWheel)
    → IsPlaced v
    → now ≤ v.current_time
    → Ticked now v (refresh_next_expiry v)
unfolding refresh_next_expiry
tick_still now v ok h = record {
  time = omega arith;
  placed = ok;
  due = λ q live lt. absurd (omega arith);
  early = λ q live soon. live;
  no_pending = λ e. e;
  fired = (
    [],
    record {
      calls_are = ap (λ l. v.called ++ l) (sym (append-nil v.fired_raw));
      resumed = sym (append-nil v.resumed);
      was_due = λ q h. elim h [ ];
      all = λ q a d. absurd (unequal (sym a ∙ d));
      once = tt;
    },
  );
}

tick_moves :
    (now : ℕ) (v u : TimerWheel)
    → v.current_time < now
    → Elapsed (now - v.current_time) v u
    → Ticked now v (run_callbacks (refresh_next_expiry u))
unfolding refresh_next_expiry run_callbacks
tick_moves now v u lt e = record {
  time = omega (arith, e.time);
  placed = e.placed;
  due = λ q live _ late.
      let (dead, told) = e.due q live (omega arith) (omega arith) in
      (dead, called-Told u (v.timers q) told);
  early = λ q live soon. e.early q live (omega (arith, soon, lt));
  no_pending = λ _. refl;
  fired =
      let (who, f) = e.fires in
      (
        who,
        record {
          calls_are = append-nil (u.called ++ u.fired_raw) ∙ ap₂ ◌++◌ e.same_called f.called;
          resumed = f.resumed;
          was_due = λ q h. let d = f.due q h in (d.0, omega (arith, d.1), d.2);
          all = f.all;
          once = f.once;
        },
      );
}

-- A `tick` ends, whatever the clock says, if the queued operations leave every timer placed. The
-- wheel's time is then the clock's last reading, or as it was if that is not later; every timer is
-- placed again. If the time moved on, a live timer that expires at or before the reading is no
-- longer active, and its callback has been called or its coroutine resumed. A live timer that
-- expires later is still live. The calls made or still to be made, and the coroutines resumed, grow by
-- exactly those of the timers that were active and no longer are, each once; all of these had expired at
-- the time that the tick ends at.
pub tick-Ticked :
    (clock : ℕ → ℕ) (w : TimerWheel)
    → IsPlaced (drained clock w)
    → (w' : TimerWheel) × (tick clock w ≡ some w')
      × Ticked (clock (length w.operations)) (drained clock w) w'
unfolding tick
tick-Ticked clock w ok =
    let now = clock (length w.operations) in
    let v = drained clock w in
    elim (Bool-cases (leb now v.current_time)) [
      | inl h ↦ (refresh_next_expiry v, rw h, tick_still now v ok (leb→le _ _ h))
      | inr h ↦
          let (u, run, e) = advance_by-Elapsed (now - v.current_time) v ok in
          (
            run_callbacks (refresh_next_expiry u),
            rw (h, run),
            tick_moves now v u (leb-false→lt _ _ h) e,
          )
    ]
