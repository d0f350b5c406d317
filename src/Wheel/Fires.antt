-- ===== src/Wheel/Fires.antt =====
-- Which timers fire: the log of the calls and the coroutines resumed is theirs, each once.
use mathlib.Core.List.{append_assoc, append-nil}
use native.Mathlib.Decide.{ℕ_discrete}
use uvent.Common.{
  ℕ, ◌≤◌, ◌≡◌, refl, sym, ap, ap₂, subst, ◌∙◌, inl, inr, true, false, Option, none, some, List, [],
  ◌∷◌, ◌++◌, arith, In, In-append, In-append_left, In-append_right, Bool-cases,
}
use uvent.Timer.{Timer}
use uvent.Wheel.{TimerWheel, swap_pop_at, add_timer_to_wheel, fire, visit}
use uvent.Wheel.Progress.{expiry, is_active, SameOwner, Keeps}
use uvent.Wheel.Round.{
  round, Visit-cases, dropped, fired, put_back, swap_pop_at-timer, fire-timer, add-timer,
  visit-Keeps, swap_pop_at-Keeps,
}

abbrev pub call_of : Option ℕ → ℕ → List (ℕ × ℕ)
call_of (some fn) arg = (fn, arg) ∷ []
call_of none arg = []

abbrev pub wake_of : Option ℕ → Option ℕ → List ℕ
wake_of (some fn) coro = []
wake_of none (some h) = h ∷ []
wake_of none none = []

-- The calls of these timers, and the coroutines of those that have no call.
abbrev pub calls : (ℕ → Timer) → List ℕ → List (ℕ × ℕ)
calls timers [] = []
calls timers (q ∷ qs) = call_of (timers q).raw_fn (timers q).raw_arg ++ calls timers qs

abbrev pub wakes : (ℕ → Timer) → List ℕ → List ℕ
wakes timers [] = []
wakes timers (q ∷ qs) = wake_of (timers q).raw_fn (timers q).coro ++ wakes timers qs

-- No timer stands twice in the list.
abbrev pub IsOnce : List ℕ → Type 0
IsOnce [] = Unit
IsOnce (q ∷ qs) = (In q qs → ⊥) × IsOnce qs

-- From `w` to `v` the timers of the list fire, each once: they were active and due at `now`, and every timer
-- that is no longer active is among them.
pub record Fires (now : ℕ) (who : List ℕ) (w v : TimerWheel) : Type 0 where
  pub called : v.fired_raw ≡ w.fired_raw ++ calls w.timers who
  pub resumed : v.resumed ≡ w.resumed ++ wakes w.timers who
  pub due :
      (q : ℕ) → In q who → (is_active w q ≡ true) × (expiry w q ≤ now) × (is_active v q ≡ false)
  pub all : (q : ℕ) → is_active w q ≡ true → is_active v q ≡ false → In q who
  pub once : IsOnce who

unequal : true ≡ false → ⊥
unequal e = cc

calls-same :
    (f g : ℕ → Timer) (qs : List ℕ) → ((q : ℕ) → SameOwner (f q) (g q)) → calls g qs ≡ calls f qs
calls-same f g [] same = refl
calls-same f g (q ∷ qs) same = ap₂ ◌++◌ (ap₂ call_of (same q).1 (same q).2) (calls-same f g qs same)

wakes-same :
    (f g : ℕ → Timer) (qs : List ℕ) → ((q : ℕ) → SameOwner (f q) (g q)) → wakes g qs ≡ wakes f qs
wakes-same f g [] same = refl
wakes-same f g (q ∷ qs) same = ap₂ ◌++◌ (ap₂ wake_of (same q).1 (same q).3) (wakes-same f g qs same)

calls-append : (f : ℕ → Timer) (xs ys : List ℕ) → calls f (xs ++ ys) ≡ calls f xs ++ calls f ys
calls-append f [] ys = refl
calls-append f (x ∷ xs) ys =
    ap (λ l. call_of (f x).raw_fn (f x).raw_arg ++ l) (calls-append f xs ys)
    ∙ sym (append_assoc (call_of (f x).raw_fn (f x).raw_arg) (calls f xs) (calls f ys))

wakes-append : (f : ℕ → Timer) (xs ys : List ℕ) → wakes f (xs ++ ys) ≡ wakes f xs ++ wakes f ys
wakes-append f [] ys = refl
wakes-append f (x ∷ xs) ys =
    ap (λ l. wake_of (f x).raw_fn (f x).coro ++ l) (wakes-append f xs ys)
    ∙ sym (append_assoc (wake_of (f x).raw_fn (f x).coro) (wakes f xs) (wakes f ys))

IsOnce-append :
    (xs ys : List ℕ) → IsOnce xs → IsOnce ys → ((q : ℕ) → In q xs → In q ys → ⊥) → IsOnce (xs ++ ys)
IsOnce-append [] ys a b d = b
IsOnce-append (x ∷ xs) ys a b d = (
  λ h. elim (In-append x xs ys h) [ inl i ↦ a.0 i | inr i ↦ d x (inl refl) i ],
  IsOnce-append xs ys a.1 b (λ q i j. d q (inr i) j),
)

pub Fires-quiet :
    (now : ℕ) (w v : TimerWheel)
    → v.fired_raw ≡ w.fired_raw
    → v.resumed ≡ w.resumed
    → ((q : ℕ) → is_active v q ≡ is_active w q)
    → Fires now [] w v
Fires-quiet now w v e f same = record {
  called = e ∙ sym (append-nil w.fired_raw);
  resumed = f ∙ sym (append-nil w.resumed);
  due = λ q h. elim h [ ];
  all = λ q a d. absurd (unequal (sym a ∙ sym (same q) ∙ d));
  once = tt;
}

pub Fires-trans :
    (now : ℕ) (xs ys : List ℕ) (u v w : TimerWheel)
    → ((q : ℕ) → SameOwner (u.timers q) (v.timers q))
    → ((q : ℕ) → is_active u q ≡ false → is_active v q ≡ false)
    → ((q : ℕ) → is_active v q ≡ false → is_active w q ≡ false)
    → Fires now xs u v
    → Fires now ys v w
    → Fires now (xs ++ ys) u w
Fires-trans now xs ys u v w same dead stays a b =
    let was : (q : ℕ) → is_active v q ≡ true → is_active u q ≡ true = λ q h.
      elim (Bool-cases (is_active u q)) [
        | inl live ↦ live
        | inr gone ↦ absurd (unequal (sym h ∙ dead q gone))
      ] in
    record {
      called =
          b.called
          ∙ ap₂ ◌++◌ a.called (calls-same u.timers v.timers ys same)
          ∙ append_assoc u.fired_raw (calls u.timers xs) (calls u.timers ys)
          ∙ ap (λ l. u.fired_raw ++ l) (sym (calls-append u.timers xs ys));
      resumed =
          b.resumed
          ∙ ap₂ ◌++◌ a.resumed (wakes-same u.timers v.timers ys same)
          ∙ append_assoc u.resumed (wakes u.timers xs) (wakes u.timers ys)
          ∙ ap (λ l. u.resumed ++ l) (sym (wakes-append u.timers xs ys));
      due = λ q h. elim (In-append q xs ys h) [
        | inl i ↦ let d = a.due q i in (d.0, d.1, stays q d.2)
        | inr i ↦ let d = b.due q i in (was q d.0, omega (arith, d.1, (same q).0), d.2)
      ];
      all = λ q live gone. elim (Bool-cases (is_active v q)) [
        | inl still ↦ In-append_right q xs ys (b.all q still gone)
        | inr now_dead ↦ In-append_left q xs ys (a.all q live now_dead)
      ];
      once =
          IsOnce-append xs ys a.once b.once (λ q i j. unequal (sym (b.due q j).0 ∙ (a.due q i).2));
    }

called_by :
    (raw : Option ℕ) (arg : ℕ) (log : List (ℕ × ℕ))
    → elim raw as (λ _. List (ℕ × ℕ)) [ some fn ↦ log ++ (fn, arg) ∷ [] | none ↦ log ]
      ≡ log ++ (call_of raw arg ++ [])
called_by (some fn) arg log = refl
called_by none arg log = sym (append-nil log)

resumed_by :
    (raw coro : Option ℕ) (log : List ℕ)
    → elim raw as (λ _. List ℕ) [
      | some fn ↦ log
      | none ↦ elim coro as (λ _. List ℕ) [ some h ↦ log ++ h ∷ [] | none ↦ log ]
    ]
      ≡ log ++ (wake_of raw coro ++ [])
resumed_by (some fn) coro log = sym (append-nil log)
resumed_by none (some h) log = refl
resumed_by none none log = sym (append-nil log)

fire-Fires :
    (now : ℕ) (w : TimerWheel) (p : ℕ)
    → is_active w p ≡ true
    → expiry w p ≤ now
    → Fires now (p ∷ []) w (fire w p)
fire-Fires now w p live late =
    let t = fire-timer w p in
    record {
      called = unfold fire in called_by (w.timers p).raw_fn (w.timers p).raw_arg w.fired_raw;
      resumed = unfold fire in resumed_by (w.timers p).raw_fn (w.timers p).coro w.resumed;
      due = λ q h. elim h [
        | inl e ↦ (
          ap (is_active w) e ∙ live,
          subst (λ r. expiry w r ≤ now) (sym e) late,
          ap (is_active (fire w p)) e ∙ (t p).2,
        )
        | inr i ↦ elim i [ ]
      ];
      all = λ q a d. elim (ℕ_discrete q p) [
        | yes e ↦ inl e
        | no n ↦ absurd (unequal (sym a ∙ sym ((t q).1 n) ∙ d))
      ];
      once = (λ i. elim i [ ], tt);
    }

abbrev pub FiresSome : ℕ → TimerWheel → TimerWheel → Type 0
FiresSome now w v = (who : List ℕ) × Fires now who w v

pub FiresSome-refl : (now : ℕ) (w : TimerWheel) → FiresSome now w w
FiresSome-refl now w = ([], Fires-quiet now w w refl refl (λ q. refl))

pub FiresSome-trans :
    (now : ℕ) (u v w : TimerWheel)
    → Keeps u v
    → Keeps v w
    → FiresSome now u v
    → FiresSome now v w
    → FiresSome now u w
FiresSome-trans now u v w k l (xs, a) (ys, b) =
    (xs ++ ys, Fires-trans now xs ys u v w k.same_owner k.stays_dead l.stays_dead a b)

visit-FiresSome : (w : TimerWheel) (p : ℕ) → FiresSome w.current_time w (visit w p)
visit-FiresSome w p = elim (Visit-cases w p) [
  | dropped d e ↦ rw e (FiresSome-refl w.current_time w)
  | fired a late e ↦ rw e (p ∷ [], fire-Fires w.current_time w p a late)
  | put_back a early e ↦
      let v = add_timer_to_wheel w p (expiry w p) in
      rw e (
        [],
        Fires-quiet w.current_time w v (unfold add_timer_to_wheel in refl)
            (unfold add_timer_to_wheel in refl) (λ q. (add-timer w p (expiry w p) q).1),
      )
]

pub round-FiresSome : (w : TimerWheel) (l s p : ℕ) → FiresSome w.current_time w (round w l s p)
round-FiresSome w l s p =
    let v = visit w p in
    FiresSome-trans w.current_time w v (round w l s p) (visit-Keeps w p) (swap_pop_at-Keeps v l s 0)
      (visit-FiresSome w p)
      (
        [],
        Fires-quiet w.current_time v (round w l s p) (unfold swap_pop_at in refl)
            (unfold swap_pop_at in refl) (λ q. (swap_pop_at-timer v l s 0 q).1),
      )

pub Fires-later :
    (now later : ℕ) (who : List ℕ) (w v : TimerWheel)
    → now ≤ later
    → Fires now who w v
    → Fires later who w v
Fires-later now later who w v h f = record {
  called = f.called;
  resumed = f.resumed;
  due = λ q i. let d = f.due q i in (d.0, omega (arith, d.1, h), d.2);
  all = f.all;
  once = f.once;
}
