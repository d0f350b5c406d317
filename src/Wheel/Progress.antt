-- ===== src/Wheel/Progress.antt =====
-- What the steps of `advance` keep of the timers, and what they do to those that are due.
use uvent.Common.{
  ℕ, ◌≤◌, ◌≡◌, refl, ◌∙◌, ◌⊎◌, inl, inr, Bool, true, false, Option, none, some, List, arith,
  Bool-cases, In,
}
use uvent.Timer.{Timer}
use uvent.Wheel.{TimerWheel}

abbrev pub expiry : TimerWheel → ℕ → ℕ
expiry w q = (w.timers q).expiry_time

abbrev pub is_active : TimerWheel → ℕ → Bool
is_active w q = (w.timers q).active

-- A timer that the wheel may still fire: active, and in some bucket.
abbrev pub IsLive : TimerWheel → ℕ → Type 0
IsLive w q = (is_active w q ≡ true) × (l : ℕ) × (s : ℕ) × In q (w.buckets l s)

-- The timer's callback stands in the list of those to run, or its coroutine was resumed.
abbrev pub Told : List (ℕ × ℕ) → List ℕ → Option ℕ → ℕ → Option ℕ → Type 0
Told fired resumed (some fn) arg coro = In (fn, arg) fired
Told fired resumed none arg (some h) = In h resumed
Told fired resumed none arg none = Unit {0}

abbrev pub Notified : TimerWheel → Timer → Type 0
Notified w t = Told w.fired_raw w.resumed t.raw_fn t.raw_arg t.coro

pub Told-mono :
    (fired fired' : List (ℕ × ℕ)) (resumed resumed' : List ℕ)
    → ((x : ℕ × ℕ) → In x fired → In x fired')
    → ((x : ℕ) → In x resumed → In x resumed')
    → (raw : Option ℕ) (arg : ℕ) (coro : Option ℕ) → Told fired resumed raw arg coro
    → Told fired' resumed' raw arg coro
Told-mono _ _ _ _ f g (some fn) arg coro h = f (fn, arg) h
Told-mono _ _ _ _ f g none arg (some c) h = g c h
Told-mono _ _ _ _ f g none arg none h = tt

-- What the owner of a timer set, which the wheel does not change while time passes.
abbrev pub SameOwner : Timer → Timer → Type 0
SameOwner t u =
    (u.expiry_time ≡ t.expiry_time)
    × (u.raw_fn ≡ t.raw_fn)
    × (u.raw_arg ≡ t.raw_arg)
    × (u.coro ≡ t.coro)
    × (u.id ≡ t.id)

-- What every step keeps: the owner's fields, the logs, and that a dead timer stays so.
pub record Keeps (w w' : TimerWheel) : Type 0 where
  pub same_levels : w'.levels ≡ w.levels
  pub same_time : w'.current_time ≡ w.current_time
  pub same_called : w'.called ≡ w.called
  pub same_owner : (q : ℕ) → SameOwner (w.timers q) (w'.timers q)
  pub stays_dead : (q : ℕ) → is_active w q ≡ false → is_active w' q ≡ false
  pub logged : (t : Timer) → Notified w t → Notified w' t
  pub notified : (q : ℕ) → is_active w q ≡ true → is_active w' q ≡ false → Notified w' (w.timers q)

-- A live timer stays live, or it was due and is no longer active.
abbrev pub Survives : TimerWheel → TimerWheel → Type 0
Survives w w' =
    (q : ℕ) → IsLive w q → IsLive w' q ⊎ ((expiry w q ≤ w.current_time) × (is_active w' q ≡ false))

-- The same callback and coroutine are notified alike.
pub Notified-back : (w : TimerWheel) (t u : Timer) → SameOwner t u → Notified w u → Notified w t
Notified-back w t u e n = ground arith

pub Keeps-refl : (w : TimerWheel) → Keeps w w
Keeps-refl w = record {
  same_levels = refl;
  same_time = refl;
  same_called = refl;
  same_owner = λ q. (refl, refl, refl, refl, refl);
  stays_dead = λ q h. h;
  logged = λ t n. n;
  notified = λ q h k. cc;
}

pub Keeps-trans : {u v w : TimerWheel} → Keeps u v → Keeps v w → Keeps u w
Keeps-trans {u} {v} {w} a b = record {
  same_levels = b.same_levels ∙ a.same_levels;
  same_time = b.same_time ∙ a.same_time;
  same_called = b.same_called ∙ a.same_called;
  same_owner = λ q.
      let x = a.same_owner q in
      let y = b.same_owner q in (y.0 ∙ x.0, y.1 ∙ x.1, y.2 ∙ x.2, y.3 ∙ x.3, y.4 ∙ x.4);
  stays_dead = λ q h. b.stays_dead q (a.stays_dead q h);
  logged = λ t n. b.logged t (a.logged t n);
  notified = λ q h k. elim (Bool-cases (is_active v q)) [
    | inl live ↦ Notified-back w (u.timers q) (v.timers q) (a.same_owner q) (b.notified q live k)
    | inr dead ↦ b.logged (u.timers q) (a.notified q h dead)
  ];
}

pub Survives-trans :
    {u v w : TimerWheel} → Keeps u v → Keeps v w → Survives u v → Survives v w → Survives u w
Survives-trans {u} {v} {w} a b f g q h = elim (f q h) [
  | inl h' ↦ elim (g q h') [
    | inl h'' ↦ inl h''
    | inr (late, dead) ↦ inr (omega (arith, late, (a.same_owner q).0, a.same_time), dead)
  ]
  | inr (late, dead) ↦ inr (late, b.stays_dead q dead)
]
