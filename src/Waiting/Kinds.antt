-- ===== src/Waiting/Kinds.antt =====
-- Wait.h: the two ways in which the primitives wake: one waiter for each unit, or all.
use uvent.Common.{
  ℕ, suc, ◌+◌, ◌-◌, ◌≤◌, ◌≡◌, refl, subst, sym, arith, Bool, true, false, ◌⊎◌, inl, inr,
}
use uvent.Waiting.{Wake, nobody, at_most, everybody, Gate}
use uvent.Waiting.Load.{Load}
use uvent.Waiting.Served.{IsServing, started}

-- Nobody sleeps, or every unit has a coroutine that was woken or a wake-up that is due.
abbrev pub IsFed : ℕ → Load → Type 0
IsFed units l = (l.sleeping ≡ 0) ⊎ (units ≤ l.woken + l.due)

-- Nobody sleeps, or the primitive is not open, or someone wakes all.
abbrev pub IsSwept : Bool → Load → Type 0
IsSwept false l = Unit
IsSwept true l = (l.sleeping ≡ 0) ⊎ (1 ≤ l.sweeps)

-- What the units of a primitive satisfy when it wakes one waiter for each.
abbrev pub Feeds : ℕ → Wake → ℕ → Type 0
Feeds before nobody units = units ≤ before
Feeds before (at_most k) units = units ≤ before + k
Feeds before everybody units = units ≤ before

pub record IsCounting (G : Gate) (units : G.State → ℕ) : Type 0 where
  pub blocked : (s : G.State) → G.attach_blocks s ≡ true → units s ≡ 0
  pub taken : (s : G.State) → units (G.try_complete s).1 ≡ units s - 1
  pub fed :
      (op : G.Action) (s : G.State)
      → G.Allowed op s
      → Feeds (units s) (G.run op s).0 (units (G.run op s).1)

-- What holds of a primitive that wakes all when it opens.
abbrev pub Opens : Bool → Wake → Bool → Type 0
Opens before nobody false = Unit
Opens before nobody true = before ≡ true
Opens before (at_most k) false = Unit
Opens before (at_most k) true = before ≡ true
Opens before everybody now = Unit

pub record IsOpening (G : Gate) (opened : G.State → Bool) : Type 0 where
  pub blocked : (s : G.State) → G.attach_blocks s ≡ true → opened s ≡ false
  pub kept : (s : G.State) → opened (G.try_complete s).1 ≡ opened s
  pub opens :
      (op : G.Action) (s : G.State)
      → G.Allowed op s
      → Opens (opened s) (G.run op s).0 (opened (G.run op s).1)

-- Fewer sleepers, fewer units.
IsFed-less :
    (c d : ℕ) (l m : Load)
    → (l.sleeping ≡ 0 → m.sleeping ≡ 0)
    → (c ≤ l.woken + l.due → d ≤ m.woken + m.due)
    → IsFed c l
    → IsFed d m
IsFed-less c d l m f g (inl z) = inl (f z)
IsFed-less c d l m f g (inr h) = inr (g h)

IsFed-started : (c d : ℕ) (k : Wake) (l : Load) → Feeds c k d → IsFed c l → IsFed d (started k l)
IsFed-started c d nobody l h (inl z) = inl z
IsFed-started c d (at_most k) l h (inl z) = inl z
IsFed-started c d everybody l h (inl z) = inl z
IsFed-started c d nobody l h (inr e) = inr (omega (arith, h, e))
IsFed-started c d (at_most k) l h (inr e) = inr (omega (arith, h, e))
IsFed-started c d everybody l h (inr e) = inr (omega (arith, h, e))

pub counting-IsServing :
    (G : Gate) (units : G.State → ℕ) → IsCounting G units → IsServing G (λ s l. IsFed (units s) l)
counting-IsServing G units c = record {
  rests = λ s l a h p.
      IsFed-less (units s) (units s) l (record l { sleeping = a }) (λ z. omega (arith, z, h))
        (λ k. k) p;
  sleeps_on = λ s l a b h p. inr (omega (arith, c.blocked s b));
  tries = λ s l p.
      subst (λ u. IsFed u l) (sym (c.taken s))
        (IsFed-less (units s) (units s - 1) l l (λ z. z) (λ k. omega (arith, k)) p);
  retries = λ s l n e p.
      subst (λ u. IsFed u (record l { woken = n })) (sym (c.taken s))
        (IsFed-less (units s) (units s - 1) l (record l { woken = n }) (λ z. z)
          (λ k. omega (arith, k, e)) p);
  runs = λ op s l a p.
      IsFed-started (units s) (units (G.run op s).1) (G.run op s).0 l (c.fed op s a) p;
  wakes = λ s l a d h k e p.
      IsFed-less (units s) (units s) l (record l { sleeping = a; woken = suc l.woken; due = d })
        (λ z. omega (arith, z, k)) (λ q. omega (arith, q, e)) p;
  sweeps_one = λ s l a h k p.
      IsFed-less (units s) (units s) l (record l { sleeping = a; woken = suc l.woken })
        (λ z. omega (arith, z, k)) (λ q. omega (arith, q)) p;
  stops = λ s l d e p. inl e;
  ends = λ s l n e p. inl e;
}

IsSwept-less :
    (b : Bool) (l m : Load)
    → (l.sleeping ≡ 0 → m.sleeping ≡ 0)
    → l.sweeps ≡ m.sweeps
    → IsSwept b l
    → IsSwept b m
IsSwept-less false l m f g p = tt
IsSwept-less true l m f g (inl z) = inl (f z)
IsSwept-less true l m f g (inr h) = inr (omega (arith, h, g))

IsSwept-started :
    (b now : Bool) (k : Wake) (l : Load) → Opens b k now → IsSwept b l → IsSwept now (started k l)
IsSwept-started b false k l h p = tt
IsSwept-started b true everybody l h p = inr (omega arith)
IsSwept-started b true nobody l h p = subst (λ x. IsSwept x l) h p
IsSwept-started b true (at_most k) l h p =
    IsSwept-less true l (record l { due = k + l.due }) (λ z. z) refl (subst (λ x. IsSwept x l) h p)

IsSwept-rested : (b : Bool) (l : Load) → l.sleeping ≡ 0 → IsSwept b l
IsSwept-rested false l e = tt
IsSwept-rested true l e = inl e

pub opening-IsServing :
    (G : Gate) (opened : G.State → Bool)
    → IsOpening G opened
    → IsServing G (λ s l. IsSwept (opened s) l)
opening-IsServing G opened c = record {
  rests = λ s l a h p.
      IsSwept-less (opened s) l (record l { sleeping = a }) (λ z. omega (arith, z, h)) refl p;
  sleeps_on =
      λ s l a b h p. subst (λ x. IsSwept x (record l { sleeping = a })) (sym (c.blocked s b)) tt;
  tries = λ s l p. subst (λ x. IsSwept x l) (sym (c.kept s)) p;
  retries = λ s l n e p.
      subst (λ x. IsSwept x (record l { woken = n })) (sym (c.kept s))
        (IsSwept-less (opened s) l (record l { woken = n }) (λ z. z) refl p);
  runs = λ op s l a p.
      IsSwept-started (opened s) (opened (G.run op s).1) (G.run op s).0 l (c.opens op s a) p;
  wakes = λ s l a d h k e p.
      IsSwept-less (opened s) l (record l { sleeping = a; woken = suc l.woken; due = d })
        (λ z. omega (arith, z, k)) refl p;
  sweeps_one = λ s l a h k p.
      IsSwept-less (opened s) l (record l { sleeping = a; woken = suc l.woken })
        (λ z. omega (arith, z, k)) refl p;
  stops = λ s l d e p. IsSwept-less (opened s) l (record l { due = d }) (λ z. z) refl p;
  ends = λ s l n e p. IsSwept-rested (opened s) (record l { sweeps = n }) e;
}
