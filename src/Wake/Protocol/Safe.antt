-- ===== src/Wake/Protocol/Safe.antt =====
-- SocketMetadata.h: no wake-up is lost, and a parked coroutine is resumed once.
use Prim.Native.Nat.{bit_and}
use uvent.Common.{
  ℕ, ◌+◌, ◌-◌, ◌%◌, ◌≡◌, ◌≢◌, ◌⊎◌, inl, inr, refl, sym, ap, subst, ◌∙◌, Bool, true, false, ◌==◌,
  arith, Bool-cases, ==_iff,
}
use uvent.Common.Bits.{bit_and_mask}
use uvent.Wake.{ready, fire, handle_of, is_armed, disarm, unpark, park_round}
use uvent.Wake.Protocol.{
  Phase, System, Step, Steps, read_step, arrive_step, poll_step, cancel_step, done, next, reader_at,
  after_round, arrive, poll, cancel, start,
}

-- A word with no coroutine in it.
abbrev pub IsHint : ℕ → Type 0
IsHint w = (w ≡ 0) ⊎ (w ≡ 1)

-- What the word holds in each phase of the coroutine `h`.
abbrev pub HoldsWord : ℕ → Phase → ℕ → Type 0
HoldsWord h Phase.checking w = IsHint w
HoldsWord h Phase.disarming w = IsHint w
HoldsWord h Phase.probing w = IsHint w
HoldsWord h Phase.loading w = IsHint w
HoldsWord h (Phase.parking cur) w = IsHint w × IsHint cur
HoldsWord h Phase.parked w = w ≡ h
HoldsWord h Phase.woken w = IsHint w

-- Bytes that came after the probe are announced: by the word, or by an edge to come.
abbrev pub Announces : Phase → ℕ → Bool → Bool → Type 0
Announces Phase.checking w d e = Unit
Announces Phase.disarming w d e = Unit
Announces Phase.probing w d e = Unit
Announces Phase.loading w d e = d ≡ true → e ≡ false → w ≡ 1
Announces (Phase.parking cur) w d e = d ≡ true → e ≡ false → w ≡ 1
Announces Phase.parked w d e = d ≡ true → e ≡ true
Announces Phase.woken w d e = Unit

-- Parks still to be resumed.
abbrev pub asleep : Phase → ℕ
asleep Phase.checking = 0
asleep Phase.disarming = 0
asleep Phase.probing = 0
asleep Phase.loading = 0
asleep (Phase.parking cur) = 0
asleep Phase.parked = 1
asleep Phase.woken = 0

pub record IsSafe (h : ℕ) (s : System) : Type 0 where
  pub holds : HoldsWord h s.phase s.word
  pub announces : Announces s.phase s.word s.data_ready s.edge
  pub counted : s.parks ≡ s.resumes + asleep s.phase

hint_of : (w : ℕ) → IsHint w → handle_of w ≡ 0
unfolding handle_of
hint_of w (inl e) = subst (λ x. x - bit_and x ready ≡ 0) (sym e) refl
hint_of w (inr e) = subst (λ x. x - bit_and x ready ≡ 0) (sym e) refl

handle_of_even : (h : ℕ) → h % 2 ≡ 0 → handle_of h ≡ h
unfolding handle_of
handle_of_even h e = omega (arith, bit_and_mask 1 h, e)

start-IsSafe : (h : ℕ) → IsSafe h start
start-IsSafe h = record { holds = inl refl; announces = tt; counted = refl }

arrive-IsSafe : (h : ℕ) (s : System) → IsSafe h s → IsSafe h (arrive s)
arrive-IsSafe h s v = record { holds = v.holds; announces = announced s.phase; counted = v.counted }
  where
    announced : (p : Phase) → Announces p s.word true true
    announced Phase.checking = tt
    announced Phase.disarming = tt
    announced Phase.probing = tt
    announced Phase.loading = λ _ e. absurd (ground (arith, e))
    announced (Phase.parking cur) = λ _ e. absurd (ground (arith, e))
    announced Phase.parked = λ _. refl
    announced Phase.woken = tt

abbrev sys : ℕ → Phase → Bool → Bool → ℕ → ℕ → System
sys w p d e a b = record { word = w; phase = p; data_ready = d; edge = e; parks = a; resumes = b }

disarm-IsHint : (w : ℕ) → IsHint w → IsHint (disarm w)
unfolding disarm
disarm-IsHint w (inl e) = subst (λ x. IsHint (disarm x)) (sym e) (inl refl)
disarm-IsHint w (inr e) = subst (λ x. IsHint (disarm x)) (sym e) (inl refl)

-- A round of `park` on a word with no coroutine in it.
RoundIsSafe : (h : ℕ) (weak d e : Bool) (a b cur w : ℕ) → Type 0
RoundIsSafe h weak d e a b cur w =
    (d ≡ true → e ≡ false → w ≡ 1)
    → a ≡ b + 0
    → IsSafe h (after_round (park_round h weak cur w) (sys w (Phase.parking cur) d e a b))

round-IsSafe :
    (h : ℕ) (weak d e : Bool) (a b cur w : ℕ)
    → IsHint cur
    → IsHint w
    → RoundIsSafe h weak d e a b cur w
unfolding RoundIsSafe park_round is_armed
round-IsSafe h weak d e a b cur w (inl p) (inl q) =
    subst (λ c. RoundIsSafe h weak d e a b c w) (sym p)
      (subst (λ x. RoundIsSafe h weak d e a b 0 x) (sym q) (first weak))
  where
    first : (weak : Bool) → RoundIsSafe h weak d e a b 0 0
    first true = λ n c. record { holds = (inl refl, inl refl); announces = n; counted = c }
    first false = λ n c. record {
      holds = refl;
      announces = λ t. elim (Bool-cases e) [ inl y ↦ y | inr y ↦ absurd (omega (arith, n t y)) ];
      counted = omega (arith, c);
    }
round-IsSafe h weak d e a b cur w (inl p) (inr q) =
    subst (λ c. RoundIsSafe h weak d e a b c w) (sym p)
      (subst (λ x. RoundIsSafe h weak d e a b 0 x) (sym q) (second weak))
  where
    second : (weak : Bool) → RoundIsSafe h weak d e a b 0 1
    second true = λ n c. record { holds = (inr refl, inr refl); announces = n; counted = c }
    second false = λ n c. record { holds = (inr refl, inr refl); announces = n; counted = c }
round-IsSafe h weak d e a b cur w (inr p) (inl q) =
    subst (λ c. RoundIsSafe h weak d e a b c w) (sym p)
      (subst (λ x. RoundIsSafe h weak d e a b 1 x) (sym q) (third weak))
  where
    third : (weak : Bool) → RoundIsSafe h weak d e a b 1 0
    third true = λ n c. record { holds = (inl refl, inl refl); announces = n; counted = c }
    third false = λ n c. record { holds = (inl refl, inl refl); announces = n; counted = c }
round-IsSafe h weak d e a b cur w (inr p) (inr q) =
    subst (λ c. RoundIsSafe h weak d e a b c w) (sym p)
      (subst (λ x. RoundIsSafe h weak d e a b 1 x) (sym q) (fourth weak))
  where
    fourth : (weak : Bool) → RoundIsSafe h weak d e a b 1 1
    fourth true = λ n c. record { holds = (inr refl, inr refl); announces = n; counted = c }
    fourth false = λ n c. record { holds = inl refl; announces = tt; counted = c }

reader-IsSafe :
    (h : ℕ) (weak left : Bool) (p : Phase) (w : ℕ) (d e : Bool) (a b : ℕ)
    → IsSafe h (sys w p d e a b)
    → IsSafe h (reader_at h weak left p (sys w p d e a b))
unfolding reader_at RoundIsSafe
reader-IsSafe h weak left Phase.checking w d e a b v = elim (Bool-cases (is_armed w)) [
  | inl t ↦ rw (t) record { holds = v.holds; announces = tt; counted = v.counted }
  | inr f ↦ rw (f) record { holds = v.holds; announces = tt; counted = v.counted }
]
reader-IsSafe h weak left Phase.disarming w d e a b v = record {
  holds = disarm-IsHint w v.holds;
  announces = tt;
  counted = v.counted;
}
reader-IsSafe h weak left Phase.probing w true e a b v = record {
  holds = v.holds;
  announces = tt;
  counted = v.counted;
}
reader-IsSafe h weak left Phase.probing w false e a b v = record {
  holds = v.holds;
  announces = λ t _. absurd (ground (arith, t));
  counted = v.counted;
}
reader-IsSafe h weak left Phase.loading w d e a b v = record {
  holds = (v.holds, v.holds);
  announces = v.announces;
  counted = v.counted;
}
reader-IsSafe h weak left (Phase.parking cur) w d e a b v =
    round-IsSafe h weak d e a b cur w v.holds.1 v.holds.0 v.announces v.counted
reader-IsSafe h weak left Phase.parked w d e a b v = v
reader-IsSafe h weak left Phase.woken w d e a b v = record {
  holds = v.holds;
  announces = tt;
  counted = v.counted;
}

poll-IsSafe :
    (h : ℕ) (p : Phase) (w : ℕ) (d e : Bool) (a b : ℕ)
    → h % 2 ≡ 0
    → h ≢ 0
    → IsSafe h (sys w p d e a b)
    → IsSafe h (poll (sys w p d e a b))
unfolding poll fire
poll-IsSafe h Phase.checking w d e a b even some v =
    rw (hint_of w v.holds) record { holds = inr refl; announces = tt; counted = v.counted }
poll-IsSafe h Phase.disarming w d e a b even some v =
    rw (hint_of w v.holds) record { holds = inr refl; announces = tt; counted = v.counted }
poll-IsSafe h Phase.probing w d e a b even some v =
    rw (hint_of w v.holds) record { holds = inr refl; announces = tt; counted = v.counted }
poll-IsSafe h Phase.loading w d e a b even some v =
    rw (hint_of w v.holds) record { holds = inr refl; announces = λ _ _. refl; counted = v.counted }
poll-IsSafe h (Phase.parking cur) w d e a b even some v =
    rw (hint_of w v.holds.0)
      record { holds = (inr refl, v.holds.1); announces = λ _ _. refl; counted = v.counted }
poll-IsSafe h Phase.parked w d e a b even some v =
    let taken : handle_of w ≡ h = ap handle_of v.holds ∙ handle_of_even h even in
    let there : (h == 0) ≡ false = ground (arith, some) in
    rw (taken, there)
      record { holds = inr refl; announces = tt; counted = omega (arith, v.counted) }
poll-IsSafe h Phase.woken w d e a b even some v =
    rw (hint_of w v.holds) record { holds = inr refl; announces = tt; counted = v.counted }

poll_parked : (s : System) (h : ℕ) → h % 2 ≡ 0 → h ≢ 0 → s.word ≡ h → (poll s).phase ≡ Phase.woken
unfolding poll fire
poll_parked s h even some e =
    let taken : handle_of s.word ≡ h = ap handle_of e ∙ handle_of_even h even in
    let there : (h == 0) ≡ false = ground (arith, some) in rw (taken, there) refl

-- On a word with no coroutine in it the cancel hook changes nothing.
unpark_hint : (w h : ℕ) → h % 2 ≡ 0 → h ≢ 0 → IsHint w → unpark w h ≡ (false, w)
unfolding unpark
unpark_hint w h even some (inl e) =
    let other : (w == h) ≡ false = ground (arith, some, e) in rw (other) refl
unpark_hint w h even some (inr e) =
    let other : (w == h) ≡ false = ground (arith, even, e) in rw (other) refl

unpark_parked : (w h : ℕ) → w ≡ h → unpark w h ≡ (true, 0)
unfolding unpark
unpark_parked w h e = let same : (w == h) ≡ true = (==_iff w h).1 e in rw (same) refl

cancel-IsSafe :
    (h : ℕ) (p : Phase) (w : ℕ) (d e : Bool) (a b : ℕ)
    → h % 2 ≡ 0
    → h ≢ 0
    → IsSafe h (sys w p d e a b)
    → IsSafe h (cancel h (sys w p d e a b))
unfolding cancel
cancel-IsSafe h Phase.checking w d e a b even some v = rw (unpark_hint w h even some v.holds) v
cancel-IsSafe h Phase.disarming w d e a b even some v = rw (unpark_hint w h even some v.holds) v
cancel-IsSafe h Phase.probing w d e a b even some v = rw (unpark_hint w h even some v.holds) v
cancel-IsSafe h Phase.loading w d e a b even some v = rw (unpark_hint w h even some v.holds) v
cancel-IsSafe h (Phase.parking cur) w d e a b even some v =
    rw (unpark_hint w h even some v.holds.0) v
cancel-IsSafe h Phase.parked w d e a b even some v =
    let taken : unpark w h ≡ (true, 0) = unpark_parked w h v.holds in
    rw (taken) record { holds = inl refl; announces = tt; counted = omega (arith, v.counted) }
cancel-IsSafe h Phase.woken w d e a b even some v = rw (unpark_hint w h even some v.holds) v

Step-IsSafe : (h : ℕ) {s t : System} → h % 2 ≡ 0 → h ≢ 0 → IsSafe h s → Step h s t → IsSafe h t
Step-IsSafe h even some v (read_step weak left s) =
    reader-IsSafe h weak left s.phase s.word s.data_ready s.edge s.parks s.resumes v
Step-IsSafe h even some v (arrive_step s) = arrive-IsSafe h s v
Step-IsSafe h even some v (poll_step s e) =
    poll-IsSafe h s.phase s.word s.data_ready s.edge s.parks s.resumes even some v
Step-IsSafe h even some v (cancel_step s) =
    cancel-IsSafe h s.phase s.word s.data_ready s.edge s.parks s.resumes even some v

-- However the steps of the reading coroutine, the kernel, the poller and the cancel hook interleave,
-- the word holds the coroutine exactly when it is parked, bytes that arrive after its probe stay
-- announced by the word or by an edge that the poller has still to handle, and of its parks all are
-- resumed exactly once but for one that still lasts. The address of the coroutine is even and not 0.
pub reachable-IsSafe : (h : ℕ) {s : System} → h % 2 ≡ 0 → h ≢ 0 → Steps h start s → IsSafe h s
reachable-IsSafe h even some (done s) = start-IsSafe h
reachable-IsSafe h even some (next r t) = Step-IsSafe h even some (reachable-IsSafe h even some r) t

-- A coroutine that is parked while bytes wait is woken by the next event that the poller handles,
-- and there is such an event. The address of the coroutine is even and not 0.
pub reachable-IsWoken :
    (h : ℕ) {s : System}
    → h % 2 ≡ 0
    → h ≢ 0
    → Steps h start s
    → s.phase ≡ Phase.parked
    → s.data_ready ≡ true
    → (s.edge ≡ true) × ((poll s).phase ≡ Phase.woken)
reachable-IsWoken h {s} even some r p d =
    let v = reachable-IsSafe h even some r in
    let announced = subst (λ q. Announces q s.word s.data_ready s.edge) p v.announces in
    let held : s.word ≡ h = subst (λ q. HoldsWord h q s.word) p v.holds in
    (announced d, poll_parked s h even some held)
