-- ===== src/Header/Refs.antt =====
-- RefCountedSession.h with SocketMetadata.h: the life of a session that is shared by references, while
-- flags and epochs change in the same word.
use Prim.Native.Nat.{bit_and, bit_or}
use uvent.Common.{
  ℕ, ◌+◌, ◌-◌, ◌*◌, ◌/◌, ◌%◌, ◌^◌, ◌≤◌, ◌<◌, ◌≡◌, refl, sym, ap, ◌∙◌, Bool, true, false, ◌||◌, ◌==◌,
  if◌then◌else◌, arith, Bool-cases, inl, inr, ne→==-false, ==-false→ne,
}
use uvent.Common.Bits.{u64, bit_and_mask}
use uvent.Common.Digits.{set_digit, clear_digit, bit_and_field, bit_or_low}
use uvent.Header.{
  count_mask, complement, is_closed, try_add_ref, add_ref, release, initial_state,
  timeout_epoch_bump, close_for_new_refs, mark_disconnected, try_mark_busy, clear_busy,
  try_mark_reading, clear_reading, try_mark_writing, clear_writing,
}

-- The word, the references that are held, and whether `destroy` has run.
pub record Session : Type 0 where
  pub word : ℕ
  pub refs : ℕ
  pub destroyed : Bool

abbrev pub one_if : Bool → ℕ
one_if true = 1
one_if false = 0

-- The operations that leave the references alone.
pub data FlagOp : Type 0 where
  close disconnect mark_busy unmark_busy mark_reading unmark_reading mark_writing unmark_writing
        bump :
      FlagOp

abbrev pub run_flag : FlagOp → ℕ → ℕ
run_flag FlagOp.close s = close_for_new_refs s
run_flag FlagOp.disconnect s = mark_disconnected s
run_flag FlagOp.mark_busy s = (try_mark_busy s).1
run_flag FlagOp.unmark_busy s = clear_busy s
run_flag FlagOp.mark_reading s = (try_mark_reading s).1
run_flag FlagOp.unmark_reading s = clear_reading s
run_flag FlagOp.mark_writing s = (try_mark_writing s).1
run_flag FlagOp.unmark_writing s = clear_writing s
run_flag FlagOp.bump s = timeout_epoch_bump s

-- Every step is made by a holder of a reference; `add_ref` relies on there being fewer than `2^40 - 1`.
pub data Step : Session → Session → Type 0 where
  try_step :
      (x : Session)
      → 1 ≤ x.refs
      → Step x (record x {
        word = (try_add_ref x.word).1;
        refs = x.refs + one_if (try_add_ref x.word).0;
      })
  add_step :
      (x : Session)
      → 1 ≤ x.refs
      → x.refs + 1 < 2 ^ 40
      → Step x (record x { word = add_ref x.word; refs = x.refs + 1 })
  release_step :
      (x : Session)
      → 1 ≤ x.refs
      → Step x
          (record { word = (release x.word).1; refs = x.refs - 1; destroyed = (release x.word).0 })
  flag_step :
      (op : FlagOp) (x : Session) → 1 ≤ x.refs → Step x (record x { word = run_flag op x.word })

pub data Runs : Session → Session → Type 0 where
  done : (x : Session) → Runs x x
  next : {x y z : Session} → Runs x y → Step y z → Runs x z

abbrev pub start : Session
start = record { word = initial_state; refs = 1; destroyed = false }

-- The low digits of the word count the references, and the session is destroyed when there are none.
pub record IsAccounted (x : Session) : Type 0 where
  pub fits : x.word < 2 ^ 64
  pub counted : x.word % 2 ^ 40 ≡ x.refs
  pub lives : x.destroyed ≡ (x.refs == 0)

-- A word with the same count.
abbrev SameCount : ℕ → ℕ → Type 0
SameCount s t = (t < 2 ^ 64) × (t % 2 ^ 40 ≡ s % 2 ^ 40)

module _ (s : ℕ) (h : s < 2 ^ 64) where
  if_passed :
      (b : Bool) (t : ℕ)
      → SameCount s t
      → SameCount s (if◌then◌else◌ {A = Bool × ℕ} b (true, t) (false, s)).1
  if_passed true t g = g
  if_passed false t g = (h, refl)

  if_stopped :
      (b : Bool) (t : ℕ)
      → SameCount s t
      → SameCount s (if◌then◌else◌ {A = Bool × ℕ} b (false, s) (true, t)).1
  if_stopped true t g = (h, refl)
  if_stopped false t g = g

  flag-SameCount : (op : FlagOp) → SameCount s (run_flag op s)
  unfolding close_for_new_refs mark_disconnected try_mark_busy clear_busy try_mark_reading
      clear_reading try_mark_writing clear_writing timeout_epoch_bump
  flag-SameCount FlagOp.close = omega (arith, set_digit 63 s)
  flag-SameCount FlagOp.disconnect = omega (arith, set_digit 59 s)
  flag-SameCount FlagOp.mark_busy = if_passed _ (bit_or s (2 ^ 62)) (omega (arith, set_digit 62 s))
  flag-SameCount FlagOp.unmark_busy = omega (arith, clear_digit 1 62 s (omega arith))
  flag-SameCount FlagOp.mark_reading =
      if_stopped _ (bit_or s (2 ^ 61)) (omega (arith, set_digit 61 s))
  flag-SameCount FlagOp.unmark_reading = omega (arith, clear_digit 2 61 s (omega arith))
  flag-SameCount FlagOp.mark_writing =
      if_stopped _ (bit_or s (2 ^ 60)) (omega (arith, set_digit 60 s))
  flag-SameCount FlagOp.unmark_writing = omega (arith, clear_digit 3 60 s (omega arith))
  flag-SameCount FlagOp.bump = omega arith

  -- The word that a successful `try_add_ref` writes.
  counted_up :
      s % 2 ^ 40 + 1 < 2 ^ 40
      → bit_or (bit_and s (complement count_mask)) (bit_and s count_mask + 1) ≡ s + 1
  counted_up r =
      let upper : bit_and s (complement count_mask) ≡ s / 2 ^ 40 * 2 ^ 40 =
        bit_and_field 40 s (2 ^ 24 - 1)
        ∙ ap (λ x. x * 2 ^ 40) (bit_and_mask 24 (s / 2 ^ 40))
        ∙ omega (arith, h) in
      let lower : bit_and s count_mask ≡ s % 2 ^ 40 = bit_and_mask 40 s in
      rw (upper, lower) (bit_or_low 40 (s / 2 ^ 40) (s % 2 ^ 40 + 1) r ∙ omega arith)

-- With references left the session lives.
alive : (n : ℕ) → 1 ≤ n → false ≡ (n == 0)
alive n h = sym (ne→==-false n 0 (λ e. absurd (omega (arith, e))))

or_right : (a b : Bool) → (a || b) ≡ false → b ≡ false
or_right true b e = absurd (ground (arith, e))
or_right false b e = e

-- A word that counts `n` references of a live session.
counted-IsAccounted :
    (x : Session) (w n : ℕ)
    → IsAccounted x
    → 1 ≤ x.refs
    → 1 ≤ n
    → w < 2 ^ 64
    → w % 2 ^ 40 ≡ n
    → IsAccounted (record x { word = w; refs = n })
counted-IsAccounted x w n v r k f e = record {
  fits = f;
  counted = e;
  lives = v.lives ∙ sym (alive x.refs r) ∙ alive n k;
}

try-IsAccounted :
    (x : Session)
    → IsAccounted x
    → 1 ≤ x.refs
    → IsAccounted
        (record x { word = (try_add_ref x.word).1; refs = x.refs + one_if (try_add_ref x.word).0 })
unfolding try_add_ref
try-IsAccounted x v r =
    elim (Bool-cases (is_closed x.word || (bit_and x.word count_mask == count_mask))) [
      | inl stop ↦ rw (stop) (
          counted-IsAccounted x x.word (x.refs + 0) v r (omega arith) v.fits
            (omega (arith, v.counted)))
      | inr go ↦
          let room : x.word % 2 ^ 40 + 1 < 2 ^ 40 = omega (
            arith,
            bit_and_mask 40 x.word,
            ==-false→ne (bit_and x.word count_mask) count_mask
                (or_right (is_closed x.word) (bit_and x.word count_mask == count_mask) go),
          ) in
          rw (go, counted_up x.word v.fits room)
            (counted-IsAccounted x (x.word + 1) (x.refs + 1) v r (omega arith)
              (omega (arith, v.fits, room)) (omega (arith, v.counted, room)))
    ]

release-IsAccounted :
    (x : Session)
    → IsAccounted x
    → 1 ≤ x.refs
    → IsAccounted
        (record { word = (release x.word).1; refs = x.refs - 1; destroyed = (release x.word).0 })
unfolding release
release-IsAccounted x v r = record {
  fits = omega arith;
  counted = omega (arith, v.fits, v.counted, r);
  lives = ap (λ c. c == 1) (bit_and_mask 40 x.word ∙ v.counted) ∙ last x.refs r;
}
  where
    last : (n : ℕ) → 1 ≤ n → (n == 1) ≡ (n - 1 == 0)
    last n h = ground arith

Step-IsAccounted : {x y : Session} → IsAccounted x → Step x y → IsAccounted y
unfolding add_ref
Step-IsAccounted v (try_step x r) = try-IsAccounted x v r
Step-IsAccounted v (add_step x r few) =
    counted-IsAccounted x (u64 (x.word + 1)) (x.refs + 1) v r (omega arith) (omega arith)
      (omega (arith, v.fits, v.counted, few))
Step-IsAccounted v (release_step x r) = release-IsAccounted x v r
Step-IsAccounted v (flag_step op x r) =
    let same = flag-SameCount x.word v.fits op in
    record { fits = same.0; counted = same.1 ∙ v.counted; lives = v.lives }

-- However the holders of references add and release them and set flags, the count in the word is the
-- number of references, and the session is destroyed exactly when there are none, provided that
-- `add_ref` meets fewer than `2^40 - 1` of them.
pub reachable-IsAccounted : {x : Session} → Runs start x → IsAccounted x
reachable-IsAccounted (done x) = record { fits = omega arith; counted = refl; lives = refl }
reachable-IsAccounted (next r s) = Step-IsAccounted (reachable-IsAccounted r) s
