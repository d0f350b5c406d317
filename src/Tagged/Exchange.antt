-- ===== src/Tagged/Exchange.antt =====
-- TaggedPtr.h: the exchanges, by the pointers and tags that a word stands for.
use Prim.Native.Nat.{bit_and}
use uvent.Common.{
  ℕ, ◌+◌, ◌%◌, ◌^◌, ◌<◌, ◌≡◌, ◌≢◌, refl, sym, ap, ◌∙◌, ◌==◌, inl, inr, arith, true, false,
  Bool-cases, List, [], ◌∷◌, length, ==_iff, ==-false→ne,
}
use uvent.Common.Bits.{bit_and_mask}
use uvent.Tagged.{
  tag_mask, pack, unpack_tag, Snapshot, snapshot, load, Exchanged, exchange, exchange_tagged,
}
use uvent.Tagged.Pack.{
  IsCanonical, unpack_ptr-IsCanonical, pack_sum, tagged, unpack-pack, pack-unpack,
}

-- A snapshot that can be stored.
pub record IsStorable (s : Snapshot) : Type 0 where
  pub canonical : IsCanonical s.ptr
  pub short : s.tag < 2 ^ 16

-- What an exchange of the snapshot `s` for the pointer `d` with the tag `t` on the word `v` amounts to.
pub data IsExchange (v : ℕ) (s : Snapshot) (d t : ℕ) (x : Exchanged) : Type 0 where
  swapped : load v ≡ s → x.ok ≡ true → load x.word ≡ snapshot d t → IsExchange v s d t x
  refused : load v ≢ s → x.ok ≡ false → x.expected ≡ load v → x.word ≡ v → IsExchange v s d t x

load-pack : (p t : ℕ) → IsCanonical p → t < 2 ^ 16 → load (pack p t) ≡ snapshot p t
unfolding load
load-pack p t c h =
    let e = unpack-pack p t c h in
    ap (λ x. snapshot x (unpack_tag (pack p t))) e.0 ∙ ap (λ x. snapshot p x) e.1

pack-load : (v : ℕ) → v < 2 ^ 64 → pack (load v).ptr (load v).tag ≡ v
unfolding load
pack-load v h = pack-unpack v h

module _ (v : ℕ) (h : v < 2 ^ 64) (s : Snapshot) (k : IsStorable s) where
  same_word : (v == pack s.ptr s.tag) ≡ true → load v ≡ s
  same_word e =
      ap load ((==_iff v (pack s.ptr s.tag)).0 e) ∙ load-pack s.ptr s.tag k.canonical k.short

  other_word : (v == pack s.ptr s.tag) ≡ false → load v ≢ s
  other_word e l =
      ==-false→ne v (pack s.ptr s.tag) e (sym (pack-load v h) ∙ ap (λ x. pack x.ptr x.tag) l)

  -- An exchange with an explicit tag succeeds on a word of 64 bits if the word stands for the expected
  -- snapshot, and then it stands for the desired pointer and tag. Otherwise the word stays, and the
  -- expected snapshot becomes that of the word. Snapshot and pointer are canonical, tags have 16 bits.
  exchange_tagged-IsExchange :
      (d t : ℕ) → IsCanonical d → t < 2 ^ 16 → IsExchange v s d t (exchange_tagged v s d t)
  unfolding exchange_tagged
  exchange_tagged-IsExchange d t c j = elim (Bool-cases (v == pack s.ptr s.tag)) [
    | inl e ↦ rw (e) (swapped (same_word e) refl (load-pack d t c j))
    | inr e ↦ rw (e) (refused (other_word e) refl refl refl)
  ]

  -- An exchange that chooses the tag does the same with the next tag, which is 0 after 65535.
  pub exchange-IsExchange :
      (d : ℕ) → IsCanonical d → IsExchange v s d ((s.tag + 1) % 2 ^ 16) (exchange v s d)
  unfolding exchange
  exchange-IsExchange d c =
      rw (bit_and_mask 16 (s.tag + 1))
        (exchange_tagged-IsExchange d ((s.tag + 1) % 2 ^ 16) c (omega arith))

-- The word after exchanges of the current snapshot, one for each pointer.
pub swaps : ℕ → List ℕ → ℕ
swaps v [] = v
swaps v (d ∷ ds) = swaps (exchange v (load v) d).word ds

tag_of_exchange :
    (v d : ℕ) (s : Snapshot) (t : ℕ) (x : Exchanged)
    → load v ≡ s
    → IsExchange v s d t x
    → unpack_tag x.word ≡ t
unfolding load
tag_of_exchange v d s t x e (swapped l o w) = ap (λ x. x.tag) w
tag_of_exchange v d s t x e (refused n o p w) = absurd (n e)

-- What a word stands for can be stored.
load-IsStorable : (v : ℕ) → IsStorable (load v)
unfolding load
load-IsStorable v = record { canonical = unpack_ptr-IsCanonical v; short = omega (arith, tagged v) }

abbrev pub AllCanonical : List ℕ → Type 0
AllCanonical [] = Unit
AllCanonical (d ∷ ds) = IsCanonical d × AllCanonical ds

exchange-fits : (v : ℕ) → v < 2 ^ 64 → (s : Snapshot) (d : ℕ) → (exchange v s d).word < 2 ^ 64
unfolding exchange exchange_tagged
exchange-fits v h s d = elim (Bool-cases (v == pack s.ptr s.tag)) [
  | inl e ↦ rw (e) (omega (arith, pack_sum d (bit_and (s.tag + 1) tag_mask)))
  | inr e ↦ rw (e) h
]

swaps-fits : (v : ℕ) → v < 2 ^ 64 → (ds : List ℕ) → swaps v ds < 2 ^ 64
unfolding swaps
swaps-fits v h [] = h
swaps-fits v h (d ∷ ds) = swaps-fits (exchange v (load v) d).word (exchange-fits v h (load v) d) ds

tag_of_load : (v w : ℕ) → load v ≡ load w → unpack_tag v ≡ unpack_tag w
unfolding load
tag_of_load v w e = ap (λ x. x.tag) e

next_tag :
    (v d : ℕ)
    → v < 2 ^ 64
    → IsCanonical d
    → unpack_tag (exchange v (load v) d).word ≡ (unpack_tag v + 1) % 2 ^ 16
unfolding load
next_tag v d h c =
    tag_of_exchange v d (load v) ((unpack_tag v + 1) % 2 ^ 16) (exchange v (load v) d) refl
      (exchange-IsExchange v h (load v) (load-IsStorable v) d c)

tag-swaps :
    (v : ℕ)
    → v < 2 ^ 64
    → (ds : List ℕ) → AllCanonical ds
    → unpack_tag (swaps v ds) ≡ (unpack_tag v + length ds) % 2 ^ 16
unfolding swaps
tag-swaps v h [] c = omega (arith, tagged v)
tag-swaps v h (d ∷ ds) c =
    let w = (exchange v (load v) d).word in
    tag-swaps w (exchange-fits v h (load v) d) ds c.1 ∙ omega (arith, next_tag v d h c.0)

-- After at least one and fewer than 65536 successful exchanges, whatever the pointers, an exchange that
-- expects the first snapshot fails, even if the pointer is the same again.
pub stale-Refused :
    (v : ℕ)
    → v < 2 ^ 64
    → (ds : List ℕ) → AllCanonical ds
    → 0 < length ds
    → length ds < 2 ^ 16
    → (d : ℕ) → (exchange (swaps v ds) (load v) d).ok ≡ false
unfolding exchange exchange_tagged
stale-Refused v h ds c some_done few d =
    let w = swaps v ds in
    let s = load v in
    elim (Bool-cases (w == pack s.ptr s.tag)) [
      | inl e ↦
          let same : unpack_tag w ≡ unpack_tag v =
            tag_of_load w v (same_word w (swaps-fits v h ds) s (load-IsStorable v) e) in
          absurd (omega (arith, same, tag-swaps v h ds c, some_done, few, tagged v))
      | inr e ↦ rw (e) refl
    ]
