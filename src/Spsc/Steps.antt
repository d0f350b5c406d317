-- ===== src/Spsc/Steps.antt =====
-- `SPSCQueue`: the producer and the consumer as an interleaving of their accesses.
use uvent.Common.{◌≡◌, false, List, [], ◌∷◌, ◌++◌}
use uvent.Spsc.{SpscQueue, is_full, construct, publish, is_empty, front, advance}

-- How far the producer is in `emplace`: outside; it has seen room for the element; it has built it.
pub data Producer {ℓ} (A : Type ℓ) : Type ℓ where
  outside : Producer A
  has_room : A → Producer A
  has_built : A → Producer A

-- How far the consumer is in `try_dequeue`: outside; it has seen an element; it has moved it out.
pub data Consumer {ℓ} (A : Type ℓ) : Type ℓ where
  away : Consumer A
  has_seen : Consumer A
  has_moved : A → Consumer A

-- The queue with both, and what `emplace` has published and `try_dequeue` has returned so far.
pub record Ring {ℓ} (A : Type ℓ) : Type ℓ where
  pub queue : SpscQueue A
  pub producer : Producer A
  pub consumer : Consumer A
  pub sent : List A
  pub received : List A

-- A call that returns false leaves the ring as it is, and has no step.
pub data Step {ℓ} {A : Type ℓ} : Ring A → Ring A → Type ℓ where
  room_step :
      (x : A) (r : Ring A)
      → r.producer ≡ outside
      → is_full r.queue ≡ false
      → Step r (record r { producer = has_room x })
  build_step :
      (x : A) (r : Ring A)
      → r.producer ≡ has_room x
      → Step r (record r { queue = construct x r.queue; producer = has_built x })
  publish_step :
      (x : A) (r : Ring A)
      → r.producer ≡ has_built x
      → Step r (record r { queue = publish r.queue; producer = outside; sent = r.sent ++ x ∷ [] })
  see_step :
      (r : Ring A)
      → r.consumer ≡ away
      → is_empty r.queue ≡ false
      → Step r (record r { consumer = has_seen })
  move_step :
      (r : Ring A)
      → r.consumer ≡ has_seen
      → Step r (record r { consumer = has_moved (front r.queue) })
  advance_step :
      (x : A) (r : Ring A)
      → r.consumer ≡ has_moved x
      → Step r
          (record r { queue = advance r.queue; consumer = away; received = r.received ++ x ∷ [] })

pub data Runs {ℓ} {A : Type ℓ} : Ring A → Ring A → Type ℓ where
  done : (r : Ring A) → Runs r r
  next : {p q r : Ring A} → Runs p q → Step q r → Runs p r

abbrev pub start {ℓ} : {A : Type ℓ} → SpscQueue A → Ring A
start q = record { queue = q; producer = outside; consumer = away; sent = []; received = [] }
