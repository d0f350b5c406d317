-- ===== src/Buffer/Tests.antt =====
-- DynamicBuffer.cpp: bytes appended to a buffer with no memory.
use uvent.Common.{ℕ, ◌≤◌, ◌≡◌, inl, refl, some, [], ◌∷◌, ◌++◌, arith}
use uvent.Buffer.{DynamicBuffer, append, reserve}
use uvent.Buffer.Grow.{IsValid, contents, reserve-HasRoom}
use uvent.Buffer.Append.{append-contents}

abbrev zeros : ℕ → ℕ
zeros i = 0

abbrev no_memory : DynamicBuffer
no_memory = record { data_at = zeros; cap = 0; size = 0 }

no_memory-IsValid : IsValid no_memory
no_memory-IsValid = record { cap_is = inl refl; fits = omega arith }

reserve-HasRoom_example :
    (r : DynamicBuffer) × (reserve zeros no_memory 5000 ≡ some r)
    × IsValid r
    × (5000 ≤ r.cap)
    × (r.size ≡ no_memory.size)
    × (contents r ≡ contents no_memory)
reserve-HasRoom_example = reserve-HasRoom zeros no_memory 5000 no_memory-IsValid (omega arith)

append-contents_example :
    (r : DynamicBuffer) × (append zeros no_memory (1 ∷ 2 ∷ 3 ∷ []) ≡ some r)
    × IsValid r
    × (contents r ≡ contents no_memory ++ 1 ∷ 2 ∷ 3 ∷ [])
append-contents_example =
    append-contents zeros no_memory (1 ∷ 2 ∷ 3 ∷ []) no_memory-IsValid (omega arith)
