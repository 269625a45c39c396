-- ===== src/Common/Memory.antt =====
-- A block of allocated bytes and `memcpy` into it. A copy that leaves the block has no value: the
-- program would be undefined there.
use Prim.Native.Nat.{ℕ, zero, suc, ◌+◌, ◌*◌, ◌≤◌, ◌<◌}
use mathlib.Core.Path.{◌≡◌, refl, ap, sym, ◌∙◌}
use mathlib.Core.Option.{Option, none, some}
use mathlib.Core.List.{List, [], ◌∷◌, ◌++◌}
use native.Mathlib.Omega.{arith}
use new_efp.Common.Tests.{◌>>=◌, leb, if◌then◌else◌}
use new_efp.Common.Lists.{
  length, take, drop, length-append, length-take, length-drop, take-append_length,
  drop-append_length, take-take-drop,
}

abbrev pub Bytes : Type 0
Bytes = List ℕ

-- A buffer of zeros.
unfoldable pub zeros : ℕ → Bytes
zeros zero = []
zeros (suc n) = 0 ∷ zeros n

pub length-zeros : (n : ℕ) → length (zeros n) ≡ n
unfolding zeros
length-zeros zero = refl
length-zeros (suc n) = omega (arith, length-zeros n)

-- `std::memcpy(block + offset, source, source.size())`, where it stays inside the block.
unfoldable pub overwrite : Bytes → ℕ → Bytes → Bytes
overwrite block offset source = take offset block ++ (source ++ drop (offset + length source) block)

unfoldable pub write_at : Bytes → ℕ → Bytes → Option Bytes
write_at block offset source =
    if leb (offset + length source) (length block)
    then some (overwrite block offset source)
    else none

-- `count` bytes read from `offset`, where they lie inside the block.
unfoldable pub read_at : Bytes → ℕ → ℕ → Option Bytes
read_at block offset count =
    if leb (offset + count) (length block) then some (take count (drop offset block)) else none

pub length-overwrite :
    (block : Bytes) (offset : ℕ) (source : Bytes)
    → offset + length source ≤ length block
    → length (overwrite block offset source) ≡ length block
unfolding overwrite
length-overwrite block offset source h = omega (
  arith,
  length-append (take offset block) (source ++ drop (offset + length source) block),
  length-append source (drop (offset + length source) block),
  length-take offset block,
  length-drop (offset + length source) block,
)

-- What stands up to the end of a copy: what stood in front of it, and what was copied.
pub take-overwrite :
    (block : Bytes) (offset : ℕ) (source : Bytes)
    → offset + length source ≤ length block
    → take (offset + length source) (overwrite block offset source) ≡ take offset block ++ source
unfolding overwrite
take-overwrite block offset source h =
    let front : length (take offset block) ≡ offset = omega (arith, length-take offset block) in
    let rest = drop (offset + length source) block in
    take-take-drop offset (length source) (take offset block ++ (source ++ rest))
    ∙ ap
        (λ n.
          take n (take offset block ++ (source ++ rest))
          ++ take (length source) (drop n (take offset block ++ (source ++ rest))))
        (sym front)
    ∙ rw (take-append_length (take offset block), drop-append_length (take offset block))
        (ap (◌++◌ (take offset block)) (take-append_length source rest))

pub write_at-eq :
    (block : Bytes) (offset : ℕ) (source : Bytes)
    → offset + length source ≤ length block
    → write_at block offset source ≡ some (overwrite block offset source)
unfolding write_at
write_at-eq block offset source h = ground arith

pub read_at-eq :
    (block : Bytes) (offset count : ℕ)
    → offset + count ≤ length block
    → read_at block offset count ≡ some (take count (drop offset block))
unfolding read_at
read_at-eq block offset count h = ground arith

pub length-take-drop :
    (block : Bytes) (offset count : ℕ)
    → offset + count ≤ length block
    → length (take count (drop offset block)) ≡ count
length-take-drop block offset count h =
    omega (arith, length-take count (drop offset block), length-drop offset block)

-- `memcpy` of a header to the front of a buffer, and of a payload behind it.
unfoldable pub fill : Bytes → Bytes → Bytes → Option Bytes
fill buffer header payload = write_at buffer 0 header >>= λ b. write_at b (length header) payload

overwrite-packet :
    (buffer header payload : Bytes)
    → overwrite (overwrite buffer 0 header) (length header) payload
      ≡ header ++ (payload ++ drop (length header + length payload) (overwrite buffer 0 header))
unfolding overwrite
overwrite-packet buffer header payload = rw (take-append_length header) refl

pub fill_packet :
    (buffer header payload : Bytes)
    → length header + length payload ≤ length buffer
    → (b : Bytes) × (fill buffer header payload ≡ some b)
      × (length b ≡ length buffer)
      × (read_at b 0 (length header + length payload) ≡ some (header ++ payload))
unfolding fill
fill_packet buffer header payload h = (
  whole,
  rw (write_at-eq buffer 0 header (omega arith)) (write_at-eq first (length header) payload room),
  length-overwrite first (length header) payload room ∙ same,
  read_at-eq whole 0 _ (omega (arith, same, length-overwrite first (length header) payload room))
      ∙ ap some (rw (overwrite-packet buffer header payload) front),
)
  where
    first : Bytes
    first = overwrite buffer 0 header

    same : length first ≡ length buffer
    same = length-overwrite buffer 0 header (omega arith)

    room : length header + length payload ≤ length first
    room = omega (arith, same)

    whole : Bytes
    whole = overwrite first (length header) payload

    front :
        take
          (length header + length payload)
          (header ++ (payload ++ drop (length header + length payload) first))
        ≡ header ++ payload
    front =
        take-take-drop (length header) (length payload) _
        ∙ rw (take-append_length header, drop-append_length header)
            (ap (◌++◌ header) (take-append_length payload _))

-- A slot of a block of equal slots ends where the next one begins.
pub slot_le : (size k n : ℕ) → k < n → size * k + size ≤ size * n
slot_le size k n h = grind arith
