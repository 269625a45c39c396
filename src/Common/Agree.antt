-- ===== src/Common/Agree.antt =====
-- Two byte buffers that agree over a range, and what a copy into a buffer leaves of that.
use Prim.Native.Nat.{ℕ, zero, suc, ◌+◌, ◌-◌, ◌≤◌, ◌<◌}
use mathlib.Core.Path.{◌≡◌, refl, ap, subst, ◌∙◌}
use mathlib.Core.Logic.{◌⊎◌, inl, inr}
use mathlib.Core.List.{[], ◌∷◌, ◌++◌}
use native.Mathlib.Omega.{arith}
use new_efp.Common.Tests.{Bool-cases, ltb, if◌then◌else◌}
use new_efp.Common.Lists.{length, get_or, take, drop, length-take, get_or-append}
use new_efp.Common.Memory.{Bytes, overwrite, length-take-drop}

get_or-take : (n : ℕ) (xs : Bytes) (i : ℕ) → i < n → get_or (take n xs) i 0 ≡ get_or xs i 0
get_or-take zero xs i h = absurd (omega arith)
get_or-take (suc n) [] i h = refl
get_or-take (suc n) (x ∷ xs) zero h = refl
get_or-take (suc n) (x ∷ xs) (suc i) h = get_or-take n xs i (omega arith)

pub get_or-drop : (n : ℕ) (xs : Bytes) (i : ℕ) → get_or (drop n xs) i 0 ≡ get_or xs (n + i) 0
get_or-drop zero xs i = ap (λ k. get_or xs k 0) (omega arith)
get_or-drop (suc n) [] i = refl
get_or-drop (suc n) (x ∷ xs) i = ground (arith, get_or-drop n xs i)

-- What stands where after a copy that stays inside the block.
pub get_or-overwrite :
    (block : Bytes) (offset : ℕ) (source : Bytes) (i : ℕ)
    → offset + length source ≤ length block
    → get_or (overwrite block offset source) i 0 ≡ (
        if ltb i offset
        then get_or block i 0
        else if ltb i (offset + length source)
        then get_or source (i - offset) 0
        else get_or block i 0)
unfolding overwrite
get_or-overwrite block offset source i h = ground (
  arith,
  get_or-append (take offset block) (source ++ drop (offset + length source) block) i 0,
  get_or-append source (drop (offset + length source) block) (i - offset) 0,
  get_or-take offset block i,
  get_or-drop (offset + length source) block (i - offset - length source),
  length-take offset block,
)

-- `count` bytes of a block from `at` on are those of `content` from `from` on.
abbrev pub Agrees : Bytes → ℕ → Bytes → ℕ → ℕ → Type 0
Agrees block at content from count =
    (i : ℕ) → i < count → get_or block (at + i) 0 ≡ get_or content (from + i) 0

-- A piece of the content that is copied into a block is there.
pub Agrees-overwrite :
    (block : Bytes) (at : ℕ) (content : Bytes) (from count : ℕ)
    → from + count ≤ length content
    → at + count ≤ length block
    → Agrees (overwrite block at (take count (drop from content))) at content from count
Agrees-overwrite block at content from count inside room i h = ground (
  arith,
  length-take-drop content from count inside,
  get_or-overwrite block at (take count (drop from content)) (at + i),
  get_or-take count (drop from content) i,
  get_or-drop from content i,
)

-- A copy beside a range leaves what it agrees with.
pub Agrees-overwrite_beside :
    (block : Bytes) (offset : ℕ) (source : Bytes) (at : ℕ) (content : Bytes) (from count : ℕ)
    → offset + length source ≤ length block
    → (at + count ≤ offset) ⊎ (offset + length source ≤ at)
    → Agrees block at content from count
    → Agrees (overwrite block offset source) at content from count
Agrees-overwrite_beside block offset source at content from count room (inl before) v i h =
    ground (arith, get_or-overwrite block offset source (at + i), v i)
Agrees-overwrite_beside block offset source at content from count room (inr behind) v i h =
    ground (arith, get_or-overwrite block offset source (at + i), v i)

-- A block that begins with all bytes of the content.
pub Agrees-take :
    (content block : Bytes)
    → length content ≤ length block
    → Agrees block 0 content 0 (length content)
    → take (length content) block ≡ content
Agrees-take [] block h v = refl
Agrees-take (x ∷ xs) [] h v = absurd (omega arith)
Agrees-take (x ∷ xs) (y ∷ ys) h v =
    ground (arith, v 0, Agrees-take xs ys (omega arith) (λ i lt. ground (arith, v (suc i))))

-- Bytes that are copied from one place of a block to another.
pub Agrees-overwrite_moved :
    (block : Bytes) (at to : ℕ) (content : Bytes) (from count : ℕ)
    → at + count ≤ length block
    → to + count ≤ length block
    → Agrees block at content from count
    → Agrees (overwrite block to (take count (drop at block))) to content from count
Agrees-overwrite_moved block at to content from count inside room v i h =
    Agrees-overwrite block to block at count inside room i h ∙ v i h

-- Two ranges that touch are one.
pub Agrees-append :
    (block content : Bytes) (m n : ℕ)
    → Agrees block 0 content 0 m
    → Agrees block m content m n
    → Agrees block 0 content 0 (m + n)
Agrees-append block content m n v w i h = elim (Bool-cases (ltb i m)) [
  | inl x ↦ v i (ground arith)
  | inr x ↦
      let here : m + (i - m) ≡ 0 + i = ground (arith, x) in
      subst (λ p. get_or block p 0 ≡ get_or content p 0) here (w (i - m) (ground (arith, x)))
]
