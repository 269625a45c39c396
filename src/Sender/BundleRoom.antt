-- ===== src/Sender/BundleRoom.antt =====
-- Between bundles: the buffers keep their lengths, and what a bundle starts with fits it.
use new_efp.Common.{
  ℕ, ◌+◌, ◌*◌, ◌≤◌, ◌<◌, ◌≡◌, refl, sym, ap, ◌∙◌, List, [], ◌∷◌, Option, none, some, ◌==◌, ◌&&◌,
  ltb, arith, length, ◌⊎◌, ==_iff, Bool-cases, inl, inr,
}
use native.Mathlib.Nat.{mul-le-mul_right}
use new_efp.Common.Memory.{Bytes, overwrite, write_at-eq, length-overwrite}
use mathlib.Core.Option.{some-injective}
use new_efp.Sender.State.{Sender, RetainedFragment, Request, count_fragment}
use new_efp.Sender.Retention.{retain_fragment}
use new_efp.Sender.Unchanged.{retain_fragment-Same}
use new_efp.Sender.Bundles.{
  mark_retransmitted, pop_retransmit, get_retransmit_fragment, place_retransmit, choose_retransmit,
  retransmit_count, place_first,
}

-- The MTU and the lengths of the two buffers stay.
pub record KeepsRoom (s t : Sender) : Type 0 where
  pub mtu : t.mtu ≡ s.mtu
  pub send_room : length t.send_buffer ≡ length s.send_buffer
  pub bundle_room : length t.bundle_buffer ≡ length s.bundle_buffer

pub KeepsRoom-refl : (s : Sender) → KeepsRoom s s
KeepsRoom-refl s = record { mtu = refl; send_room = refl; bundle_room = refl }

pub KeepsRoom-trans : {s t u : Sender} → KeepsRoom s t → KeepsRoom t u → KeepsRoom s u
KeepsRoom-trans a b = record {
  mtu = b.mtu ∙ a.mtu;
  send_room = b.send_room ∙ a.send_room;
  bundle_room = b.bundle_room ∙ a.bundle_room;
}

pub retained-KeepsRoom :
    (sf frag stream : ℕ) (packet : Bytes) (s : Sender)
    → KeepsRoom s (count_fragment (retain_fragment sf frag stream packet s))
unfolding count_fragment
retained-KeepsRoom sf frag stream packet s =
    let same = retain_fragment-Same sf frag stream packet s in
    record {
      mtu = same.mtu;
      send_room = ap length same.send_buffer;
      bundle_room = ap length same.bundle_buffer;
    }

popped-KeepsRoom :
    (request : Request) (rest : List Request) (s : Sender)
    → KeepsRoom s (pop_retransmit request rest s).1
unfolding pop_retransmit mark_retransmitted
popped-KeepsRoom request rest s = ground arith

queue-cases :
    (q : List Request)
    → (q ≡ []) ⊎ ((request : Request) × (rest : List Request) × (q ≡ request ∷ rest))
queue-cases [] = inl refl
queue-cases (request ∷ rest) = inr (request, rest, refl)

got-KeepsRoom : (s : Sender) → KeepsRoom s (get_retransmit_fragment s).1
unfolding get_retransmit_fragment
got-KeepsRoom s = elim (queue-cases s.retransmit_queue) [
  | inl e ↦
      rw (e, get_retransmit_fragment) (record { mtu = refl; send_room = refl; bundle_room = refl })
  | inr (request, rest, e) ↦
      let popped = popped-KeepsRoom request rest s in
      rw (e, get_retransmit_fragment)
        (record {
          mtu = popped.mtu;
          send_room = popped.send_room;
          bundle_room = popped.bundle_room;
        })
]

-- What a bundle starts with has the size of a Type1 packet, and a new fragment is left for it.
pub record Chosen (frame frags : ℕ) (s : Sender) (c : Option Bytes × ℕ × Sender) : Type 0 where
  pub size : (b : Bytes) → c.0 ≡ some b → length b ≡ frame
  pub some_new : 0 < c.1
  pub room : c.1 + retransmit_count c.0 ≤ frags
  pub keeps : KeepsRoom s c.2

placed-Chosen :
    (frame frags : ℕ) (s : Sender) (o : Option RetainedFragment × Sender)
    → 1 < frags
    → KeepsRoom s o.1
    → Chosen frame frags s (place_retransmit frame frags o)
placed-Chosen frame frags s (none, t) h kept = record {
  size = λ b e. cc e;
  some_new = omega arith;
  room = omega arith;
  keeps = kept;
}
placed-Chosen frame frags s (some f, t) h kept = elim (Bool-cases (length f.bytes == frame)) [
  | inl e ↦ rw e (record {
    size = λ b q. ap length (sym (some-injective _ _ q)) ∙ (==_iff (length f.bytes) frame).0 e;
    some_new = omega arith;
    room = omega arith;
    keeps = kept;
  })
  | inr e ↦ rw e (record {
    size = λ b q. cc q;
    some_new = omega arith;
    room = omega arith;
    keeps = KeepsRoom-trans kept (record { mtu = refl; send_room = refl; bundle_room = refl });
  })
]

pub choose-Chosen :
    (frame frags : ℕ) (s : Sender)
    → 0 < frags
    → Chosen frame frags s (choose_retransmit frame frags s)
unfolding choose_retransmit
choose-Chosen frame frags s h =
    elim (Bool-cases (ltb 0 (length s.retransmit_queue) && ltb 1 frags)) [
      | inl e ↦ rw e (
          placed-Chosen frame frags s (get_retransmit_fragment s) (ground (arith, e))
            (got-KeepsRoom s))
      | inr e ↦ rw e (record {
        size = λ b q. cc q;
        some_new = h;
        room = omega arith;
        keeps = KeepsRoom-refl s;
      })
    ]

-- Putting the packet that is sent again in its place.
pub place_first-returns :
    (again : Option Bytes) (frame : ℕ) (buffer : Bytes)
    → ((b : Bytes) → again ≡ some b → length b ≡ frame)
    → 2 + retransmit_count again * frame ≤ length buffer
    → (buffer' : Bytes) × (place_first again buffer
        ≡ some (2 + retransmit_count again * frame, buffer'))
      × (length buffer' ≡ length buffer)
unfolding place_first
place_first-returns none frame buffer size fits =
    let two : 2 ≡ 2 + 0 * frame = omega arith in (buffer, ap (λ n. some (n, buffer)) two, refl)
place_first-returns (some b) frame buffer size fits =
    let long : length b ≡ frame = size b refl in
    let room : 2 + length b ≤ length buffer = omega (arith, long, fits) in
    let end : 2 + length b ≡ 2 + 1 * frame = omega (arith, long) in
    (
      overwrite buffer 2 b,
      rw (write_at-eq buffer 2 b room) (ap (λ n. some (n, overwrite buffer 2 b)) end),
      length-overwrite buffer 2 b room,
    )

pub mul_le : (a b c : ℕ) → a ≤ b → a * c ≤ b * c
mul_le a b c h = mul-le-mul_right c h

pub add_mul : (a b c : ℕ) → (a + b) * c ≡ a * c + b * c
add_mul a b c = grind arith

pub all_sent :
    (index n t1 offset : ℕ) (s : Sender)
    → index ≡ n
    → offset ≡ index * t1
    → ◌≡◌ {A = Option (ℕ × Sender)} (some (offset, s)) (some (n * t1, s))
all_sent index n t1 offset s e at = ap (λ o. some (o, s)) (at ∙ ap (λ i. i * t1) e)
