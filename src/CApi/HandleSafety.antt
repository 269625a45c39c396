-- ===== src/CApi/HandleSafety.antt =====
-- Handles of the legacy interface are not used again, and stand for one object each.
use new_efp.Common.{
  ℕ, ◌+◌, ◌^◌, ◌≤◌, ◌<◌, ◌≡◌, ◌⊎◌, refl, ap, ◌∙◌, false, List, none, some, ◌==◌, arith, Bool-cases,
  inl, inr, ==_iff, ltb, ltb→lt,
}
use new_efp.Common.Table.{lookup, insert, erase, lookup-insert, lookup-erase}
use new_efp.CApi.Objects.{EfpSender}
use new_efp.CApi.Handles.{Handles, no_handles}
use new_efp.CApi.HandleLife.{
  Step, Run, done, call, Effect, unchanged, sender_made, receiver_made, sender_written,
  receiver_written, sender_ended, receiver_ended, Step-Effect,
}

module _ {V : Type 0} (k j : ℕ) (table : List (ℕ × V)) where
  pub insert_other :
      (value : V) → (k == j) ≡ false → lookup k (insert j value table) ≡ lookup k table
  insert_other value e = lookup-insert j k value table ∙ rw e refl

  insert-none :
      (value old : V)
      → lookup j table ≡ some old
      → lookup k table ≡ none
      → lookup k (insert j value table) ≡ none
  insert-none value old found e = elim (Bool-cases (k == j)) [
    | inl same ↦ absurd (cc (found, e, ap (λ n. lookup n table) ((==_iff k j).0 same)))
    | inr other ↦ insert_other value other ∙ e
  ]

  erase-none : lookup k table ≡ none → lookup k (erase j table) ≡ none
  erase-none e = lookup-erase j k table ∙ rw e (ground arith)

-- No object stands under the handle.
abbrev pub IsFree : ℕ → Handles → Type 0
IsFree k h = (lookup k h.senders ≡ none) × (lookup k h.receivers ≡ none)

-- Handles are given out from 1 on, in order, and one stands for a sender or for a receiver.
pub record IsOrderly (h : Handles) : Type 0 where
  pub positive : 0 < h.next_handle
  pub free : (k : ℕ) → (k ≡ 0) ⊎ (h.next_handle ≤ k) → IsFree k h
  pub apart : (k : ℕ) → (lookup k h.senders ≡ none) ⊎ (lookup k h.receivers ≡ none)

-- What changes nothing for free handles below the next.
Effect-IsFree :
    {h h' : Handles} (k : ℕ) → Effect h h' → (k == h.next_handle) ≡ false → IsFree k h → IsFree k h'
Effect-IsFree {h} k unchanged e d = d
Effect-IsFree {h} k (sender_made c) e d = (insert_other k _ h.senders c e ∙ d.0, d.1)
Effect-IsFree {h} k (receiver_made c) e d = (d.0, insert_other k _ h.receivers c e ∙ d.1)
Effect-IsFree {h} k (sender_written j old c found) e d =
    (insert-none k j h.senders c old found d.0, d.1)
Effect-IsFree {h} k (receiver_written j old c found) e d =
    (d.0, insert-none k j h.receivers c old found d.1)
Effect-IsFree {h} k (sender_ended j old found) e d = (erase-none k j h.senders d.0, d.1)
Effect-IsFree {h} k (receiver_ended j old found) e d = (d.0, erase-none k j h.receivers d.1)

-- The next handle stays or goes up by one.
Effect-next :
    {h h' : Handles}
    → Effect h h'
    → h.next_handle + 1 < 2 ^ 64
    → (h.next_handle ≤ h'.next_handle) × (h'.next_handle ≤ h.next_handle + 1)
Effect-next unchanged small = omega arith
Effect-next (sender_made c) small = omega arith
Effect-next (receiver_made c) small = omega arith
Effect-next (sender_written j old c found) small = omega arith
Effect-next (receiver_written j old c found) small = omega arith
Effect-next (sender_ended j old found) small = omega arith
Effect-next (receiver_ended j old found) small = omega arith

-- A handle that was given out and is free stays free, in any run of calls in which the 64-bit count
-- of handles does not wrap around.
pub Run-IsFree :
    {n : ℕ} {h h' : Handles} (k : ℕ)
    → Run n h h'
    → h.next_handle + n < 2 ^ 64
    → k < h.next_handle
    → IsFree k h
    → IsFree k h'
Run-IsFree k done small below d = d
Run-IsFree {h = h} k (call s run) small below d =
    let effect = Step-Effect s in
    let next = Effect-next effect (omega arith) in
    Run-IsFree k run (omega (arith, next, small)) (omega (arith, next, below))
      (Effect-IsFree k effect (ground arith) d)

-- A handle that is given out lies below the next one.
pub below_next :
    {h : Handles} (k : ℕ) (c : EfpSender)
    → IsOrderly h
    → lookup k h.senders ≡ some c
    → k < h.next_handle
below_next {h} k c v found = elim (Bool-cases (ltb k h.next_handle)) [
  | inl e ↦ ltb→lt _ _ e
  | inr e ↦ absurd (cc (found, (v.free k (inr (ground (arith, e)))).0))
]

Apart : ℕ → Handles → Type 0
Apart k h = (lookup k h.senders ≡ none) ⊎ (lookup k h.receivers ≡ none)

Effect-Apart :
    {h h' : Handles} (k : ℕ) → Effect h h' → IsFree h.next_handle h → Apart k h → Apart k h'
unfolding Apart
Effect-Apart k unchanged new a = a
Effect-Apart {h} k (sender_made c) new a = elim (Bool-cases (k == h.next_handle)) [
  | inl e ↦ inr (ap (λ n. lookup n h.receivers) ((==_iff k h.next_handle).0 e) ∙ new.1)
  | inr e ↦ elim a [ inl x ↦ inl (insert_other k _ h.senders c e ∙ x) | inr y ↦ inr y ]
]
Effect-Apart {h} k (receiver_made c) new a = elim (Bool-cases (k == h.next_handle)) [
  | inl e ↦ inl (ap (λ n. lookup n h.senders) ((==_iff k h.next_handle).0 e) ∙ new.0)
  | inr e ↦ elim a [ inl x ↦ inl x | inr y ↦ inr (insert_other k _ h.receivers c e ∙ y) ]
]
Effect-Apart {h} k (sender_written j old c found) new (inl x) =
    inl (insert-none k j h.senders c old found x)
Effect-Apart {h} k (sender_written j old c found) new (inr y) = inr y
Effect-Apart {h} k (receiver_written j old c found) new (inl x) = inl x
Effect-Apart {h} k (receiver_written j old c found) new (inr y) =
    inr (insert-none k j h.receivers c old found y)
Effect-Apart {h} k (sender_ended j old found) new (inl x) = inl (erase-none k j h.senders x)
Effect-Apart {h} k (sender_ended j old found) new (inr y) = inr y
Effect-Apart {h} k (receiver_ended j old found) new (inl x) = inl x
Effect-Apart {h} k (receiver_ended j old found) new (inr y) = inr (erase-none k j h.receivers y)

-- The next handle stays free where no object was made.
unmade-IsFree :
    {h h' : Handles} {k : ℕ}
    → Effect h h'
    → h.next_handle + 1 < 2 ^ 64
    → IsFree h.next_handle h
    → k ≡ h.next_handle
    → (k ≡ 0) ⊎ (h'.next_handle ≤ k)
    → 0 < h.next_handle
    → IsFree k h'
unmade-IsFree effect small d same (inl z) positive = absurd (omega arith)
unmade-IsFree unchanged small d same (inr l) positive = rw same d
unmade-IsFree (sender_made c) small d same (inr l) positive = absurd (omega arith)
unmade-IsFree (receiver_made c) small d same (inr l) positive = absurd (omega arith)
unmade-IsFree {h} (sender_written j old c found) small d same (inr l) positive =
    rw same (insert-none h.next_handle j h.senders c old found d.0, d.1)
unmade-IsFree {h} (receiver_written j old c found) small d same (inr l) positive =
    rw same (d.0, insert-none h.next_handle j h.receivers c old found d.1)
unmade-IsFree {h} (sender_ended j old found) small d same (inr l) positive =
    rw same (erase-none h.next_handle j h.senders d.0, d.1)
unmade-IsFree {h} (receiver_ended j old found) small d same (inr l) positive =
    rw same (d.0, erase-none h.next_handle j h.receivers d.1)

-- A free handle other than the next one, or the next one where no object was made.
next_made-IsFree :
    {h h' : Handles} (k : ℕ)
    → Effect h h'
    → h.next_handle + 1 < 2 ^ 64
    → IsOrderly h
    → (k ≡ 0) ⊎ (h'.next_handle ≤ k)
    → IsFree k h'
next_made-IsFree {h} {h'} k effect small v outside = elim (Bool-cases (k == h.next_handle)) [
  | inl e ↦
      unmade-IsFree effect small (v.free h.next_handle (inr (omega arith)))
        ((==_iff k h.next_handle).0 e) outside v.positive
  | inr e ↦ Effect-IsFree k effect e (v.free k (free_before outside))
]
  where
    free_before : (k ≡ 0) ⊎ (h'.next_handle ≤ k) → (k ≡ 0) ⊎ (h.next_handle ≤ k)
    free_before (inl z) = inl z
    free_before (inr l) = inr (omega (arith, Effect-next effect small))

-- Every call keeps the handles in order, where the count of handles does not wrap around.
pub Step-IsOrderly :
    {h h' : Handles} → Step h h' → h.next_handle + 1 < 2 ^ 64 → IsOrderly h → IsOrderly h'
unfolding Apart
Step-IsOrderly {h} s small v =
    let effect = Step-Effect s in
    record {
      positive = omega (arith, Effect-next effect small, v.positive);
      free = λ k outside. next_made-IsFree k effect small v outside;
      apart = λ k. Effect-Apart k effect (v.free h.next_handle (inr (omega arith))) (v.apart k);
    }

pub no_handles-IsOrderly : IsOrderly no_handles
unfolding lookup
no_handles-IsOrderly = record {
  positive = omega arith;
  free = λ k o. (refl, refl);
  apart = λ k. inl refl;
}
