-- ===== src/Sender/Accounting.antt =====
-- `mRetentionBufferBytes` is the size of what is retained.
use new_efp.Common.{
  ℕ, ◌-◌, ◌≡◌, refl, List, [], ◌∷◌, Option, none, some, ◌==◌, ◌||◌, ltb, arith, length, ◌⊎◌,
  Bool-cases, Option-cases, inl, inr,
}
use new_efp.Common.Memory.{Bytes}
use new_efp.Common.Table.{
  remove, lookup, insert, erase, total, HasUniqueKeys, erase-HasUniqueKeys, insert-HasUniqueKeys,
  total-erase, total-erase_unused,
}
use new_efp.Sender.State.{Sender, SubFragmentMode, Request, RetainedFragment}
use new_efp.Sender.Retention.{
  evict_round, evict_loop, evict_old_retention, existing_size, forget_existing, store_fragment,
  retain_fragment, make_retention_key,
}
use new_efp.Sender.Bundles.{mark_retransmitted, pop_retransmit}
use new_efp.Sender.Api.{new_sender, resend, retransmit_loop, process_retransmits}

abbrev bytes_of : RetainedFragment → ℕ
bytes_of f = length f.bytes

-- The count of bytes is the sum over the retained packets, each of which stands under its own key.
pub record IsAccounted (s : Sender) : Type 0 where
  pub counted : s.retention_buffer_bytes ≡ total bytes_of s.retention_buffer
  pub unique : HasUniqueKeys s.retention_buffer

-- Only the buffer and its count matter.
of_same :
    (s t : Sender)
    → t.retention_buffer_bytes ≡ s.retention_buffer_bytes
    → t.retention_buffer ≡ s.retention_buffer
    → IsAccounted s
    → IsAccounted t
of_same s t e f v = record { counted = rw (e, f) v.counted; unique = rw f v.unique }

evict_round-found :
    (now required : ℕ) (oldest : Request) (s t : Sender) (f : RetainedFragment)
    → lookup oldest.key s.retention_buffer ≡ some f
    → evict_round now required oldest s ≡ some t
    → ((t.retention_buffer_bytes ≡ s.retention_buffer_bytes)
        × (t.retention_buffer ≡ s.retention_buffer))
      ⊎ ((t.retention_buffer_bytes ≡ s.retention_buffer_bytes - length f.bytes)
          × (t.retention_buffer ≡ erase oldest.key s.retention_buffer))
unfolding evict_round
evict_round-found now required oldest s t f found e = ground arith

evict_round-none :
    (now required : ℕ) (oldest : Request) (s t : Sender)
    → lookup oldest.key s.retention_buffer ≡ none
    → evict_round now required oldest s ≡ some t
    → (t.retention_buffer_bytes ≡ s.retention_buffer_bytes)
      × (t.retention_buffer ≡ s.retention_buffer)
unfolding evict_round
evict_round-none now required oldest s t found e = ground arith

erased-IsAccounted :
    (key : ℕ) (f : RetainedFragment) (s t : Sender)
    → lookup key s.retention_buffer ≡ some f
    → t.retention_buffer_bytes ≡ s.retention_buffer_bytes - length f.bytes
    → t.retention_buffer ≡ erase key s.retention_buffer
    → IsAccounted s
    → IsAccounted t
erased-IsAccounted key f s t e bytes buffer v = record {
  counted =
      rw buffer
        (omega (arith, bytes, v.counted, total-erase bytes_of key s.retention_buffer f v.unique e));
  unique = rw buffer (erase-HasUniqueKeys key s.retention_buffer v.unique);
}

round :
    (now required : ℕ) (oldest : Request) (s t : Sender)
    → evict_round now required oldest s ≡ some t
    → IsAccounted s
    → IsAccounted t
round now required oldest s t e v = elim (Option-cases (lookup oldest.key s.retention_buffer)) [
  | inl found ↦
      let (bytes, buffer) = evict_round-none now required oldest s t found e in
      of_same s t bytes buffer v
  | inr (f, found) ↦ elim (evict_round-found now required oldest s t f found e) [
    | inl (bytes, buffer) ↦ of_same s t bytes buffer v
    | inr (bytes, buffer) ↦ erased-IsAccounted oldest.key f s t found bytes buffer v
  ]
]

evict_loop-IsAccounted :
    (now required : ℕ) (order : List Request) (s : Sender)
    → IsAccounted s
    → IsAccounted (evict_loop now required order s)
unfolding evict_loop
evict_loop-IsAccounted now required [] s v = of_same s _ refl refl v
evict_loop-IsAccounted now required (oldest ∷ rest) s v =
    elim (Option-cases (evict_round now required oldest s)) [
      | inl e ↦ rw (e, evict_loop) (of_same s _ refl refl v)
      | inr (t, e) ↦
          rw (e, evict_loop)
            (evict_loop-IsAccounted now required rest t (round now required oldest s t e v))
    ]

-- An eviction keeps the count of bytes true.
pub evict_old_retention-IsAccounted :
    (required : ℕ) (s : Sender) → IsAccounted s → IsAccounted (evict_old_retention required s)
unfolding evict_old_retention
evict_old_retention-IsAccounted required s v =
    evict_loop-IsAccounted (s.clock 0) required s.retention_order _ (of_same s _ refl refl v)

forget_existing-none :
    (key : ℕ) (s : Sender) → lookup key s.retention_buffer ≡ none → forget_existing key s ≡ s
unfolding forget_existing
forget_existing-none key s e = rw (e, forget_existing) refl

forget_existing-some :
    (key : ℕ) (s : Sender) (f : RetainedFragment)
    → lookup key s.retention_buffer ≡ some f
    → forget_existing key s ≡ record s {
      retention_buffer_bytes = s.retention_buffer_bytes - length f.bytes;
      queued_retransmits = remove f.generation s.queued_retransmits;
    }
unfolding forget_existing
forget_existing-some key s f e = rw (e, forget_existing) refl

store_fragment-IsAccounted :
    (sf frag stream : ℕ) (packet : Bytes) (s : Sender)
    → s.retention_buffer_bytes
      ≡ total bytes_of (erase (make_retention_key sf frag) s.retention_buffer)
    → HasUniqueKeys s.retention_buffer
    → IsAccounted (store_fragment sf frag stream packet s)
unfolding store_fragment insert total
store_fragment-IsAccounted sf frag stream packet s counted unique = record {
  counted = omega (arith, counted);
  unique = insert-HasUniqueKeys (make_retention_key sf frag) _ s.retention_buffer unique;
}

replaced-IsAccounted :
    (sf frag stream : ℕ) (packet : Bytes) (s : Sender)
    → IsAccounted s
    → IsAccounted
        (store_fragment sf frag stream packet (forget_existing (make_retention_key sf frag) s))
replaced-IsAccounted sf frag stream packet s v =
    let key = make_retention_key sf frag in
    elim (Option-cases (lookup key s.retention_buffer)) [
      | inl e ↦ rw (forget_existing-none key s e) (
          store_fragment-IsAccounted sf frag stream packet s
            (omega (arith, v.counted, total-erase_unused bytes_of key s.retention_buffer e))
            v.unique)
      | inr (f, e) ↦ rw (forget_existing-some key s f e) (
          store_fragment-IsAccounted sf frag stream packet _
            (omega (arith, v.counted, total-erase bytes_of key s.retention_buffer f v.unique e))
            v.unique)
    ]

-- Retaining a packet keeps the count of bytes true: it is the sum of the sizes of the packets that
-- are retained after the eviction, each under its own key.
pub retain_fragment-IsAccounted :
    (sf frag stream : ℕ) (packet : Bytes) (s : Sender)
    → IsAccounted s
    → IsAccounted (retain_fragment sf frag stream packet s)
unfolding retain_fragment
retain_fragment-IsAccounted sf frag stream packet s v =
    elim (Bool-cases (s.retention_ms == 0 || ltb s.retention_max_bytes (length packet))) [
      | inl e ↦ rw e v
      | inr e ↦ rw e (
          replaced-IsAccounted sf frag stream packet _ (
            evict_old_retention-IsAccounted
              (length packet - existing_size (make_retention_key sf frag) s) s v))
    ]

marked-IsAccounted :
    (key : ℕ) (f : RetainedFragment) (s : Sender)
    → lookup key s.retention_buffer ≡ some f
    → IsAccounted s
    → IsAccounted (mark_retransmitted key f s)
unfolding mark_retransmitted insert total
marked-IsAccounted key f s e v = record {
  counted = omega (arith, v.counted, total-erase bytes_of key s.retention_buffer f v.unique e);
  unique = insert-HasUniqueKeys key _ s.retention_buffer v.unique;
}

popped-IsAccounted :
    (request : Request) (rest : List Request) (s : Sender)
    → IsAccounted s
    → IsAccounted (pop_retransmit request rest s).1
unfolding pop_retransmit
popped-IsAccounted request rest s v =
    let popped : Sender = record s {
      retransmit_queue = rest;
      queued_retransmits = remove request.generation s.queued_retransmits;
    } in
    elim (Option-cases (lookup request.key s.retention_buffer)) [
      | inl e ↦ rw (e, pop_retransmit) (of_same s popped refl refl v)
      | inr (f, e) ↦ elim (Bool-cases (f.generation == request.generation)) [
        | inl g ↦
            rw (e, g, pop_retransmit)
              (marked-IsAccounted request.key f popped e (of_same s popped refl refl v))
        | inr g ↦ rw (e, g, pop_retransmit) (of_same s popped refl refl v)
      ]
    ]

resent-IsAccounted :
    (count : ℕ) (o : Option RetainedFragment × Sender)
    → IsAccounted o.1
    → IsAccounted (resend count o).1
resent-IsAccounted count (none, s) v = v
resent-IsAccounted count (some f, s) v = of_same s _ refl refl v

retransmit_loop-IsAccounted :
    (limit count : ℕ) (queue : List Request) (s : Sender)
    → IsAccounted s
    → IsAccounted (retransmit_loop limit count queue s).1
unfolding retransmit_loop
retransmit_loop-IsAccounted limit count [] s v = v
retransmit_loop-IsAccounted limit count (request ∷ rest) s v = elim (Bool-cases (ltb count limit)) [
  | inl e ↦
      rw (e, retransmit_loop)
        (retransmit_loop-IsAccounted limit (resend count (pop_retransmit request rest s)).0 rest
          (resend count (pop_retransmit request rest s)).1
          (resent-IsAccounted count (pop_retransmit request rest s)
            (popped-IsAccounted request rest s v)))
  | inr e ↦ rw (e, retransmit_loop) v
]

-- Sending retained packets again keeps the count of bytes true.
pub process_retransmits-IsAccounted :
    (limit : ℕ) (s : Sender) → IsAccounted s → IsAccounted (process_retransmits limit s).1
unfolding process_retransmits
process_retransmits-IsAccounted limit s v =
    retransmit_loop-IsAccounted limit 0 s.retransmit_queue s v

-- The constructor begins with nothing retained, and a count of zero.
pub new_sender-IsAccounted :
    (mtu : ℕ) (mode : SubFragmentMode) (ms max_bytes : ℕ) (clock : ℕ → ℕ)
    → IsAccounted (new_sender mtu mode ms max_bytes clock)
unfolding new_sender total HasUniqueKeys
new_sender-IsAccounted mtu mode ms max_bytes clock = record { counted = refl; unique = tt }
