-- ===== src/Sender/Unchanged.antt =====
-- What retaining a packet leaves alone in the sender.
use new_efp.Common.{
  ℕ, ◌≡◌, List, [], ◌∷◌, some, arith, Option-cases, inl, inr, Bool-cases, length, ◌==◌, ◌||◌, ltb,
  ◌-◌,
}
use new_efp.Common.Memory.{Bytes}
use new_efp.Sender.State.{Sender, Request, after_read}
use new_efp.Sender.Retention.{
  evict_round, evict_loop, evict_old_retention, forget_existing, store_fragment, retain_fragment,
  existing_size, make_retention_key,
}

pub record Same (s t : Sender) : Type 0 where
  pub mtu : t.mtu ≡ s.mtu
  pub send_buffer : t.send_buffer ≡ s.send_buffer
  pub bundle_buffer : t.bundle_buffer ≡ s.bundle_buffer
  pub sent : t.sent ≡ s.sent
  pub super_frame_no : t.super_frame_no ≡ s.super_frame_no
  pub sub_fragment_mode : t.sub_fragment_mode ≡ s.sub_fragment_mode

pub Same-refl : (s : Sender) → Same s s
Same-refl s = ground arith

Same-trans : {s t u : Sender} → Same s t → Same t u → Same s u
Same-trans a b = ground arith

evict_round-Same :
    (now required : ℕ) (r : Request) (s : Sender) {t : Sender}
    → evict_round now required r s ≡ some t
    → Same s t
unfolding evict_round
evict_round-Same now required r s e = ground arith

evict_loop-Same :
    (now required : ℕ) (order : List Request) (s : Sender)
    → Same s (evict_loop now required order s)
unfolding evict_loop
evict_loop-Same now required [] s = ground arith
evict_loop-Same now required (r ∷ rest) s = elim (Option-cases (evict_round now required r s)) [
  | inl e ↦ rw (e, evict_loop) (ground arith)
  | inr (t, e) ↦
      rw (e, evict_loop)
        (Same-trans (evict_round-Same now required r s e) (evict_loop-Same now required rest t))
]

pub evict_old_retention-Same : (required : ℕ) (s : Sender) → Same s (evict_old_retention required s)
unfolding evict_old_retention
evict_old_retention-Same required s =
    Same-trans read (evict_loop-Same (s.clock 0) required s.retention_order _)
  where
    read : Same s (record s { clock = after_read s.clock })
    read = ground arith

forget_existing-Same : (key : ℕ) (s : Sender) → Same s (forget_existing key s)
unfolding forget_existing
forget_existing-Same key s = ground arith

store_fragment-Same :
    (sf frag stream : ℕ) (packet : Bytes) (s : Sender)
    → Same s (store_fragment sf frag stream packet s)
unfolding store_fragment
store_fragment-Same sf frag stream packet s = ground arith

pub retain_fragment-Same :
    (sf frag stream : ℕ) (packet : Bytes) (s : Sender)
    → Same s (retain_fragment sf frag stream packet s)
unfolding retain_fragment
retain_fragment-Same sf frag stream packet s =
    elim (Bool-cases (s.retention_ms == 0 || ltb s.retention_max_bytes (length packet))) [
      | inl e ↦ rw e (Same-refl s)
      | inr e ↦
          let key = make_retention_key sf frag in
          let evicted = evict_old_retention (length packet - existing_size key s) s in
          rw e (
            Same-trans (evict_old_retention-Same _ s) (
              Same-trans (forget_existing-Same key evicted)
                (store_fragment-Same sf frag stream packet (forget_existing key evicted))))
    ]
