-- ===== src/Transfer/Delivered.antt =====
-- `processTimeouts` hands a frame over whose packets have all come.
pub mod Due
use new_efp.Common.{
  ℕ, ◌≤◌, ◌≡◌, refl, ap, sym, subst, ◌∙◌, true, false, not, List, [], ◌∷◌, ◌++◌, some, none, ◌==◌,
  ◌⊎◌, arith, bit_and, Bool-cases, inl, inr, ==_iff, Option,
}
use mathlib.Core.List.{append_assoc}
use mathlib.Core.Option.{some-injective}
use new_efp.Common.Int.{ℤ}
use new_efp.Sender.Fragments.{Job}
use new_efp.Receiver.State.{Receiver, Bucket, Assembly, SuperFrame}
use new_efp.Receiver.Delivery.{
  deliver_frame, deliver_all, due_buckets, is_due, process_timeouts, super_frame, is_complete,
  hand_over, count_delivered,
}
use new_efp.Receiver.Invariant.{IsValid, Holds}
use new_efp.Receiver.Complete.{HasAll, deliver_frame-delivered, complete_iff, handed-delivered}
use new_efp.Receiver.Safety.Nack.{noted_nacks}
use new_efp.Receiver.Safety.Delivery.{
  Queued, Lined, Queued-Lined, Queued-set, deliver_frame-eq, due-Lined, sort-due,
}
use new_efp.Receiver.HandedOver.Fitting.{Serves, deliver_all-Serves}
use new_efp.Transfer.Packets.{IsSendable}
use new_efp.Transfer.Assembling.{Keeps, Lists, bucket_of, Holding}
use new_efp.Transfer.Whole.{IsFrame, sized, IsFrame-super_frame}
use new_efp.Transfer.Delivered.Due.{
  Filled, Stands, apart, Stands-due, Filled-nacked, is_due_complete,
}

-- A receiver that handed over, behind what it had, frames among which the given one is.
pub record HandedOn (j : Job) (source : ℕ) (r u : Receiver) : Type 0 where
  pub frame : SuperFrame
  pub before : List SuperFrame
  pub behind : List SuperFrame
  pub delivered : u.delivered ≡ r.delivered ++ (before ++ (frame ∷ behind))
  pub is_frame : IsFrame j source frame

module _ (j : Job) (s : IsSendable j) (source : ℕ) where
  -- The bucket itself is delivered.
  delivers-Filled :
      (i : ℕ) (r : Receiver)
      → IsValid r
      → Filled j source (r.buckets i)
      → (f : SuperFrame) × (t : Receiver) × (deliver_frame i r ≡ some t)
        × (t.delivered ≡ r.delivered ++ (f ∷ []))
        × IsFrame j source f
  unfolding deliver_frame
  delivers-Filled i r v b =
      let (a, has, keeps) = b.keeps in
      let (a', has', held) = v.buckets i b.active in
      let held_a : Holds (r.buckets i) a =
        subst (Holds (r.buckets i)) (some-injective _ _ (sym has' ∙ has)) held in
      (
        super_frame (r.buckets i) a,
        hand_over i (r.buckets i) (super_frame (r.buckets i) a)
            (count_delivered (not (is_complete (r.buckets i))) r),
        simp has refl,
        handed-delivered i (r.buckets i) (super_frame (r.buckets i) a)
            (not (is_complete (r.buckets i))) r,
        IsFrame-super_frame j s source (r.buckets i) a keeps b.all
            (omega (arith, held_a.size_fits, sized j s source (r.buckets i) a keeps b.all)) held_a,
      )

  -- The deliveries behind it add frames, and are not undone.
  followed :
      (is : List ℕ) (i : ℕ) (r t : Receiver) (f : SuperFrame)
      → t.delivered ≡ r.delivered ++ (f ∷ [])
      → IsFrame j source f
      → IsValid t
      → Lined t.buckets is
      → (u : Receiver) × (deliver_all is t ≡ some u) × HandedOn j source r u
  followed is i r t f adds is_frame v line =
      from (deliver_all is t) refl (deliver_all-Serves is t v line)
    where
      from :
          (o : Option Receiver)
          → deliver_all is t ≡ o
          → Serves t o
          → (u : Receiver) × (deliver_all is t ≡ some u) × HandedOn j source r u
      from none e served = absurd served
      from (some u) e (valid, h) = (
        u,
        e,
        record {
          frame = f;
          before = [];
          behind = h.frames;
          delivered =
              h.added ∙ ap (λ l. l ++ h.frames) adds ∙ append_assoc r.delivered (f ∷ []) h.frames;
          is_frame = is_frame;
        },
      )

  deliver_all-HandedOn :
      (is : List ℕ) (i : ℕ) (r : Receiver)
      → IsValid r
      → Lined r.buckets is
      → Stands i is
      → Filled j source (r.buckets i)
      → (u : Receiver) × (deliver_all is r ≡ some u) × HandedOn j source r u
  unfolding deliver_all
  deliver_all-HandedOn [] i r v line stands filled = absurd stands
  deliver_all-HandedOn (n ∷ ns) i r v line stands filled =
      let (t, e, valid, others) = deliver_frame-eq n r v line.0 in
      let line' : Lined t.buckets ns = Queued-Lined t.buckets _ ns (
        subst (λ b. Queued b (r.buckets n).delivery_order ns) (sym others)
          (Queued-set r.buckets n _ _ ns (omega arith) line.1)) in
      elim (Bool-cases (n == i)) [
        | inl same ↦
            let here : n ≡ i = (==_iff n i).0 same in
            let (f, t', e', adds, is_frame) =
              delivers-Filled n r v
                (subst (λ k. Filled j source (r.buckets k)) (sym here) filled) in
            let one : t' ≡ t = some-injective _ _ (sym e' ∙ e) in
            let (u, run, on) =
              followed ns n r t f
                (subst (λ (x : Receiver). x.delivered ≡ r.delivered ++ (f ∷ [])) one adds) is_frame
                valid line' in
            (u, rw e run, on)
        | inr other ↦ elim stands [
          | inl same ↦ absurd (cc (other, (==_iff n i).1 same))
          | inr more ↦
              let stays : t.buckets i ≡ r.buckets i =
                ap (λ b. b i) others ∙ rw (apart n i other) refl in
              let (u, run, on) =
                deliver_all-HandedOn ns i t valid line' more
                  (subst (Filled j source) (sym stays) filled) in
              let (f, t', e', adds, has, broken) = deliver_frame-delivered n r v line.0 in
              let one : t' ≡ t = some-injective _ _ (sym e' ∙ e) in
              let first : t.delivered ≡ r.delivered ++ (f ∷ []) =
                subst (λ (x : Receiver). x.delivered ≡ r.delivered ++ (f ∷ [])) one adds in
              let rest = on.before ++ (on.frame ∷ on.behind) in
              (
                u,
                rw e run,
                record {
                  frame = on.frame;
                  before = f ∷ on.before;
                  behind = on.behind;
                  delivered =
                      on.delivered
                      ∙ ap (λ l. l ++ rest) first
                      ∙ append_assoc r.delivered (f ∷ []) rest;
                  is_frame = on.is_frame;
                },
              )
        ]
      ]

  complete :
      (r : Receiver) (i : ℕ)
      → IsValid r
      → Filled j source (r.buckets i)
      → is_complete (r.buckets i) ≡ true
  complete r i v filled =
      let (a, has, held) = v.buckets i filled.active in
      (complete_iff (r.buckets i) a held).1 filled.all

  -- A frame all of whose fragments have come is handed over by the next `processTimeouts`.
  pub process_timeouts-HandedOn :
      (r : Receiver)
      → IsValid r
      → Holding j source r
      → ((k : ℕ) → k ≤ j.of_fragment_no → (bucket_of j r).received k ≡ true)
      → (u : Receiver) × (process_timeouts r ≡ some u) × HandedOn j source r u
  unfolding process_timeouts
  process_timeouts-HandedOn r v h come =
      let i = bit_and j.super_frame_no r.buffer_size in
      let (q, e, n, valid) = noted_nacks r v in
      let (a, has, keeps) = h.keeps in
      let filled : Filled j source (r.buckets i) = record {
        active = h.active;
        keeps = h.keeps;
        all = λ k le. come k (omega (arith, keeps.of_fragment_no));
      } in
      let (last, count, same) = n.buckets i in
      let now_filled : Filled j source (q.buckets i) =
        subst (Filled j source) (sym same)
          (Filled-nacked j source last count (r.buckets i) filled) in
      let due : is_due q (r.clock 0) (q.buckets i) ≡ true =
        is_due_complete q (r.clock 0) (q.buckets i) (complete q i valid now_filled) in
      let (u, run, on) =
        deliver_all-HandedOn (due_buckets q (r.clock 0) q.bucket_map) i q valid
          (due-Lined q (r.clock 0) q.bucket_map valid.ascending valid.sound)
          (Stands-due q (r.clock 0) i q.bucket_map due (rw n.bucket_map h.listed)) now_filled in
      (
        u,
        rw e (rw (sort-due q (r.clock 0) valid) run),
        record {
          frame = on.frame;
          before = on.before;
          behind = on.behind;
          delivered =
              on.delivered ∙ ap (λ l. l ++ (on.before ++ (on.frame ∷ on.behind))) n.delivered;
          is_frame = on.is_frame;
        },
      )
