-- ===== src/Transfer/Type1/Taken.antt =====
-- `handleType1` takes a Type1 packet of a frame in.
use new_efp.Common.{
  ℕ, ◌+◌, ◌*◌, ◌≤◌, ◌<◌, ◌≡◌, refl, ap, true, false, some, arith, length, bit_and, Bool-cases, inl,
  inr, ==_refl,
}
use new_efp.Common.Memory.{write_at-eq}
use new_efp.Wire.{Result, ok, duplicate_fragment}
use new_efp.Sender.Fragments.{Job, type1_header}
use new_efp.Receiver.State.{
  Receiver, Assembly, count_received, count_duplicate, set_bucket, threaded,
}
use new_efp.Receiver.Type4.{is_fatal}
use new_efp.Receiver.Type1.{type1_store, type1_existing, type1_arrived}
use new_efp.Receiver.Invariant.{Holds}
use new_efp.Receiver.Safety.Type1.{type1_room}
use new_efp.Transfer.Packets.{IsSendable, num, type1_payload}
use new_efp.Transfer.Assembling.{Lists, Keeps, bucket_of, Took, set_bucket-Holding}
use new_efp.Transfer.Type1.{bucket_with, memory_with, length-type1_payload, Keeps-type1}

module _ (j : Job) (s : IsSendable j) (source : ℕ) where
  -- A Type1 packet that has not come yet is stored.
  type1_store-Took :
      (k : ℕ) (r : Receiver) (a : Assembly)
      → r.mode ≡ threaded
      → (bucket_of j r).active ≡ true
      → Lists (bit_and j.super_frame_no r.buffer_size) r.bucket_map
      → (bucket_of j r).frame ≡ some a
      → Keeps j source (bucket_of j r) a
      → k < num j
      → j.type1_payload_size * k + j.type1_payload_size ≤ length a.memory
      → (t : Receiver) × (type1_store
            (type1_header j k)
            (type1_payload j k)
            (bit_and j.super_frame_no r.buffer_size)
            (bucket_of j r)
            r
          ≡ some (ok, t))
        × Took j source k r t
  unfolding type1_store
  type1_store-Took k r a mode active listed has keeps inner room =
      let i = bit_and j.super_frame_no r.buffer_size in
      let b = bucket_with (bucket_of j r) k (record a { memory = memory_with j a.memory k }) in
      (
        set_bucket (count_received r) i b,
        rw (has, keeps.fragment_size)
            (rw
              (write_at-eq a.memory (j.type1_payload_size * k) (type1_payload j k)
                (omega (arith, length-type1_payload j s source k inner, room)))
              refl),
        record {
          holding =
              set_bucket-Holding j source (count_received r) b _ mode active listed refl
                (Keeps-type1 j s source (bucket_of j r) a k keeps inner room);
          taken = rw (==_refl i) (rw (==_refl k) refl);
          kept = λ m e. rw (==_refl i) (ground arith);
        },
      )

  -- What a Type1 packet of the frame does to its open bucket: it is taken in, now or before.
  pub type1_existing-Took :
      (k : ℕ) (r : Receiver) (a : Assembly)
      → r.mode ≡ threaded
      → (bucket_of j r).active ≡ true
      → Lists (bit_and j.super_frame_no r.buffer_size) r.bucket_map
      → (bucket_of j r).frame ≡ some a
      → Keeps j source (bucket_of j r) a
      → Holds (bucket_of j r) a
      → k < num j
      → (t : Receiver) × (result : Result) × (type1_existing
            (type1_header j k)
            (type1_payload j k)
            source
            (bit_and j.super_frame_no r.buffer_size)
            (bucket_of j r)
            r
          ≡ some (result, t))
        × (is_fatal result ≡ false)
        × Took j source k r t
  unfolding type1_existing
  type1_existing-Took k r a mode active listed has keeps held inner =
      elim (Bool-cases ((bucket_of j r).received k)) [
        | inl come ↦ (
          count_duplicate r,
          duplicate_fragment,
          ground (arith, passes, come),
          refl,
          record {
            holding = record {
              mode = mode;
              active = active;
              listed = listed;
              keeps = (a, has, keeps);
            };
            taken = come;
            kept = λ m e. e;
          },
        )
        | inr missing ↦
            let (t, e, took) = type1_store-Took k r a mode active listed has keeps inner (
              omega (
                arith,
                keeps.fragment_size,
                ap (λ (x : ℕ). x * k) keeps.fragment_size,
                type1_room (bucket_of j r) a k held (omega (arith, passes.0, keeps.of_fragment_no))
                    missing,
              )) in
            (t, ok, ground (arith, passes, missing, e), refl, took)
      ]
    where
      passes : (k ≤ j.of_fragment_no) × (length (type1_payload j k) ≡ j.type1_payload_size)
      passes = (omega (arith, s.counted), length-type1_payload j s source k inner)

  -- The same behind the checks of the handler.
  pub type1_arrived-Took :
      (k now : ℕ) (r : Receiver) (a : Assembly)
      → r.mode ≡ threaded
      → (bucket_of j r).active ≡ true
      → Lists (bit_and j.super_frame_no r.buffer_size) r.bucket_map
      → (bucket_of j r).frame ≡ some a
      → Keeps j source (bucket_of j r) a
      → Holds (bucket_of j r) a
      → k < num j
      → (t : Receiver) × (result : Result) × (type1_arrived
            (type1_header j k)
            (type1_payload j k)
            source
            (now, r)
          ≡ some (result, t))
        × (is_fatal result ≡ false)
        × Took j source k r t
  unfolding type1_arrived
  type1_arrived-Took k now r a mode active listed has keeps held inner =
      let (t, result, e, mild, took) =
        type1_existing-Took k r a mode active listed has keeps held inner in
      (t, result, ground (arith, s.counted, s.few, active, e), mild, took)
