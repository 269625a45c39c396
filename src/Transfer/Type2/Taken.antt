-- ===== src/Transfer/Type2/Taken.antt =====
-- `handleType2` takes the Type2 packet of a frame in.
use new_efp.Common.{
  ℕ, ◌+◌, ◌*◌, ◌≤◌, ◌<◌, ◌≡◌, refl, true, some, arith, length, bit_and, Bool-cases, inl, inr,
  ==_refl,
}
use new_efp.Common.Memory.{overwrite, write_at-eq}
use new_efp.Wire.{Result, ok, duplicate_fragment}
use new_efp.Sender.Fragments.{Job, type2_header}
use new_efp.Receiver.State.{
  Receiver, Assembly, count_received, count_duplicate, set_bucket, threaded,
}
use new_efp.Receiver.Type2.{cache_stream, type2_offset, type2_store, type2_existing, type2_arrived}
use new_efp.Receiver.Invariant.{Holds}
use new_efp.Transfer.Packets.{IsSendable, type2_payload}
use new_efp.Transfer.Assembling.{Lists, Keeps, type2_place, bucket_of, Took, set_bucket-Holding}
use new_efp.Transfer.Type2.{
  bucket_with, length-type2_payload, size_of_data, type1_size, place_le, type2_small, offset-place,
  actual-place, Keeps-type2,
}

module _ (j : Job) (s : IsSendable j) (source : ℕ) where
  -- A Type2 packet that has not come yet is stored.
  type2_store-Took :
      (r : Receiver) (a : Assembly)
      → r.mode ≡ threaded
      → (bucket_of j r).active ≡ true
      → Lists (bit_and j.super_frame_no r.buffer_size) r.bucket_map
      → (bucket_of j r).frame ≡ some a
      → Keeps j source (bucket_of j r) a
      → type2_place j (bucket_of j r).received + j.cut.type2_data_size ≤ length a.memory
      → (t : Receiver) × (type2_store
            (type2_header j)
            (type2_payload j)
            (bit_and j.super_frame_no r.buffer_size)
            (bucket_of j r)
            r
          ≡ some (ok, t))
        × Took j source j.of_fragment_no r t
  unfolding type2_store
  type2_store-Took r a mode active listed has keeps room =
      let i = bit_and j.super_frame_no r.buffer_size in
      let place = type2_place j (bucket_of j r).received in
      let b = bucket_with j (bucket_of j r) (record {
        memory = overwrite a.memory place (type2_payload j);
        size = place + j.cut.type2_data_size;
      }) in
      (
        set_bucket (cache_stream (type2_header j) (count_received r)) i b,
        rw
            (
              has,
              offset-place j s source (bucket_of j r) a keeps,
              actual-place j s source (bucket_of j r) a keeps,
            )
            (rw
              (write_at-eq a.memory place (type2_payload j)
                (omega (arith, length-type2_payload j s source, room)))
              refl),
        record {
          holding =
              set_bucket-Holding j source (cache_stream (type2_header j) (count_received r)) b _
                mode active listed refl (Keeps-type2 j s source (bucket_of j r) a keeps room);
          taken = rw (==_refl i) (rw (==_refl j.of_fragment_no) refl);
          kept = λ m e. rw (==_refl i) (ground arith);
        },
      )

  -- What the Type2 packet of the frame does to its open bucket: it is taken in, now or before.
  type2_existing-Took :
      (r : Receiver) (a : Assembly)
      → r.mode ≡ threaded
      → (bucket_of j r).active ≡ true
      → Lists (bit_and j.super_frame_no r.buffer_size) r.bucket_map
      → (bucket_of j r).frame ≡ some a
      → Keeps j source (bucket_of j r) a
      → Holds (bucket_of j r) a
      → (t : Receiver) × (result : Result) × (type2_existing
            (type2_header j)
            (type2_payload j)
            source
            (bit_and j.super_frame_no r.buffer_size)
            (bucket_of j r)
            r
          ≡ some (result, t))
        × Took j source j.of_fragment_no r t
  unfolding type2_existing
  type2_existing-Took r a mode active listed has keeps held =
      elim (Bool-cases ((bucket_of j r).received j.of_fragment_no)) [
        | inl come ↦ (
          count_duplicate r,
          duplicate_fragment,
          ground (arith, type1_size j s source, come),
          record {
            holding = record {
              mode = mode;
              active = active;
              listed = listed;
              keeps = (a, has, keeps);
            };
            taken = come;
            kept = λ m e. e;
          },
        )
        | inr missing ↦
            let b = bucket_of j r in
            let several : 0 < j.of_fragment_no = ground (arith, keeps.alone, missing) in
            let short = s.type2_short several in
            let last : j.type1_payload_size * j.of_fragment_no + j.type1_payload_size
                ≤ length a.memory =
              rw (keeps.fragment_size, keeps.of_fragment_no) at
                (held.last_fits (rw keeps.of_fragment_no missing)) in
            let (t, e, took) =
              type2_store-Took r a mode active listed has keeps
                (omega (arith, last, short, place_le j s source b.received)) in
            let inside : type2_offset (type2_header j) b + j.cut.type2_data_size
                ≤ b.fragment_size * (b.of_fragment_no + 1) =
              rw (offset-place j s source b a keeps, keeps.fragment_size, keeps.of_fragment_no)
                (omega (arith, short, place_le j s source b.received, ap_slot)) in
            (
              t,
              ok,
              ground (arith, type1_size j s source, size_of_data j s source, inside, missing, e),
              took,
            )
      ]
    where
      ap_slot :
          j.type1_payload_size * (j.of_fragment_no + 1)
          ≡ j.type1_payload_size * j.of_fragment_no + j.type1_payload_size
      ap_slot = grind arith

  -- The same behind the checks of the handler, where the difference of the times is one that the
  -- receiver accepts.
  pub type2_arrived-Took :
      (now : ℕ) (r : Receiver) (a : Assembly)
      → r.mode ≡ threaded
      → (bucket_of j r).active ≡ true
      → Lists (bit_and j.super_frame_no r.buffer_size) r.bucket_map
      → (bucket_of j r).frame ≡ some a
      → Keeps j source (bucket_of j r) a
      → Holds (bucket_of j r) a
      → (t : Receiver) × (result : Result) × (type2_arrived
            (type2_header j)
            (type2_payload j)
            source
            (now, r)
          ≡ some (result, t))
        × Took j source j.of_fragment_no r t
  unfolding type2_arrived
  type2_arrived-Took now r a mode active listed has keeps held =
      let (t, result, e, took) = type2_existing-Took r a mode active listed has keeps held in
      (
        t,
        result,
        rw (size_of_data j s source, type1_size j s source)
            (ground (
              arith,
              s.few,
              type2_small j s source,
              s.type2_short,
              s.positive,
              s.timed,
              length-type2_payload j s source,
              active,
              e,
            )),
        took,
      )
