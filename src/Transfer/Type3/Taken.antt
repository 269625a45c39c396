-- ===== src/Transfer/Type3/Taken.antt =====
-- `handleType3` takes the Type3 packet of a frame in.
use new_efp.Common.{
  ℕ, ◌+◌, ◌-◌, ◌*◌, ◌≤◌, ◌<◌, ◌≡◌, refl, ◌∙◌, true, false, some, arith, length, take, drop, bit_and,
  Bool-cases, inl, inr, ==_refl, lt→ltb,
}
use new_efp.Common.Memory.{
  overwrite, write_at-eq, read_at-eq, length-overwrite, length-take-drop, slot_le,
}
use new_efp.Common.Agree.{Agrees, Agrees-overwrite_beside, Agrees-overwrite_moved}
use new_efp.Wire.{Result, ok, duplicate_fragment}
use new_efp.Sender.Fragments.{Job, type3_header}
use new_efp.Receiver.State.{
  Receiver, Bucket, Assembly, count_received, count_duplicate, set_bucket, threaded,
}
use new_efp.Receiver.Type3.{type3_store, type3_existing, type3_arrived, relocate}
use new_efp.Receiver.Invariant.{Holds}
use new_efp.Transfer.Packets.{IsSendable, num, type3_start, type2_start, type3_payload}
use new_efp.Transfer.Assembling.{Lists, Keeps, type2_place, bucket_of, Took, set_bucket-Holding}
use new_efp.Transfer.Type3.{bucket_with, of-num, length-type3_payload, type3_fits, Keeps-type3}

module _ (j : Job) (s : IsSendable j) (source : ℕ) (need : j.cut.needs_type3 ≡ true) where
  -- What is in its place once the Type2 payload has moved up to where Type3 ends.
  record IsMoved (b : Bucket) (a moved : Assembly) : Type 0 where
    room : length moved.memory ≡ length a.memory
    inner :
        (k : ℕ)
        → k < num j
        → b.received k ≡ true
        → Agrees moved.memory
            (j.type1_payload_size * k)
            j.content
            (j.type1_payload_size * k)
            j.type1_payload_size
    behind :
        b.received j.of_fragment_no ≡ true
        → Agrees moved.memory (type2_start j) j.content (type2_start j) j.cut.type2_data_size
    whole : b.received j.of_fragment_no ≡ true → moved.size ≡ length j.content

  module _ (b : Bucket) (a : Assembly) (keeps : Keeps j source b a) (held : Holds b a)
      (missing : b.received (num j) ≡ false) where
    last : ℕ
    last = j.type1_payload_size * j.of_fragment_no

    last-start : j.type1_payload_size * j.of_fragment_no ≡ type3_start j + j.type1_payload_size
    last-start = rw (of-num j s source need) (grind arith)

    no_type3 : b.type3_size ≡ 0
    no_type3 = keeps.type3_size ∙ rw (need, missing) refl

    prev : j.of_fragment_no - 1 ≡ num j
    prev = omega (arith, of-num j s source need)

    relocate_type2 :
        b.received j.of_fragment_no ≡ true
        → (moved : Assembly) × (relocate (type3_header j) j.cut.type3_data_size b a ≡ some moved)
          × IsMoved b a moved
    unfolding relocate
    relocate_type2 come =
        let two : b.type2_size ≡ j.cut.type2_data_size = keeps.type2_size ∙ rw come refl in
        let inside : j.type1_payload_size * j.of_fragment_no + j.cut.type2_data_size
            ≤ length a.memory =
          rw (keeps.fragment_size, keeps.of_fragment_no, two) at (held.type2_fits no_type3) in
        let chunk =
          take j.cut.type2_data_size (drop (j.type1_payload_size * j.of_fragment_no) a.memory) in
        let long : length chunk ≡ j.cut.type2_data_size =
          length-take-drop a.memory (j.type1_payload_size * j.of_fragment_no) j.cut.type2_data_size
            inside in
        let room : type2_start j + j.cut.type2_data_size ≤ length a.memory =
          omega (arith, last-start, s.type3_short, inside) in
        let place : type2_place j b.received ≡ j.type1_payload_size * j.of_fragment_no =
          rw (need, missing) refl in
        (
          record {
            memory = overwrite a.memory (type2_start j) chunk;
            size = type2_start j + j.cut.type2_data_size;
          },
          rw (come, two, keeps.fragment_size, prev, lt→ltb _ _ s.type2_filled)
              (rw
                (read_at-eq a.memory (j.type1_payload_size * j.of_fragment_no) j.cut.type2_data_size
                  inside)
                (rw (write_at-eq a.memory (type2_start j) chunk (omega (arith, long, room))) refl)),
          record {
            room = length-overwrite a.memory (type2_start j) chunk (omega (arith, long, room));
            inner = λ k h e.
                Agrees-overwrite_beside a.memory (type2_start j) chunk (j.type1_payload_size * k)
                  j.content (j.type1_payload_size * k) j.type1_payload_size
                  (omega (arith, long, room))
                  (inl (omega (arith, slot_le j.type1_payload_size k (num j) h)))
                  (keeps.type1s k h e);
            behind = λ e.
                Agrees-overwrite_moved a.memory (j.type1_payload_size * j.of_fragment_no)
                  (type2_start j) j.content (type2_start j) j.cut.type2_data_size inside room
                  (rw place at (keeps.type2s e));
            whole = λ e. omega (arith, s.covers);
          },
        )

    relocate_none :
        b.received j.of_fragment_no ≡ false
        → (moved : Assembly) × (relocate (type3_header j) j.cut.type3_data_size b a ≡ some moved)
          × IsMoved b a moved
    unfolding relocate
    relocate_none missed = (
      record a { size = type2_start j },
      rw (missed, keeps.fragment_size, prev) refl,
      record {
        room = refl;
        inner = keeps.type1s;
        behind = λ e. cc (e, missed);
        whole = λ e. cc (e, missed);
      },
    )

    relocate-IsMoved :
        (moved : Assembly) × (relocate (type3_header j) (length (type3_payload j)) b a ≡ some moved)
        × IsMoved b a moved
    relocate-IsMoved = elim (Bool-cases (b.received j.of_fragment_no)) [
      | inl come ↦ rw (length-type3_payload j s source need) (relocate_type2 come)
      | inr missed ↦ rw (length-type3_payload j s source need) (relocate_none missed)
    ]

    type3_room :
        (moved : Assembly)
        → IsMoved b a moved
        → type3_start j + j.cut.type3_data_size ≤ length moved.memory
    type3_room moved at =
        let inner_fit : j.type1_payload_size * j.of_fragment_no ≤ length a.memory =
          rw (keeps.fragment_size, keeps.of_fragment_no) at (held.inner_fit) in
        omega (arith, at.room, last-start, s.type3_short, inner_fit)

  -- A Type3 packet that has not come yet is stored.
  type3_store-Took :
      (r : Receiver) (a : Assembly)
      → r.mode ≡ threaded
      → (bucket_of j r).active ≡ true
      → Lists (bit_and j.super_frame_no r.buffer_size) r.bucket_map
      → (bucket_of j r).frame ≡ some a
      → Keeps j source (bucket_of j r) a
      → Holds (bucket_of j r) a
      → (bucket_of j r).received (num j) ≡ false
      → (t : Receiver) × (type3_store
            (type3_header j)
            (type3_payload j)
            (bit_and j.super_frame_no r.buffer_size)
            (bucket_of j r)
            r
          ≡ some (ok, t))
        × Took j source (num j) r t
  unfolding type3_store
  type3_store-Took r a mode active listed has keeps held missing =
      let i = bit_and j.super_frame_no r.buffer_size in
      let (moved, moves, at) = relocate-IsMoved (bucket_of j r) a keeps held missing in
      let room : type3_start j + j.cut.type3_data_size ≤ length moved.memory =
        type3_room (bucket_of j r) a keeps held missing moved at in
      let b =
        bucket_with (bucket_of j r) (num j) (length (type3_payload j))
          (record moved { memory = overwrite moved.memory (type3_start j) (type3_payload j) }) in
      (
        set_bucket (count_received r) i b,
        rw (has, keeps.fragment_size, prev (bucket_of j r) a keeps held missing)
            (rw moves (
              rw
                (write_at-eq moved.memory (type3_start j) (type3_payload j)
                  (omega (arith, length-type3_payload j s source need, room)))
                refl)),
        record {
          holding = set_bucket-Holding j source (count_received r) b _ mode active listed refl (
              Keeps-type3 j s source need (bucket_of j r) a moved keeps room at.inner at.behind
                at.whole);
          taken = rw (==_refl i) (rw (==_refl (num j)) refl);
          kept = λ m e. rw (==_refl i) (ground arith);
        },
      )

  -- What the Type3 packet of the frame does to its open bucket: it is taken in, now or before.
  type3_existing-Took :
      (r : Receiver) (a : Assembly)
      → r.mode ≡ threaded
      → (bucket_of j r).active ≡ true
      → Lists (bit_and j.super_frame_no r.buffer_size) r.bucket_map
      → (bucket_of j r).frame ≡ some a
      → Keeps j source (bucket_of j r) a
      → Holds (bucket_of j r) a
      → (t : Receiver) × (result : Result) × (type3_existing
            (type3_header j)
            (type3_payload j)
            source
            (bit_and j.super_frame_no r.buffer_size)
            (bucket_of j r)
            r
          ≡ some (result, t))
        × Took j source (num j) r t
  unfolding type3_existing
  type3_existing-Took r a mode active listed has keeps held =
      elim (Bool-cases ((bucket_of j r).received (num j))) [
        | inl come ↦ (
          count_duplicate r,
          duplicate_fragment,
          rw prev (ground (arith, passes, come, s.type1_payload_size)),
          record {
            holding = record {
              mode = mode;
              active = active;
              listed = listed;
              keeps = (a, has, keeps);
            };
            taken = come;
            kept = λ m e. e;
          },
        )
        | inr missing ↦
            let (t, e, took) = type3_store-Took r a mode active listed has keeps held missing in
            (t, ok, rw prev (ground (arith, passes, missing, e, s.type1_payload_size)), took)
      ]
    where
      prev : j.of_fragment_no - 1 ≡ num j
      prev = omega (arith, of-num j s source need)

      passes :
          (num j ≤ j.of_fragment_no)
          × ((bucket_of j r).fragment_size * num j + length (type3_payload j)
              ≤ (bucket_of j r).fragment_size * ((bucket_of j r).of_fragment_no + 1))
      passes = (
        omega (arith, of-num j s source need),
        rw (keeps.fragment_size, keeps.of_fragment_no, length-type3_payload j s source need)
            (type3_fits j s source need),
      )

  -- The same behind the checks of the handler.
  pub type3_arrived-Took :
      (now : ℕ) (r : Receiver) (a : Assembly)
      → r.mode ≡ threaded
      → (bucket_of j r).active ≡ true
      → Lists (bit_and j.super_frame_no r.buffer_size) r.bucket_map
      → (bucket_of j r).frame ≡ some a
      → Keeps j source (bucket_of j r) a
      → Holds (bucket_of j r) a
      → (t : Receiver) × (result : Result) × (type3_arrived
            (type3_header j)
            (type3_payload j)
            source
            (now, r)
          ≡ some (result, t))
        × Took j source (num j) r t
  unfolding type3_arrived
  type3_arrived-Took now r a mode active listed has keeps held =
      let (t, result, e, took) = type3_existing-Took r a mode active listed has keeps held in
      (
        t,
        result,
        ground (
          arith,
          of-num j s source need,
          s.few,
          s.type1_payload_size,
          s.type3_short,
          s.padded,
          length-type3_payload j s source need,
          active,
          e,
        ),
        took,
      )
