-- ===== src/Transfer/Bundle.antt =====
-- The loop over a Type4 bundle of Type1 packets of a frame.
pub mod Receive
use new_efp.Common.{
  ℕ, zero, suc, ◌+◌, ◌-◌, ◌*◌, ◌/◌, ◌%◌, ◌≤◌, ◌<◌, ◌≡◌, refl, ap, sym, subst, ◌∙◌, Bool, true,
  false, List, [], ◌∷◌, ◌++◌, Option, none, some, ◌==◌, if◌then◌else◌, arith, length, take, drop,
  get_or, take-append_length, drop-append_length, drop-drop, All, bit_and, length-append,
  length-drop, Bool-cases, inl, inr, map,
}
use native.Mathlib.Nat.{mul-mod_left, mul-div_cancel}
use new_efp.Common.Memory.{Bytes}
use new_efp.Common.Agree.{get_or-drop}
use new_efp.Wire.{
  Result, ok, type1, type4, get_frame_type, make_frame_type_byte, frame_type_code, FrameType,
}
use new_efp.Wire.FirstByte.{first_byte_fields, first_byte-lt}
use new_efp.Wire.Headers.{sizeof_type4, u8_at, encode_type1, encode_type4, decode_type4, FrameType4}
use new_efp.Sender.Fragments.{Job}
use new_efp.Receiver.State.{Receiver, arrive}
use new_efp.Receiver.Type1.{handle_type1}
use new_efp.Receiver.Type4.{is_fatal, after_packet, bundle_loop, count_bundle, handle_type4}
use new_efp.Receiver.Api.{receive, dispatch, with_timeouts}
use new_efp.Receiver.Invariant.{IsValid, IsValid-of_same, Safe, safe}
use new_efp.Receiver.Safety.Opening.{arrive-IsValid}
use new_efp.Receiver.Safety.Type1.{handle_type1-Safe}
use new_efp.Transfer.Packets.{
  receive-dispatch, IsSendable, num, type1_fragment, type1_payload, handle_type1-type1_fragment,
}
use new_efp.Transfer.Assembling.{bucket_of, Holding, Holding-Holds, Took}
use new_efp.Transfer.Receive.{recalculate-same, arrive-IsReady, arrive-Holding, arrive-bucket}
use new_efp.Transfer.Opening.{IsReady}
use new_efp.Transfer.Opening.Opens.{type1_arrived-Opens}
use new_efp.Transfer.Whole.{Came}
use new_efp.Transfer.Type1.{length-type1_payload}
use new_efp.Transfer.Type1.Taken.{type1_arrived-Took}

-- The packets of a bundle, one behind the other.
pub joined : Job → List ℕ → Bytes
joined j [] = []
joined j (k ∷ ks) = type1_fragment j k ++ joined j ks

-- A receiver in which Type1 fragments `ks` of a frame have come behind those of `r`.
pub record TookAll (j : Job) (source : ℕ) (ks : List ℕ) (r t : Receiver) : Type 0 where
  pub valid : IsValid t
  pub holding : Holding j source t
  pub all : All (λ k. (bucket_of j t).received k ≡ true) ks
  pub kept : (m : ℕ) → (bucket_of j r).received m ≡ true → (bucket_of j t).received m ≡ true

handled-IsValid :
    (packet : Bytes) (source : ℕ) (r t : Receiver) (result : Result)
    → IsValid r
    → handle_type1 packet source r ≡ some (result, t)
    → IsValid t
handled-IsValid packet source r t result v e =
    valid_in (subst Safe e (handle_type1-Safe packet source r v))
  where
    valid_in : Safe (some (result, t)) → IsValid t
    valid_in (safe w) = w

module _ (j : Job) (s : IsSendable j) (source : ℕ) where
  -- One of the packets at its handler.
  handle_type1-Took :
      (k : ℕ) (r : Receiver)
      → k < num j
      → IsValid r
      → Holding j source r
      → (t : Receiver) × (result : Result) × (handle_type1 (type1_fragment j k) source r
          ≡ some (result, t))
        × (is_fatal result ≡ false)
        × IsValid t
        × Took j source k r t
  handle_type1-Took k r inner v h =
      let h' = arrive-Holding j source r h in
      let (a, has, keeps, held) = Holding-Holds j source (arrive r).1 (arrive-IsValid r v) h' in
      let (t, result, e, mild, took) =
        type1_arrived-Took j s source k (arrive r).0 (arrive r).1 a h'.mode h'.active h'.listed has
          keeps held inner in
      let run = handle_type1-type1_fragment j s source r k (omega (arith, s.counted, s.few)) ∙ e in
      (
        t,
        result,
        run,
        mild,
        handled-IsValid (type1_fragment j k) source r t result v run,
        record {
          holding = took.holding;
          taken = took.taken;
          kept = λ m x. took.kept m (rw (arrive-bucket j r) x);
        },
      )

  length-type1_fragment :
      (k : ℕ) → k < num j → length (type1_fragment j k) ≡ 8 + j.type1_payload_size
  unfolding encode_type1
  length-type1_fragment k inner = omega (arith, length-type1_payload j s source k inner)

  pub length-joined :
      (ks : List ℕ)
      → All (λ k. k < num j) ks
      → length (joined j ks) ≡ (8 + j.type1_payload_size) * length ks
  unfolding joined
  length-joined [] inner = omega arith
  length-joined (k ∷ ks) inner = omega (
    arith,
    length-append (type1_fragment j k) (joined j ks),
    length-type1_fragment k inner.0,
    length-joined ks inner.1,
  )

  first_code :
      (k : ℕ) (packet rest : Bytes) (offset : ℕ)
      → drop offset packet ≡ type1_fragment j k ++ rest
      → frame_type_code (get_frame_type (u8_at packet offset)) ≡ 1
  unfolding encode_type1
  first_code k packet rest offset e =
      let here : u8_at packet offset ≡ make_frame_type_byte type1 j.flags =
        ground (arith, get_or-drop offset packet 0, ap (λ (xs : Bytes). get_or xs 0 0) e) in
      rw here (rw ((first_byte_fields type1 j.flags tt s.flags).0) refl)

  module _ (k : ℕ) (ks : List ℕ) (packet : Bytes) (offset : ℕ) (inner : k < num j)
      (rest : drop offset packet ≡ joined j (k ∷ ks)) where
    front_packet : take (8 + j.type1_payload_size) (drop offset packet) ≡ type1_fragment j k
    unfolding joined
    front_packet = rw rest (
        rw (sym (length-type1_fragment k inner))
          (take-append_length (type1_fragment j k) (joined j ks)))

    behind_packet : drop (offset + (8 + j.type1_payload_size)) packet ≡ joined j ks
    unfolding joined
    behind_packet = rw (sym (drop-drop offset (8 + j.type1_payload_size) packet)) (
        rw rest (
          rw (sym (length-type1_fragment k inner))
            (drop-append_length (type1_fragment j k) (joined j ks))))

  pub bundle_loop-TookAll :
      (ks : List ℕ) (packet : Bytes) (offset : ℕ) (r : Receiver)
      → All (λ k. k < num j) ks
      → drop offset packet ≡ joined j ks
      → length packet ≡ offset + (8 + j.type1_payload_size) * length ks
      → IsValid r
      → Holding j source r
      → (t : Receiver) × (bundle_loop (length ks) packet (8 + j.type1_payload_size) offset source r
          ≡ some (ok, t))
        × TookAll j source ks r t
  unfolding bundle_loop joined
  bundle_loop-TookAll [] packet offset r inner rest long v h =
      let end : offset ≡ length packet = omega (arith, long) in
      (r, ground (arith, end), record { valid = v; holding = h; all = tt; kept = λ m e. e })
  bundle_loop-TookAll (k ∷ ks) packet offset r inner rest long v h =
      let (t, result, e, mild, valid, took) = handle_type1-Took k r inner.0 v h in
      let front = front_packet k ks packet offset inner.0 rest in
      let behind = behind_packet k ks packet offset inner.0 rest in
      let (u, f, all) =
        bundle_loop-TookAll ks packet (offset + (8 + j.type1_payload_size)) t inner.1 behind
          (omega (arith, long)) valid took.holding in
      (
        u,
        rw (first_code k packet (joined j ks) offset rest) (rw front (rw e (rw mild f))),
        record {
          valid = all.valid;
          holding = all.holding;
          all = (all.kept k took.taken, all.all);
          kept = λ m x. all.kept m (took.kept m x);
        },
      )

  -- The same where the first packet of the bundle opens the bucket.
  pub bundle_loop-Opens :
      (k : ℕ) (ks : List ℕ) (packet : Bytes) (offset : ℕ) (r : Receiver)
      → All (λ m. m < num j) (k ∷ ks)
      → drop offset packet ≡ joined j (k ∷ ks)
      → length packet ≡ offset + (8 + j.type1_payload_size) * length (k ∷ ks)
      → IsValid r
      → IsReady j.super_frame_no r
      → (t : Receiver) × (bundle_loop
            (length (k ∷ ks))
            packet
            (8 + j.type1_payload_size)
            offset
            source
            r
          ≡ some (ok, t))
        × Came j source (k ∷ ks) t
  unfolding bundle_loop joined
  bundle_loop-Opens k ks packet offset r inner rest long v ready =
      let (t, e, holding, taken) =
        type1_arrived-Opens j s source (arrive r).0 (arrive r).1 (arrive-IsReady j r ready) k
          inner.0 in
      let run =
        handle_type1-type1_fragment j s source r k (omega (arith, s.counted, s.few, inner.0)) ∙ e in
      let front = front_packet k ks packet offset inner.0 rest in
      let (u, f, all) =
        bundle_loop-TookAll ks packet (offset + (8 + j.type1_payload_size)) t inner.1
          (behind_packet k ks packet offset inner.0 rest) (omega (arith, long))
          (handled-IsValid (type1_fragment j k) source r t ok v run) holding in
      (
        u,
        rw (first_code k packet (joined j ks) offset rest) (rw front (rw run f)),
        record { valid = all.valid; holding = all.holding; all = (all.kept k taken, all.all) },
      )
