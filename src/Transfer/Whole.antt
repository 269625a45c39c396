-- ===== src/Transfer/Whole.antt =====
-- All packets of a frame, in any order, and the frame that comes out.
use new_efp.Common.{
  ℕ, zero, suc, ◌+◌, ◌*◌, ◌≤◌, ◌≡◌, refl, subst, true, false, List, [], ◌∷◌, map, Option, some,
  ◌==◌, ◌>>=◌, arith, Bool-cases, inl, inr, ==_iff, All, length, take,
}
use new_efp.Common.Table.{member}
use new_efp.Common.Memory.{Bytes}
use new_efp.Common.Agree.{Agrees, Agrees-take, Agrees-append}
use new_efp.Wire.{get_flags, type2, make_frame_type_byte}
use new_efp.Sender.Fragments.{Job, type2_header}
use new_efp.Receiver.State.{Receiver, Bucket, Assembly, SuperFrame}
use new_efp.Receiver.Type2.{dts_of}
use new_efp.Receiver.Api.{receive}
use new_efp.Receiver.Delivery.{super_frame}
use new_efp.Receiver.Invariant.{IsValid, Holds}
use new_efp.Receiver.Complete.{HasAll, complete_iff}
use new_efp.Transfer.Packets.{IsSendable, num, type3_start, type2_start, fragment}
use new_efp.Transfer.Assembling.{Keeps, type2_place, bucket_of, Holding}
use new_efp.Transfer.Opening.{IsReady}
use new_efp.Transfer.Receive.{receive-Took, receive-Opens, after-IsValid}

-- A run of `receive` over packets from one source.
unfoldable pub receive_all : List Bytes → ℕ → Receiver → Option Receiver
receive_all [] source r = some r
receive_all (p ∷ ps) source r = receive p source r >>= λ x. receive_all ps source x.1

-- The frame as it was given to the sender.
pub record IsFrame (j : Job) (source : ℕ) (f : SuperFrame) : Type 0 where
  pub bytes : take f.assembly.size f.assembly.memory ≡ j.content
  pub size : f.assembly.size ≡ length j.content
  pub broken : f.broken ≡ false
  pub payload_type : f.payload_type ≡ j.payload_type
  pub payload_code : f.payload_code ≡ j.payload_code
  pub pts : f.pts ≡ j.pts
  pub dts : f.dts ≡ dts_of (type2_header j)
  pub flags : f.flags ≡ get_flags (make_frame_type_byte type2 j.flags)
  pub stream_id : f.stream_id ≡ j.stream_id
  pub source_id : f.source_id ≡ source
  pub super_frame_no : f.super_frame_no ≡ j.super_frame_no

-- A valid receiver in which the fragments `ks` have come.
pub record Came (j : Job) (source : ℕ) (ks : List ℕ) (t : Receiver) : Type 0 where
  pub valid : IsValid t
  pub holding : Holding j source t
  pub all : All (λ k. (bucket_of j t).received k ≡ true) ks

module _ (j : Job) (s : IsSendable j) (source : ℕ) where
  rest-Came :
      (ks : List ℕ) (r : Receiver)
      → All (λ k. k ≤ j.of_fragment_no) ks
      → IsValid r
      → Holding j source r
      → (t : Receiver) × (receive_all (map (fragment j) ks) source r ≡ some t)
        × Came j source ks t
        × ((m : ℕ) → (bucket_of j r).received m ≡ true → (bucket_of j t).received m ≡ true)
  unfolding receive_all
  rest-Came [] r le v h = (r, refl, record { valid = v; holding = h; all = tt }, λ m e. e)
  rest-Came (k ∷ ks) r le v h =
      let (t, result, e, took) = receive-Took j s source r v h k le.0 in
      let (u, f, came, kept) =
        rest-Came ks t le.1 (after-IsValid (fragment j k) source r t result v e) took.holding in
      (
        u,
        rw e f,
        record { valid = came.valid; holding = came.holding; all = (kept k took.taken, came.all) },
        λ m x. kept m (took.kept m x),
      )

  pub receive_all-Came :
      (k : ℕ) (ks : List ℕ) (r : Receiver)
      → All (λ k. k ≤ j.of_fragment_no) (k ∷ ks)
      → IsValid r
      → IsReady j.super_frame_no r
      → (t : Receiver) × (receive_all (map (fragment j) (k ∷ ks)) source r ≡ some t)
        × Came j source (k ∷ ks) t
  unfolding receive_all
  receive_all-Came k ks r le v ready =
      let (t, result, e, holding, taken) = receive-Opens j s source r v ready k le.0 in
      let (u, f, came, kept) =
        rest-Came ks t le.1 (after-IsValid (fragment j k) source r t result v e) holding in
      (
        u,
        rw e f,
        record { valid = came.valid; holding = came.holding; all = (kept k taken, came.all) },
      )

  pub member-All : (P : ℕ → Type 0) (ks : List ℕ) → All P ks → (k : ℕ) → member k ks ≡ true → P k
  unfolding member
  member-All P [] v k e = cc e
  member-All P (x ∷ ks) v k e = elim (Bool-cases (x == k)) [
    | inl same ↦ subst P ((==_iff x k).0 same) v.0
    | inr other ↦ member-All P ks v.1 k (ground (arith, other, e))
  ]

  module _ (b : Bucket) (a : Assembly) (keeps : Keeps j source b a) (all : HasAll b) where
    inner-Agrees : (n : ℕ) → n ≤ num j → Agrees a.memory 0 j.content 0 (j.type1_payload_size * n)
    inner-Agrees zero le = λ i h. absurd (omega arith)
    inner-Agrees (suc n) le =
        let sum : j.type1_payload_size * n + j.type1_payload_size ≡ j.type1_payload_size * suc n =
          grind arith in
        rw (← sum) (
          Agrees-append a.memory j.content (j.type1_payload_size * n) j.type1_payload_size
            (inner-Agrees n (omega arith))
            (keeps.type1s n (omega arith) (all n (omega (arith, s.counted, keeps.of_fragment_no)))))

    last : b.received j.of_fragment_no ≡ true
    last = all j.of_fragment_no (omega (arith, keeps.of_fragment_no))

    type3_come : j.cut.needs_type3 ≡ true → b.received (num j) ≡ true
    type3_come need = all (num j) (omega (arith, s.counted, keeps.of_fragment_no))

    pub sized : a.size ≡ length j.content
    sized = keeps.whole last type3_come

    type3-Agrees : Agrees a.memory 0 j.content 0 (type2_start j)
    type3-Agrees = elim (Bool-cases j.cut.needs_type3) [
      | inl need ↦
          Agrees-append a.memory j.content (type3_start j) j.cut.type3_data_size
            (inner-Agrees (num j) (omega arith)) (keeps.type3s need (type3_come need))
      | inr missing ↦
          let same : type3_start j ≡ type2_start j = omega (arith, s.type3_absent missing) in
          rw (← same) (inner-Agrees (num j) (omega arith))
    ]

    at_start : type2_place j b.received ≡ type2_start j
    at_start = ground (arith, type3_come)

    agrees : Agrees a.memory 0 j.content 0 (length j.content)
    agrees =
        let end : type2_start j + j.cut.type2_data_size ≡ length j.content =
          omega (arith, s.covers) in
        rw (← end) (
          Agrees-append a.memory j.content (type2_start j) j.cut.type2_data_size type3-Agrees
            (rw at_start at (keeps.type2s last)))

    bytes : length j.content ≤ length a.memory → take a.size a.memory ≡ j.content
    bytes room = rw sized (Agrees-take j.content a.memory room agrees)

    pub IsFrame-super_frame :
        length j.content ≤ length a.memory → Holds b a → IsFrame j source (super_frame b a)
    IsFrame-super_frame room held =
        let d = keeps.described last in
        record {
          bytes = bytes room;
          size = sized;
          broken = rw ((complete_iff b a held).1 all) refl;
          payload_type = d.payload_type;
          payload_code = d.payload_code;
          pts = d.pts;
          dts = d.dts;
          flags = d.flags;
          stream_id = keeps.stream_id;
          source_id = keeps.source_id;
          super_frame_no = keeps.saved_frame_no;
        }
