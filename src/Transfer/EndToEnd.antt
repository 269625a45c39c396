-- ===== src/Transfer/EndToEnd.antt =====
-- A frame that `Sender::send` sends in single mode comes out of `Receiver::receive`.
use new_efp.Common.{
  ℕ, ◌+◌, ◌-◌, ◌*◌, ◌^◌, ◌≤◌, ◌<◌, ◌≡◌, ap, sym, subst, ◌∙◌, false, true, List, [], ◌∷◌, ◌++◌, map,
  some, All, arith, length, take, get_or, bit_and, ◌⊎◌, ltb, leb, ◌&&◌, ◌==◌, if◌then◌else◌,
}
use new_efp.Common.Table.{member}
use new_efp.Common.Memory.{Bytes}
use new_efp.Wire.{ok, max_superframe_size, uint32_max, uint64_max, type2}
use new_efp.Wire.FirstByte.{first_byte_fields}
use new_efp.Sender.State.{Sender, single}
use new_efp.Sender.Fragments.{Job}
use new_efp.Sender.Api.{Frame, dts_pts_difference, send}
use new_efp.Sender.Cut.{IsCut, IsJobOf}
use new_efp.Sender.SingleSpec.{packets, on_stream}
use new_efp.Sender.SingleSend.{IsSized, too_many, packet_count, send-SentFrame}
use new_efp.Receiver.State.{Receiver, SuperFrame}
use new_efp.Receiver.Delivery.{process_timeouts}
use new_efp.Receiver.Invariant.{IsValid}
use new_efp.Transfer.Packets.{IsSendable}
use new_efp.Transfer.Opening.{IsReady}
use new_efp.Transfer.Whole.{receive_all, IsFrame}
use new_efp.Transfer.Shuffled.{receive_all-HandedOn}
use new_efp.Transfer.InOrder.{length-packets, map-packets}

-- The arguments of `send` fit their C++ types.
pub record IsInRange (f : Frame) : Type 0 where
  pub payload_type : f.payload_type < 256
  pub pts : f.pts < 2 ^ 64
  pub payload_code : f.payload_code < 2 ^ 32
  pub stream_id : f.stream_id < 256
  pub flags : f.flags < 256

-- DTS comes through where it and PTS are given, it is at most PTS, and less than UINT32_MAX below
-- it; it comes out as not given otherwise.
abbrev pub received_dts : ℕ → ℕ → ℕ
received_dts pts dts =
    if ltb pts uint64_max && leb dts pts && ltb pts (dts + uint32_max) then dts else uint64_max

-- What was sent, as it is handed over under the number `n` with the source that its packets came
-- from: the same bytes and metadata, of the flags the upper four bits.
pub record IsReceived (f : Frame) (n source : ℕ) (g : SuperFrame) : Type 0 where
  pub bytes : take g.assembly.size g.assembly.memory ≡ f.content
  pub size : g.assembly.size ≡ length f.content
  pub broken : g.broken ≡ false
  pub payload_type : g.payload_type ≡ f.payload_type
  pub payload_code : g.payload_code ≡ f.payload_code
  pub pts : g.pts ≡ f.pts
  pub dts : g.dts ≡ received_dts f.pts f.dts
  pub flags : g.flags ≡ bit_and f.flags 0xF0
  pub stream_id : g.stream_id ≡ f.stream_id
  pub source_id : g.source_id ≡ source
  pub super_frame_no : g.super_frame_no ≡ n

dts_difference_bound :
    (pts dts : ℕ)
    → (dts_pts_difference pts dts < 2 ^ 32)
      × ((dts_pts_difference pts dts ≡ uint32_max) ⊎ (dts_pts_difference pts dts ≤ pts))
unfolding dts_pts_difference
dts_difference_bound pts dts = ground arith

-- The difference that is sent gives DTS back.
dts_back :
    (pts dts : ℕ)
    → pts < 2 ^ 64
    → (if dts_pts_difference pts dts == uint32_max
        then uint64_max
        else pts - dts_pts_difference pts dts)
      ≡ received_dts pts dts
unfolding dts_pts_difference
dts_back pts dts h = ground arith

module _ (f : Frame) (n mtu : ℕ) (j : Job) (of : IsJobOf f n j) (cut : IsCut mtu j) where
  sendable :
      IsInRange f
      → n < 2 ^ 16
      → mtu < 2 ^ 16
      → length f.content + 2 * mtu ≤ max_superframe_size
      → IsSendable j
  sendable range number narrow small =
      let long : length j.content ≡ length f.content = ap length of.content in
      let flip : j.type1_payload_size * j.cut.num_type1_fragments
          ≡ j.cut.num_type1_fragments * j.type1_payload_size =
        grind arith in
      record {
        covers = omega (arith, cut.covers, flip);
        counted = cut.counted;
        type2_filled = cut.type2_filled;
        type2_short = cut.type2_short;
        positive = cut.positive;
        timed = rw (of.dts_pts_diff, of.pts) ((dts_difference_bound f.pts f.dts).1);
        type3_short = cut.type3_short;
        type3_filled = cut.type3_filled;
        type3_absent = cut.type3_absent;
        few = cut.few;
        padded = omega (arith, cut.padded, long, small);
        whole = omega (arith, long, small);
        type1_payload_size = omega (arith, cut.type1_narrow, narrow);
        type2_data_size = omega (arith, cut.type2_narrow, narrow);
        flags = omega (arith, of.flags, range.flags);
        stream_id = omega (arith, of.stream_id, range.stream_id);
        payload_type = omega (arith, of.payload_type, range.payload_type);
        super_frame_no = omega (arith, of.super_frame_no, number);
        pts = omega (arith, of.pts, range.pts);
        dts_pts_diff = rw of.dts_pts_diff ((dts_difference_bound f.pts f.dts).0);
        payload_code = omega (arith, of.payload_code, range.payload_code);
      }

  received :
      (source : ℕ) (g : SuperFrame) → IsInRange f → IsFrame j source g → IsReceived f n source g
  received source g range is = record {
    bytes = is.bytes ∙ of.content;
    size = is.size ∙ ap length of.content;
    broken = is.broken;
    payload_type = is.payload_type ∙ of.payload_type;
    payload_code = is.payload_code ∙ of.payload_code;
    pts = is.pts ∙ of.pts;
    dts = is.dts ∙ rw (of.pts, of.dts_pts_diff) (dts_back f.pts f.dts range.pts);
    flags = is.flags ∙ rw of.flags ((first_byte_fields type2 f.flags tt range.flags).1);
    stream_id = is.stream_id ∙ of.stream_id;
    source_id = is.source_id;
    super_frame_no = is.super_frame_no ∙ of.super_frame_no;
  }

All-mono : (P Q : ℕ → Type 0) (ks : List ℕ) → ((k : ℕ) → P k → Q k) → All P ks → All Q ks
All-mono P Q [] f v = tt
All-mono P Q (k ∷ ks) f v = (f k v.0, All-mono P Q ks f v.1)

-- In single mode, a nonempty frame in the range of its C++ types, that needs no more than
-- MAX_FRAGMENTS_PER_SUPERFRAME fragments and is at least two MTUs below MAX_SUPERFRAME_SIZE, is
-- sent by a sender of an MTU of 256 to 65535: `send` returns OK and gives the callback as many
-- packets as the plan has. Those packets, passed to `receive` of a valid receiver with threads in
-- any order and with any repetitions, as long as each comes, where the frame's bucket is idle and
-- was not this frame's before and the allocator has memory, come to a state from which the next
-- `processTimeouts`, a round of the worker thread, comes to its end and hands a frame over: it is
-- not broken, and has the bytes, the size and the metadata of the frame. The frames that were due
-- before it are handed over before it, those after it behind it.
pub send-IsReceived :
    (f : Frame) (s : Sender) (source : ℕ) (r : Receiver) (order : List ℕ)
    → s.sub_fragment_mode ≡ single
    → IsSized s
    → s.mtu < 2 ^ 16
    → s.super_frame_no < 2 ^ 16
    → IsInRange f
    → 0 < length f.content
    → length f.content + 2 * s.mtu ≤ max_superframe_size
    → too_many f s ≡ false
    → IsValid r
    → IsReady s.super_frame_no r
    → All (λ k. k < packet_count s.mtu (length f.content)) order
    → ((k : ℕ) → k < packet_count s.mtu (length f.content) → member k order ≡ true)
    → (after : Sender) × (ps : List Bytes) × (t : Receiver) × (u : Receiver) × (g : SuperFrame)
      × (before : List SuperFrame) × (behind : List SuperFrame) × (send f s ≡ some (ok, after))
      × (after.sent ≡ s.sent ++ on_stream f.stream_id ps)
      × (length ps ≡ packet_count s.mtu (length f.content))
      × (receive_all (map (λ k. get_or ps k []) order) source r ≡ some t)
      × (process_timeouts t ≡ some u)
      × (u.delivered ≡ t.delivered ++ (before ++ (g ∷ behind)))
      × IsReceived f s.super_frame_no source g
send-IsReceived f s source r order mode v narrow number range filled small few valid ready within
      covers =
    let done = send-SentFrame f s mode v range.flags filled (omega (arith, small)) few in
    let fine : IsSendable done.j =
      sendable f s.super_frame_no s.mtu done.j done.of_frame done.cut range number narrow small in
    let below : All (λ k. k ≤ done.j.of_fragment_no) order =
      All-mono _ _ order (λ k h. omega (arith, h, done.counted)) within in
    let (t, u, comes, hands, on) =
      receive_all-HandedOn done.j fine source order r valid
        (subst (λ n. IsReady n r) (sym done.of_frame.super_frame_no) ready) below
        (λ k h. covers k (omega (arith, h, done.counted))) in
    (
      done.after,
      packets done.j,
      t,
      u,
      on.frame,
      on.before,
      on.behind,
      done.returns,
      done.sent,
      length-packets done.j fine ∙ done.counted,
      rw (map-packets done.j fine order below) comes,
      hands,
      on.delivered,
      received f s.super_frame_no s.mtu done.j done.of_frame done.cut source on.frame range
          on.is_frame,
    )
