-- ===== src/Bandwidth/RttTrip.antt =====
-- An RTT probe, its response, and what the manager makes of the time between.
use new_efp.Common.{
  some, ◌%◌, ltb, ◌==◌, ℕ, ◌+◌, ◌-◌, ◌^◌, ◌≤◌, ◌<◌, ◌≡◌, refl, ap, ◌∙◌, subst, true, inc64, [],
  ◌&&◌, arith, length, Bool-cases, inl, inr,
}
use mathlib.Core.List.{append-nil}
use new_efp.Common.Int.{ℤ, pos, negsuc, ◌+ℤ◌, ◌-ℤ◌, ◌≤ℤ◌, ◌<ℤ◌, tdiv, ltb_ℤ}
use new_efp.Common.Memory.{Bytes}
use new_efp.Wire.{
  Result, ok, frame_size_mismatch, invalid_parameter, make_frame_type_byte, get_frame_type,
  frame_type_code, subtype_rtt_response,
}
use new_efp.Wire.Rtt.{
  sizeof_response, RttProbe, RttResponse, encode_probe, decode_probe, encode_response,
  decode_response, decode-encode_probe, decode-encode_response,
}
use new_efp.Bandwidth.Float.{Float}
use new_efp.Bandwidth.State.{Manager}
use new_efp.Bandwidth.Health.{tick}
use new_efp.Bandwidth.Api.{
  build_rtt_probe, build_rtt_response, process_rtt_response, take_rtt, update_rtt, to_int64,
  compare_baseline,
}

abbrev probe_of : ℕ → ℕ → RttProbe
probe_of sequence_no time = record {
  frame_type = 0;
  subtype = 2;
  sequence_no = sequence_no;
  timestamp_us = time;
}

abbrev response_of : ℕ → ℕ → ℕ → RttResponse
response_of sequence_no time receiver_time = record {
  frame_type = 0;
  subtype = 3;
  sequence_no = sequence_no;
  timestamp_us = time;
  receiver_time_us = receiver_time;
}

probe_bytes :
    {float : Float} (m : Manager float)
    → (build_rtt_probe m).0 ≡ encode_probe (probe_of m.probe_sequence_no (m.clock 0))
unfolding build_rtt_probe make_frame_type_byte
probe_bytes m = refl

length-encode_probe : (p : RttProbe) → length (encode_probe p) ≡ 12
unfolding encode_probe
length-encode_probe p = refl

length-encode_response : (p : RttResponse) → length (encode_response p) ≡ 20
unfolding encode_response
length-encode_response p = refl

response_bytes :
    (sequence_no time receiver_time : ℕ)
    → sequence_no < 65_536
    → time < 2 ^ 64
    → build_rtt_response (encode_probe (probe_of sequence_no time)) receiver_time
      ≡ encode_response (response_of sequence_no time receiver_time)
unfolding build_rtt_response get_frame_type make_frame_type_byte
response_bytes sequence_no time receiver_time s t =
    let read : decode_probe (encode_probe (probe_of sequence_no time)) ≡ probe_of sequence_no time =
      subst (λ l. decode_probe l ≡ probe_of sequence_no time) (append-nil _)
        (decode-encode_probe (probe_of sequence_no time) [] (record {
          frame_type = omega arith;
          subtype = omega arith;
          sequence_no = s;
          timestamp_us = t;
        })) in
    rw (length-encode_probe (probe_of sequence_no time), read) refl

to_int64-small : (v : ℕ) → v < 2 ^ 63 → to_int64 v ≡ pos v
to_int64-small v h = ground arith

difference : (a b : ℕ) → a ≤ b → pos b -ℤ pos a ≡ pos (b - a)
unfolding ◌-ℤ◌
difference a b h = ground arith

compare_baseline-rest :
    {float : Float} (m : Manager float)
    → ((compare_baseline m).smoothed_rtt_us ≡ m.smoothed_rtt_us)
      × ((compare_baseline m).probes_received ≡ m.probes_received)
      × ((compare_baseline m).probe_failures ≡ m.probe_failures)
      × ((compare_baseline m).streams ≡ m.streams)
      × ((compare_baseline m).sender ≡ m.sender)
unfolding compare_baseline
compare_baseline-rest m = ground arith

-- The response is taken for what it is.
answered_probe :
    {float : Float} (m later : Manager float) (receiver_time : ℕ)
    → m.probe_sequence_no < 65_536
    → m.clock 0 < later.clock 0
    → later.clock 0 < m.clock 0 + 30_000_000
    → later.clock 0 < 2 ^ 63
    → receiver_time < 2 ^ 64
    → process_rtt_response (build_rtt_response (build_rtt_probe m).0 receiver_time) later
      ≡ some (ok, update_rtt (pos (later.clock 0 - m.clock 0)) (tick later))
unfolding process_rtt_response take_rtt get_frame_type
answered_probe m later receiver_time s after soon small r =
    let answer = response_of m.probe_sequence_no (m.clock 0) receiver_time in
    let sent : build_rtt_response (build_rtt_probe m).0 receiver_time ≡ encode_response answer =
      ap (λ l. build_rtt_response l receiver_time) (probe_bytes m)
      ∙ response_bytes m.probe_sequence_no (m.clock 0) receiver_time s (omega arith) in
    let read : decode_response (encode_response answer) ≡ answer =
      subst (λ l. decode_response l ≡ answer) (append-nil _)
        (decode-encode_response answer [] (record {
          frame_type = omega arith;
          subtype = omega arith;
          sequence_no = s;
          timestamp_us = omega arith;
          receiver_time_us = r;
        })) in
    let time : pos (later.clock 0) -ℤ to_int64 (m.clock 0) ≡ pos (later.clock 0 - m.clock 0) =
      ap (λ z. pos (later.clock 0) -ℤ z) (to_int64-small (m.clock 0) (omega arith))
      ∙ difference (m.clock 0) (later.clock 0) (omega arith) in
    let in_range : (ltb_ℤ (pos 0) (pos (later.clock 0 - m.clock 0))
          && ltb_ℤ (pos (later.clock 0 - m.clock 0)) (pos 30_000_000))
        ≡ true =
      ground arith in
    let defined : ltb_ℤ (pos (later.clock 0 - m.clock 0)) (pos (2 ^ 63)) ≡ true = ground arith in
    rw sent (rw (length-encode_response answer, read) (rw time (rw (defined, in_range) refl)))

small_difference : (a b : ℕ) → a < 2 ^ 63 → ltb_ℤ (pos a -ℤ pos b) (pos (2 ^ 63)) ≡ true
unfolding ◌-ℤ◌
small_difference a b h = ground arith

-- A probe that one manager builds is answered, and the answer, processed later and less than 30
-- seconds after, is accepted: the RTT estimate moves by an eighth of the way to the time between, the
-- response is counted, the failures are over, and the streams and the sender stay. The sequence
-- number and the clocks fit their widths.
pub process_rtt_response-build_rtt_probe :
    {float : Float} (m later : Manager float) (receiver_time : ℕ)
    → m.probe_sequence_no < 65_536
    → m.clock 0 < later.clock 0
    → later.clock 0 < m.clock 0 + 30_000_000
    → later.clock 0 < 2 ^ 63
    → receiver_time < 2 ^ 64
    → (t : Manager float) × (process_rtt_response
          (build_rtt_response (build_rtt_probe m).0 receiver_time)
          later
        ≡ some (ok, t))
      × (t.smoothed_rtt_us
          ≡ later.smoothed_rtt_us
            +ℤ tdiv (pos (later.clock 0 - m.clock 0) -ℤ later.smoothed_rtt_us) 8)
      × (t.probes_received ≡ (later.probes_received + 1) % 2 ^ 64)
      × (t.probe_failures ≡ 0)
      × (t.streams ≡ later.streams)
      × (t.sender ≡ later.sender)
unfolding update_rtt
process_rtt_response-build_rtt_probe m later receiver_time s after soon small r =
    let counted = record (tick later) {
      smoothed_rtt_us =
          later.smoothed_rtt_us
          +ℤ tdiv (pos (later.clock 0 - m.clock 0) -ℤ later.smoothed_rtt_us) 8;
      probes_received = inc64 later.probes_received;
      probe_failures = 0;
    } in
    let (rtt, received, failures, streams, sender) = compare_baseline-rest counted in
    (
      update_rtt (pos (later.clock 0 - m.clock 0)) (tick later),
      answered_probe m later receiver_time s after soon small r,
      rtt,
      received,
      failures,
      streams,
      sender,
    )

-- The estimate is not negative and less than 30 seconds.
abbrev pub RttIsBounded : {float : Float} → Manager float → Type 0
RttIsBounded m = (pos 0 ≤ℤ m.smoothed_rtt_us) × (m.smoothed_rtt_us <ℤ pos 30_000_000)

average_bounded :
    (s r : ℤ)
    → pos 0 ≤ℤ s
    → s <ℤ pos 30_000_000
    → pos 0 <ℤ r
    → r <ℤ pos 30_000_000
    → (pos 0 ≤ℤ s +ℤ tdiv (r -ℤ s) 8) × (s +ℤ tdiv (r -ℤ s) 8 <ℤ pos 30_000_000)
unfolding ◌+ℤ◌ ◌-ℤ◌ tdiv
average_bounded (pos s) (pos r) a b c d = ground arith
average_bounded (pos s) (negsuc r) a b c d = absurd (omega arith)
average_bounded (negsuc s) r a b c d = absurd (omega arith)

take_rtt-RttIsBounded :
    {float : Float} (rtt : ℤ) (m : Manager float) → RttIsBounded m → RttIsBounded (take_rtt rtt m)
unfolding take_rtt update_rtt
take_rtt-RttIsBounded rtt m v =
    elim (Bool-cases (ltb_ℤ (pos 0) rtt && ltb_ℤ rtt (pos 30_000_000))) [
      | inl e ↦ rw e (
          rw
            ((compare_baseline-rest (record m {
              smoothed_rtt_us = m.smoothed_rtt_us +ℤ tdiv (rtt -ℤ m.smoothed_rtt_us) 8;
              probes_received = inc64 m.probes_received;
              probe_failures = 0;
            })).0)
            (average_bounded m.smoothed_rtt_us rtt v.0 v.1 (ground (arith, e)) (ground (arith, e))))
      | inr e ↦ rw e v
    ]

-- For every packet whose time stamp is below 2^63, as that of every clock is, the call returns, and
-- the RTT estimate of the manager stays at 0 or above and below 30 seconds: a time outside that is
-- not counted, and an average of such times is one.
pub process_rtt_response-RttIsBounded :
    {float : Float} (packet : Bytes) (m : Manager float)
    → RttIsBounded m
    → m.clock 0 < 2 ^ 63
    → (decode_response packet).timestamp_us < 2 ^ 63
    → (result : Result) × (t : Manager float) × (process_rtt_response packet m ≡ some (result, t))
      × RttIsBounded t
unfolding process_rtt_response
process_rtt_response-RttIsBounded packet m v now small =
    let p = decode_response packet in
    elim (Bool-cases (ltb (length packet) sizeof_response)) [
      | inl short ↦ (frame_size_mismatch, m, rw short refl, v)
      | inr long ↦ elim (Bool-cases (frame_type_code (get_frame_type p.frame_type) == 0)) [
        | inr other ↦ (invalid_parameter, m, rw (long, other) refl, v)
        | inl signal ↦ elim (Bool-cases (p.subtype == subtype_rtt_response)) [
          | inr other ↦ (invalid_parameter, m, rw (long, signal, other) refl, v)
          | inl response ↦
              let rtt = pos (m.clock 0) -ℤ to_int64 p.timestamp_us in
              let defined : ltb_ℤ rtt (pos (2 ^ 63)) ≡ true =
                rw (to_int64-small p.timestamp_us small)
                  (small_difference (m.clock 0) p.timestamp_us now) in
              (
                ok,
                take_rtt rtt (tick m),
                rw (long, signal, response) (rw defined refl),
                take_rtt-RttIsBounded rtt (tick m) v,
              )
        ]
      ]
    ]
