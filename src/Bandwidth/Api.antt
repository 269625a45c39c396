-- ===== src/Bandwidth/Api.antt =====
-- The other public operations of `BandwidthManager`.
use new_efp.Common.{
  ℕ, ◌+◌, ◌-◌, ◌%◌, ◌^◌, Bool, true, false, not, [], Option, none, some, ltb, ◌==◌, ◌&&◌,
  if◌then◌else◌, inc64, length,
}
use new_efp.Common.Int.{ℤ, pos, negsuc, ◌+ℤ◌, ◌-ℤ◌, tdiv, ltb_ℤ, eqb_ℤ}
use new_efp.Common.Memory.{Bytes}
use new_efp.Wire.{
  Result, ok, invalid_parameter, frame_size_mismatch, type0, get_frame_type, frame_type_code,
  make_frame_type_byte, subtype_rtt_probe, subtype_rtt_response,
}
use new_efp.Wire.Rtt.{
  sizeof_probe, sizeof_response, encode_probe, decode_probe, encode_response, decode_response,
}
use new_efp.Sender.State.{Sender, SubFragmentMode}
use new_efp.Sender.Api.{Frame, new_sender, send, receive_nack, process_retransmits}
use new_efp.Bandwidth.Float.{Float, clamp}
use new_efp.Bandwidth.State.{healthy, StreamConfig, Config, StreamState, Manager, set_stream}
use new_efp.Bandwidth.Streams.{update_stream_multiplier}
use new_efp.Bandwidth.Health.{tick}

abbrev pub is_ok : Result → Bool
is_ok ok = true
is_ok other = false

-- A response to a probe, with what the receiver's clock gives.
unfoldable pub build_rtt_response : Bytes → ℕ → Bytes
build_rtt_response packet time =
    let p = decode_probe packet in
    if ltb (length packet) sizeof_probe
    then []
    else if not (frame_type_code (get_frame_type p.frame_type) == 0)
    then []
    else if not (p.subtype == subtype_rtt_probe)
    then []
    else encode_response (record {
      frame_type = make_frame_type_byte type0 0;
      subtype = subtype_rtt_response;
      sequence_no = p.sequence_no;
      timestamp_us = p.timestamp_us;
      receiver_time_us = time;
    })

-- `(int64_t)` of a 64-bit number.
abbrev pub to_int64 : ℕ → ℤ
to_int64 v = if ltb v (2 ^ 63) then pos v else negsuc (2 ^ 64 - v - 1)

module _ {float : Float} where
  -- The stream of the constructor, and its defaults.
  abbrev pub new_stream : StreamState float
  new_stream = record {
    config = record {
      min_multiplier = float.f_0;
      max_multiplier = float.f_1;
      drop_on_severe = false;
      priority = 128;
    };
    multiplier = float.f_1;
    dropped = false;
    manual = float.f_minus_1;
  }

  unfoldable pub new_manager :
      ℕ → SubFragmentMode → ℕ → ℕ → Config float → (ℕ → ℕ) → (ℕ → ℕ) → Manager float
  new_manager mtu mode retention_ms retention_max_bytes config sender_clock clock = record {
    sender = new_sender mtu mode retention_ms retention_max_bytes sender_clock;
    config = config;
    streams = λ i. new_stream;
    current_health = healthy;
    smoothed_nack_rate = float.f_0;
    smoothed_jitter_us = pos 0;
    smoothed_rtt_us = pos 0;
    last_update_us = pos 0;
    recovery_start_us = pos 0;
    recent_nack_count = 0;
    probe_sequence_no = 0;
    probes_sent = 0;
    probes_received = 0;
    probe_failures = 0;
    baseline_rtt_us = pos 0;
    stable_rtt_samples = 0;
    bandwidth_reductions = 0;
    bandwidth_increases = 0;
    streams_dropped = 0;
    clock = clock;
    notices = [];
  }

  unfoldable pub set_stream_config : ℕ → StreamConfig float → Manager float → Manager float
  set_stream_config i c m =
      update_stream_multiplier i (set_stream i (record (m.streams i) { config = c }) m)

  unfoldable pub set_manual_multiplier : ℕ → float.F → Manager float → Manager float
  set_manual_multiplier i x m =
      update_stream_multiplier i
        (set_stream i (record (m.streams i) { manual = clamp float x float.f_0 float.f_1 }) m)

  unfoldable pub clear_manual_multiplier : ℕ → Manager float → Manager float
  clear_manual_multiplier i m =
      update_stream_multiplier i
        (set_stream i (record (m.streams i) { manual = float.f_minus_1 }) m)

  abbrev pub with_sender :
      Manager float → Option (Result × Sender) → Option (Result × Manager float)
  with_sender m none = none
  with_sender m (some (result, s)) = some (result, record m { sender = s })

  -- A frame of a dropped stream goes nowhere, and the call says OK.
  unfoldable pub managed_send : Frame → Manager float → Option (Result × Manager float)
  managed_send f m =
      if (m.streams f.stream_id).dropped then some (ok, m) else with_sender m (send f m.sender)

  abbrev pub count_nack : Result × Sender → Manager float → Result × Manager float
  count_nack (result, s) m = (
    result,
    record m {
      sender = s;
      recent_nack_count =
          if is_ok result then (m.recent_nack_count + 1) % 2 ^ 32 else m.recent_nack_count;
    },
  )

  unfoldable pub managed_receive_nack : Bytes → Manager float → Result × Manager float
  managed_receive_nack packet m = count_nack (receive_nack packet m.sender) m

  unfoldable pub managed_retransmits : ℕ → Manager float → ℕ × Manager float
  managed_retransmits limit m =
      let (count, s) = process_retransmits limit m.sender in (count, record m { sender = s })

  unfoldable pub update_jitter_us : ℤ → Manager float → Manager float
  update_jitter_us jitter m =
      let deviation = if ltb_ℤ jitter (pos 0) then pos 0 -ℤ jitter else jitter in
      record m {
        smoothed_jitter_us = m.smoothed_jitter_us +ℤ tdiv (deviation -ℤ m.smoothed_jitter_us) 16;
      }

  -- The count of samples near the baseline.
  unfoldable pub compare_baseline : Manager float → Manager float
  compare_baseline m =
      let ratio = float.div (float.of_int m.smoothed_rtt_us) (float.of_int m.baseline_rtt_us) in
      if eqb_ℤ m.baseline_rtt_us (pos 0)
      then record m { baseline_rtt_us = m.smoothed_rtt_us }
      else if float.le float.f_08 ratio && float.le ratio float.f_12
      then record m { stable_rtt_samples = (m.stable_rtt_samples + 1) % 2 ^ 32 }
      else record m { stable_rtt_samples = 0 }

  unfoldable pub update_rtt : ℤ → Manager float → Manager float
  update_rtt rtt m = compare_baseline (record m {
    smoothed_rtt_us = m.smoothed_rtt_us +ℤ tdiv (rtt -ℤ m.smoothed_rtt_us) 8;
    probes_received = inc64 m.probes_received;
    probe_failures = 0;
  })

  unfoldable pub build_rtt_probe : Manager float → Bytes × Manager float
  build_rtt_probe m = (
    encode_probe (record {
      frame_type = make_frame_type_byte type0 0;
      subtype = subtype_rtt_probe;
      sequence_no = m.probe_sequence_no;
      timestamp_us = m.clock 0;
    }),
    record (tick m) {
      probe_sequence_no = (m.probe_sequence_no + 1) % 2 ^ 16;
      probes_sent = inc64 m.probes_sent;
    },
  )

  -- A round trip of less than 30 seconds counts.
  unfoldable pub take_rtt : ℤ → Manager float → Manager float
  take_rtt rtt m = if ltb_ℤ (pos 0) rtt && ltb_ℤ rtt (pos 30_000_000) then update_rtt rtt m else m

  -- The round trip is counted. Where the subtraction left `int64_t`, the program is undefined.
  abbrev pub take_difference : ℤ → Manager float → Option (Result × Manager float)
  take_difference rtt m = if ltb_ℤ rtt (pos (2 ^ 63)) then some (ok, take_rtt rtt m) else none

  unfoldable pub process_rtt_response : Bytes → Manager float → Option (Result × Manager float)
  process_rtt_response packet m =
      let p = decode_response packet in
      if ltb (length packet) sizeof_response
      then some (frame_size_mismatch, m)
      else if not (frame_type_code (get_frame_type p.frame_type) == 0)
      then some (invalid_parameter, m)
      else if not (p.subtype == subtype_rtt_response)
      then some (invalid_parameter, m)
      else take_difference (pos (m.clock 0) -ℤ to_int64 p.timestamp_us) (tick m)
