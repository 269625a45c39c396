-- ===== src/BandwidthExamples.antt =====
-- Runs of the bandwidth manager and of the delivery queue on concrete inputs. Numbers of type float
-- stand here as integers, in thousandths.
use new_efp.Common.{ℕ, ◌+◌, ◌-◌, ◌*◌, ◌%◌, ◌^◌, ◌≡◌, refl, true, false, [], ◌∷◌, some, arith, inl}
use new_efp.Common.Int.{
  ℤ, pos, negsuc, sub_ℕ, ◌+ℤ◌, ◌-ℤ◌, tdiv, ltb_ℤ, leb_ℤ, eqb_ℤ, pos_part, neg_part,
}
use new_efp.Common.Memory.{Bytes}
use new_efp.Wire.{Result, ok}
use new_efp.Wire.Rtt.{encode_response, decode_response}
use new_efp.Sender.State.{single}
use new_efp.Sender.Api.{Frame}
use new_efp.Receiver.State.{SuperFrame}
use new_efp.Receiver.Threads.{
  Delivery, started, put_frame, stop_running, Steps, here, on, put, loop, ended, loop_step,
}
use new_efp.Receiver.Queue.{IsInOrder, Drains, Steps-IsInOrder, loop_steps-Drains, stopped-called}
use new_efp.Bandwidth.Float.{Float, FloatLaws, clamp}
use new_efp.Bandwidth.State.{healthy, severe, Config, StreamConfig, Manager}
use new_efp.Bandwidth.Streams.{update_stream_multiplier, set_multiplier, get_target_multiplier}
use new_efp.Bandwidth.Health.{
  update_health, handle_health_change, evaluate_nack_health, evaluate_delay_health, measure_nacks,
  evaluate_health, tick,
}
use new_efp.Bandwidth.Api.{
  new_manager, set_stream_config, managed_send, build_rtt_probe, build_rtt_response,
  process_rtt_response,
}
use new_efp.Bandwidth.Bounds.{IsBounded}
use new_efp.Bandwidth.Runs.{
  none_yet, then_one, config_call, Operations-IsBounded, new_manager-IsBounded,
}
use new_efp.Bandwidth.Drops.{AreTakenUp}
use new_efp.Bandwidth.TakenUp.{update_health-AreTakenUp}
use new_efp.Bandwidth.Reduction.{managed_send-dropped}
use new_efp.Bandwidth.RttTrip.{
  process_rtt_response-build_rtt_probe, process_rtt_response-RttIsBounded, RttIsBounded,
}

mul_ℤ : ℤ → ℤ → ℤ
mul_ℤ a b =
    sub_ℕ (pos_part a * pos_part b + neg_part a * neg_part b)
      (pos_part a * neg_part b + neg_part a * pos_part b)

abbrev thousandths : Float
thousandths = record {
  F = ℤ;
  add = ◌+ℤ◌;
  mul = λ a b. tdiv (mul_ℤ a b) 1000;
  div = λ a b. tdiv (mul_ℤ a (pos 1000)) (pos_part b);
  lt = ltb_ℤ;
  le = leb_ℤ;
  eq = eqb_ℤ;
  of_int = λ a. mul_ℤ a (pos 1000);
  f_0 = pos 0;
  f_1 = pos 1000;
  f_minus_1 = negsuc 999;
  f_03 = pos 300;
  f_05 = pos 500;
  f_07 = pos 700;
  f_08 = pos 800;
  f_12 = pos 1200;
  f_1000 = pos 1_000_000;
}

thousandths-FloatLaws : FloatLaws thousandths
thousandths-FloatLaws = record {
  lt_irrefl = λ a. ground arith;
  eq_left = λ a b c e. ground (arith, e);
  eq_right = λ a b c e. ground (arith, e);
  zero_below_one = refl;
}

abbrev config : Config thousandths
config = record {
  nack_rate_degraded = pos 5000;
  nack_rate_congested = pos 15_000;
  nack_rate_severe = pos 30_000;
  jitter_degraded_us = pos 50_000;
  jitter_congested_us = pos 100_000;
  probe_interval_ms = 100;
  recovery_window_ms = 1000;
  max_probe_failures = 3;
  update_interval_ms = 50;
  additive_increase = pos 100;
  multiplicative_decrease = pos 500;
}

abbrev ticks : ℕ → ℕ
ticks n = 100_000 * n + 100_000

abbrev manager : Manager thousandths
manager = new_manager 1400 single 0 1000 config ticks ticks

manager-IsBounded : IsBounded thousandths manager
manager-IsBounded =
    new_manager-IsBounded thousandths thousandths-FloatLaws 1400 single 0 1000 config ticks ticks

abbrev droppable : StreamConfig thousandths
droppable = record {
  min_multiplier = pos 100;
  max_multiplier = pos 900;
  drop_on_severe = true;
  priority = 1;
}

Operations-IsBounded_example : IsBounded thousandths (set_stream_config 7 droppable manager)
Operations-IsBounded_example =
    Operations-IsBounded thousandths thousandths-FloatLaws
      (then_one none_yet (config_call 7 droppable manager refl)) manager-IsBounded

manager-AreTakenUp : AreTakenUp manager
unfolding new_manager
manager-AreTakenUp mild j l = inl refl

update_health-AreTakenUp_example :
    (t : Manager thousandths) × (update_health manager ≡ some t) × AreTakenUp t
unfolding new_manager
update_health-AreTakenUp_example = update_health-AreTakenUp manager refl manager-AreTakenUp

abbrev frame : Frame
frame = record {
  content = 1 ∷ 2 ∷ 3 ∷ [];
  payload_type = 1;
  pts = 1000;
  dts = 990;
  payload_code = 77;
  stream_id = 7;
  flags = 0;
}

abbrev configured : Manager thousandths
configured = set_stream_config 7 droppable manager

managed_send-dropped_example :
    managed_send frame (handle_health_change severe configured)
    ≡ some (ok, handle_health_change severe configured)
unfolding new_manager set_stream_config update_stream_multiplier set_multiplier
    get_target_multiplier clamp
managed_send-dropped_example =
    managed_send-dropped frame configured thousandths-FloatLaws refl (omega arith) refl refl

-- A manager in severe congestion whose NACKs have stopped.
abbrev recovering : Manager thousandths
recovering = record manager { current_health = severe }

judged_healthy : evaluate_health (measure_nacks (manager.clock 0) (tick manager)) ≡ healthy
unfolding new_manager evaluate_health evaluate_nack_health evaluate_delay_health measure_nacks ◌-ℤ◌
    ◌+ℤ◌ tdiv mul_ℤ
judged_healthy = refl

-- The manager 20 milliseconds on.
abbrev later : Manager thousandths
later = record manager { clock = λ n. 120_000 }

process_rtt_response-build_rtt_probe_example :
    (t : Manager thousandths) × (process_rtt_response
        (build_rtt_response (build_rtt_probe manager).0 500)
        later
      ≡ some (ok, t))
    × (t.smoothed_rtt_us
        ≡ later.smoothed_rtt_us
          +ℤ tdiv (pos (later.clock 0 - manager.clock 0) -ℤ later.smoothed_rtt_us) 8)
    × (t.probes_received ≡ (later.probes_received + 1) % 2 ^ 64)
    × (t.probe_failures ≡ 0)
    × (t.streams ≡ later.streams)
    × (t.sender ≡ later.sender)
unfolding new_manager
process_rtt_response-build_rtt_probe_example =
    process_rtt_response-build_rtt_probe manager later 500 (omega arith) (omega arith) (omega arith)
      (omega arith) (omega arith)

abbrev example_response : Bytes
example_response = encode_response (record {
  frame_type = 0;
  subtype = 3;
  sequence_no = 5;
  timestamp_us = 100_000;
  receiver_time_us = 500;
})

process_rtt_response-RttIsBounded_example :
    (result : Result) × (t : Manager thousandths) × (process_rtt_response example_response later
      ≡ some (result, t))
    × RttIsBounded t
unfolding new_manager decode_response encode_response
process_rtt_response-RttIsBounded_example =
    process_rtt_response-RttIsBounded example_response later (omega arith, omega arith)
      (omega arith) (omega arith)

abbrev whole_frame : SuperFrame
whole_frame = record {
  assembly = record { memory = 1 ∷ []; size = 1 };
  payload_type = 1;
  payload_code = 0;
  pts = 1000;
  dts = 1000;
  stream_id = 3;
  source_id = 0;
  flags = 0;
  super_frame_no = 0;
  broken = false;
}

abbrev queued : Delivery
queued = put_frame whole_frame (put_frame whole_frame started)

queued-Steps : Steps started queued
queued-Steps =
    on (on here (put whole_frame started)) (put whole_frame (put_frame whole_frame started))

Steps-IsInOrder_example : IsInOrder queued
Steps-IsInOrder_example = Steps-IsInOrder queued-Steps

queued-IsInOrder : IsInOrder queued
queued-IsInOrder = Steps-IsInOrder queued-Steps

loop_steps-Drains_example : Drains queued
unfolding put_frame
loop_steps-Drains_example = loop_steps-Drains queued refl refl queued-IsInOrder

-- Two frames are queued when the receiver is stopped, and the thread then ends.
stopped-called_example : (record (stop_running queued) { position = ended }).called ≡ queued.called
unfolding put_frame stop_running loop_step
stopped-called_example =
    stopped-called queued (record (stop_running queued) { position = ended })
      (on here
        (loop (stop_running queued) (record (stop_running queued) { position = ended }) refl))
      refl
