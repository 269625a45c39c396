-- ===== src/Bandwidth/Runs.antt =====
-- Every operation keeps the multipliers in their ranges, in any run of them.
use new_efp.Common.{
  refl, ◌∙◌, ltb, ◌==◌, ◌&&◌, ◌^◌, length, ℕ, ◌≡◌, sym, ap, subst, Option, none, some, arith,
  Bool-cases, inl, inr,
}
use new_efp.Common.Int.{pos, ◌-ℤ◌, ltb_ℤ}
use mathlib.Core.Option.{some-injective}
use new_efp.Bandwidth.Float.{Float, FloatLaws}
use new_efp.Bandwidth.State.{StreamConfig, Config, Manager}
use new_efp.Bandwidth.Health.{tick, update_health}
use new_efp.Bandwidth.Api.{
  new_manager, set_stream_config, set_manual_multiplier, clear_manual_multiplier,
}
use new_efp.Common.Int.{ℤ}
use new_efp.Common.Memory.{Bytes}
use new_efp.Wire.{Result, frame_type_code, get_frame_type, subtype_rtt_response}
use new_efp.Sender.State.{SubFragmentMode, Sender}
use new_efp.Wire.Rtt.{sizeof_response, decode_response}
use new_efp.Sender.Api.{Frame, send}
use new_efp.Bandwidth.Api.{
  managed_send, managed_receive_nack, managed_retransmits, update_jitter_us, update_rtt,
  compare_baseline, build_rtt_probe, process_rtt_response, take_difference, take_rtt, with_sender,
  to_int64,
}
use new_efp.Bandwidth.Bounds.{ConfigIsValid, IsBounded, LeavesIsBounded}
use new_efp.Bandwidth.Kept.{update_health-Leaves, configured}

-- One call of a public operation that changes the manager. A configuration given has a minimum that
-- is not above its maximum.
pub data Operation (float : Float) : Manager float → Manager float → Type 0 where
  update_call : (m t : Manager float) → update_health m ≡ some t → Operation float m t
  config_call :
      (i : ℕ) (c : StreamConfig float) (m : Manager float)
      → ConfigIsValid float c
      → Operation float m (set_stream_config i c m)
  manual_call :
      (i : ℕ) (x : float.F) (m : Manager float) → Operation float m (set_manual_multiplier i x m)
  clear_call : (i : ℕ) (m : Manager float) → Operation float m (clear_manual_multiplier i m)
  send_call :
      (f : Frame) (result : Result) (m t : Manager float)
      → managed_send f m ≡ some (result, t)
      → Operation float m t
  nack_call :
      (packet : Bytes) (m : Manager float) → Operation float m (managed_receive_nack packet m).1
  retransmits_call :
      (limit : ℕ) (m : Manager float) → Operation float m (managed_retransmits limit m).1
  jitter_call : (jitter : ℤ) (m : Manager float) → Operation float m (update_jitter_us jitter m)
  rtt_call : (rtt : ℤ) (m : Manager float) → Operation float m (update_rtt rtt m)
  probe_call : (m : Manager float) → Operation float m (build_rtt_probe m).1
  response_call :
      (packet : Bytes) (result : Result) (m t : Manager float)
      → process_rtt_response packet m ≡ some (result, t)
      → Operation float m t

pub data Operations (float : Float) : Manager float → Manager float → Type 0 where
  none_yet : {m : Manager float} → Operations float m m
  then_one :
      {m t u : Manager float} → Operations float m t → Operation float t u → Operations float m u

module _ (float : Float) (laws : FloatLaws float) where
  compare_baseline-streams : (m : Manager float) → (compare_baseline m).streams ≡ m.streams
  unfolding compare_baseline
  compare_baseline-streams m = ground arith

  update_rtt-streams : (rtt : ℤ) (m : Manager float) → (update_rtt rtt m).streams ≡ m.streams
  unfolding update_rtt
  update_rtt-streams rtt m = compare_baseline-streams _

  same_manager :
      {r : Result} (m : Manager float) (result : Result) (t : Manager float)
      → ◌≡◌ {A = Option (Result × Manager float)} (some (r, m)) (some (result, t))
      → t.streams ≡ m.streams
  same_manager m result t e = ap (λ p. p.1.streams) (sym (some-injective _ _ e))

  take_rtt-streams : (rtt : ℤ) (m : Manager float) → (take_rtt rtt m).streams ≡ m.streams
  unfolding take_rtt
  take_rtt-streams rtt m = elim (Bool-cases (ltb_ℤ (pos 0) rtt && ltb_ℤ rtt (pos 30_000_000))) [
    | inl e ↦ rw e (update_rtt-streams rtt m)
    | inr e ↦ rw e refl
  ]

  take_difference-streams :
      (rtt : ℤ) (result : Result) (m t : Manager float)
      → take_difference rtt m ≡ some (result, t)
      → t.streams ≡ m.streams
  take_difference-streams rtt result m t e = elim (Bool-cases (ltb_ℤ rtt (pos (2 ^ 63)))) [
    | inl small ↦
        ap (λ p. p.1.streams) (sym (some-injective _ _ (rw small at e))) ∙ take_rtt-streams rtt m
    | inr large ↦ cc (rw large at e)
  ]

  process_rtt_response-streams :
      (packet : Bytes) (result : Result) (m t : Manager float)
      → process_rtt_response packet m ≡ some (result, t)
      → t.streams ≡ m.streams
  unfolding process_rtt_response
  process_rtt_response-streams packet result m t e =
      let p = decode_response packet in
      elim (Bool-cases (ltb (length packet) sizeof_response)) [
        | inl short ↦ same_manager m result t (rw short at e)
        | inr long ↦ elim (Bool-cases (frame_type_code (get_frame_type p.frame_type) == 0)) [
          | inr other ↦ same_manager m result t (rw (long, other) at e)
          | inl signal ↦ elim (Bool-cases (p.subtype == subtype_rtt_response)) [
            | inr other ↦ same_manager m result t (rw (long, signal, other) at e)
            | inl response ↦
                take_difference-streams (pos (m.clock 0) -ℤ to_int64 p.timestamp_us) result (tick m)
                  t (rw (long, signal, response) at e)
          ]
        ]
      ]

  with_sender-streams :
      (o : Option (Result × Sender)) (result : Result) (m t : Manager float)
      → with_sender m o ≡ some (result, t)
      → t.streams ≡ m.streams
  with_sender-streams none result m t e = absurd (cc e)
  with_sender-streams (some (r, s)) result m t e =
      ap (λ p. p.1.streams) (sym (some-injective _ _ e))

  managed_send-streams :
      (f : Frame) (result : Result) (m t : Manager float)
      → managed_send f m ≡ some (result, t)
      → t.streams ≡ m.streams
  unfolding managed_send
  managed_send-streams f result m t e = elim (Bool-cases (m.streams f.stream_id).dropped) [
    | inl d ↦ ap (λ p. p.1.streams) (sym (some-injective _ _ (rw (d, managed_send) at e)))
    | inr d ↦ with_sender-streams (send f m.sender) result m t (rw (d, managed_send) at e)
  ]

  Operation-IsBounded :
      {m t : Manager float} → Operation float m t → IsBounded float m → IsBounded float t
  unfolding set_stream_config set_manual_multiplier clear_manual_multiplier managed_receive_nack
      managed_retransmits update_jitter_us build_rtt_probe
  Operation-IsBounded (update_call m t e) v =
      subst (LeavesIsBounded float) e (update_health-Leaves float laws m v)
  Operation-IsBounded (config_call i c m valid) v = configured float laws i _ m v valid
  Operation-IsBounded (manual_call i x m) v = configured float laws i _ m v (v i).0
  Operation-IsBounded (clear_call i m) v = configured float laws i _ m v (v i).0
  Operation-IsBounded (send_call f result m t e) v = rw (managed_send-streams f result m t e) v
  Operation-IsBounded (nack_call packet m) v = v
  Operation-IsBounded (retransmits_call limit m) v = v
  Operation-IsBounded (jitter_call jitter m) v = v
  Operation-IsBounded (rtt_call rtt m) v = rw (update_rtt-streams rtt m) v
  Operation-IsBounded (probe_call m) v = v
  Operation-IsBounded (response_call packet result m t e) v =
      rw (process_rtt_response-streams packet result m t e) v

  -- From a manager whose multipliers are in the ranges of their streams, whatever operations are
  -- called in whatever order, with configurations whose minimum is not above their maximum, every
  -- multiplier is in the range of its stream.
  pub Operations-IsBounded :
      {m t : Manager float} → Operations float m t → IsBounded float m → IsBounded float t
  Operations-IsBounded none_yet v = v
  Operations-IsBounded (then_one run one) v = Operation-IsBounded one (Operations-IsBounded run v)

  -- The constructor makes such a manager.
  pub new_manager-IsBounded :
      (mtu : ℕ) (mode : SubFragmentMode) (ms max_bytes : ℕ) (config : Config float)
      (sender_clock clock : ℕ → ℕ)
      → IsBounded float (new_manager mtu mode ms max_bytes config sender_clock clock)
  unfolding new_manager
  new_manager-IsBounded mtu mode ms max_bytes config sender_clock clock i =
      (laws.zero_below_one, (laws.zero_below_one, laws.lt_irrefl float.f_1))
