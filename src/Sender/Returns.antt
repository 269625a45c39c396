-- ===== src/Sender/Returns.antt =====
-- `Sender::send` returns, in every mode.
use new_efp.Common.{
  ℕ, ◌+◌, ◌-◌, ◌*◌, ◌≤◌, ◌<◌, ◌≡◌, ◌≢◌, refl, sym, ap, subst, ◌∙◌, false, Option, some, ltb, leb,
  ◌==◌, ◌||◌, if◌then◌else◌, arith, length, Bool-cases, inl, inr,
}
use new_efp.Common.Memory.{length-zeros}
use new_efp.Wire.{
  Result, ok, invalid_parameter, too_large_frame, max_superframe_size, max_fragments_per_superframe,
}
use new_efp.Sender.State.{Sender, SubFragmentMode, single, half, quarter, eighth, bundle_size}
use new_efp.Sender.Plan.{plan, type1_frame_size}
use new_efp.Sender.PlanBounds.{Fits, plan-Fits, type1_frame_bounds}
use new_efp.Sender.Retention.{evict_old_retention}
use new_efp.Sender.Fragments.{Job, type2_only_plan}
use new_efp.Sender.Api.{
  Frame, job, next_super_frame, send, send_checked, send_type2_only, send_fragmented, finish,
  send_job, new_sender,
}
use new_efp.Sender.Bundles.{send_fragmented_bundled}
use new_efp.Sender.Unchanged.{Same, evict_old_retention-Same}
use new_efp.Sender.SingleSpec.{send_fragmented_single-Sent, send_type2-Sent}
use new_efp.Sender.BundleRun.{send_fragmented_bundled-returns}

-- The MTU is 256 at least, and the buffers that the mode uses have its length.
pub record HasRoom (s : Sender) : Type 0 where
  pub large : 256 ≤ s.mtu
  pub send_room : length s.send_buffer ≡ s.mtu
  pub bundle_room : s.sub_fragment_mode ≢ single → length s.bundle_buffer ≡ s.mtu

-- The constructor makes a sender with an MTU of at least 256 and the buffers that its mode uses, of
-- that length, whatever MTU it is given.
pub new_sender-HasRoom :
    (mtu : ℕ) (mode : SubFragmentMode) (ms max_bytes : ℕ) (clock : ℕ → ℕ)
    → HasRoom (new_sender mtu mode ms max_bytes clock)
unfolding new_sender
new_sender-HasRoom mtu mode ms max_bytes clock = record {
  large = ground arith;
  send_room = length-zeros (if ltb mtu 256 then 256 else mtu);
  bundle_room = bundles mode;
}
  where
    bundles :
        (m : SubFragmentMode)
        → m ≢ single
        → length (new_sender mtu m ms max_bytes clock).bundle_buffer
          ≡ (if ltb mtu 256 then 256 else mtu)
    bundles single n = absurd (n refl)
    bundles half n = length-zeros (if ltb mtu 256 then 256 else mtu)
    bundles quarter n = length-zeros (if ltb mtu 256 then 256 else mtu)
    bundles eighth n = length-zeros (if ltb mtu 256 then 256 else mtu)

-- What sending a job needs, in a mode.
record CanSend (m : SubFragmentMode) (j : Job) (s : Sender) : Type 0 where
  large : 256 ≤ s.mtu
  send_room : length s.send_buffer ≡ s.mtu
  bundle_room : m ≢ single → length s.bundle_buffer ≡ s.mtu
  cut : Fits s.mtu (length j.content) j.type1_payload_size j.cut
  packet : 8 + j.type1_payload_size ≡ type1_frame_size s.mtu m

bundled-returns :
    (m : SubFragmentMode) (j : Job) (s : Sender)
    → m ≢ single
    → 0 < bundle_size m
    → CanSend m j s
    → (t : Sender) × (send_fragmented_bundled j (bundle_size m) s ≡ some t)
bundled-returns m j s n some_bundle v =
    let (low, high, bundle) = type1_frame_bounds s.mtu m v.large in
    let whole : bundle_size m * (8 + j.type1_payload_size) + 2 ≤ s.mtu =
      subst (λ f. bundle_size m * f + 2 ≤ s.mtu) (sym v.packet) (bundle n) in
    send_fragmented_bundled-returns j (bundle_size m) s some_bundle
      (omega (arith, whole, v.bundle_room n)) (omega (arith, v.packet, high)) v.send_room v.cut

send_job-returns :
    (m : SubFragmentMode) (j : Job) (s : Sender)
    → CanSend m j s
    → (t : Sender) × (send_job m j s ≡ some t)
unfolding type1_frame_size
send_job-returns single j s v =
    let (t, e, sent) = send_fragmented_single-Sent j s v.cut v.packet v.send_room in (t, e)
send_job-returns half j s v = bundled-returns half j s (λ e. cc e) (omega arith) v
send_job-returns quarter j s v = bundled-returns quarter j s (λ e. cc e) (omega arith) v
send_job-returns eighth j s v = bundled-returns eighth j s (λ e. cc e) (omega arith) v

-- A result and a sender.
abbrev pub Returns : Option (Result × Sender) → Type 0
Returns o = (result : Result) × (t : Sender) × (o ≡ some (result, t))

fragmented-Returns :
    (f : Frame) (s : Sender)
    → HasRoom s
    → 0 < length f.content
    → Returns (send_fragmented f (type1_frame_size s.mtu s.sub_fragment_mode - 8) s)
unfolding send_fragmented
fragmented-Returns f s v some_content =
    let (low, high, bundle) = type1_frame_bounds s.mtu s.sub_fragment_mode v.large in
    let t1 = type1_frame_size s.mtu s.sub_fragment_mode - 8 in
    let p = plan s.mtu (length f.content) t1 in
    let total = p.total_fragments in
    elim (Bool-cases (total == 0 || ltb max_fragments_per_superframe total)) [
      | inl e ↦ rw e (too_large_frame, s, refl)
      | inr e ↦
          let (t, sent) =
            send_job-returns s.sub_fragment_mode (job s f t1 p) (next_super_frame s) (record {
              large = v.large;
              send_room = v.send_room;
              bundle_room = v.bundle_room;
              cut =
                  plan-Fits s.mtu (length f.content) t1 some_content (omega (arith, low))
                    (omega (arith, v.large));
              packet = omega (arith, low);
            }) in
          (ok, t, rw e (ap finish sent))
    ]

type2_only-Returns :
    (f : Frame) (s : Sender)
    → HasRoom s
    → length f.content ≤ s.mtu - 27
    → Returns (send_type2_only f s)
unfolding send_type2_only type2_only_plan
type2_only-Returns f s v short =
    let (t, e, sent) =
      send_type2-Sent (job s f 0 (type2_only_plan (length f.content))) 0 (next_super_frame s)
        (omega arith) (omega (arith, short, v.large, v.send_room)) in
    (ok, t, ap finish e)

checked-Returns :
    (f : Frame) (s : Sender) → HasRoom s → 0 < length f.content → Returns (send_checked f s)
unfolding send_checked
checked-Returns f s v some_content =
    let guard : leb (type1_frame_size s.mtu s.sub_fragment_mode) 8 ≡ false =
      ground (arith, (type1_frame_bounds s.mtu s.sub_fragment_mode v.large).0) in
    elim (Bool-cases (leb (length f.content) (s.mtu - 27))) [
      | inl e ↦ rw (guard, e) (type2_only-Returns f s v (ground (arith, e)))
      | inr e ↦ rw (guard, e) (fragmented-Returns f s v some_content)
    ]

-- With an MTU of at least 256, a send buffer of its length, and in a bundling mode a bundle buffer
-- of its length, `send` returns a result for every frame, in every mode and whatever is retained or
-- queued for retransmission, without leaving a buffer.
pub send-Returns : (f : Frame) (s : Sender) → HasRoom s → Returns (send f s)
unfolding send
send-Returns f s v = elim (Bool-cases (length f.content == 0)) [
  | inl e ↦ rw e (invalid_parameter, s, refl)
  | inr e ↦ elim (Bool-cases (ltb max_superframe_size (length f.content))) [
    | inl g ↦ rw (e, g) (too_large_frame, s, refl)
    | inr g ↦ elim (Bool-cases (ltb 0 s.retention_ms)) [
      | inl h ↦
          rw (e, g, h) (checked-Returns f (evict_old_retention 0 s) evicted (ground (arith, e)))
      | inr h ↦ rw (e, g, h) (checked-Returns f s v (ground (arith, e)))
    ]
  ]
]
  where
    same : Same s (evict_old_retention 0 s)
    same = evict_old_retention-Same 0 s

    evicted : HasRoom (evict_old_retention 0 s)
    evicted = record {
      large = omega (arith, same.mtu, v.large);
      send_room = ap length same.send_buffer ∙ v.send_room ∙ sym same.mtu;
      bundle_room = λ n.
          ap length same.bundle_buffer
          ∙ v.bundle_room (λ e. n (same.sub_fragment_mode ∙ e))
          ∙ sym same.mtu;
    }
