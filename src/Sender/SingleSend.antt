-- ===== src/Sender/SingleSend.antt =====
-- `Sender::send` in single mode.
use new_efp.Common.{
  ℕ, ◌+◌, ◌-◌, ◌≤◌, ◌<◌, ◌≡◌, sym, ap, subst, ◌∙◌, take_all, Bool, false, ◌++◌, Option, some, ltb,
  leb, ◌==◌, ◌||◌, ◌&&◌, if◌then◌else◌, arith, length, Bool-cases, inl, inr,
}
use new_efp.Common.Memory.{length-zeros}
use new_efp.Wire.{Result, ok, max_superframe_size, max_fragments_per_superframe}
use new_efp.Sender.State.{Sender, SubFragmentMode, single}
use new_efp.Sender.Plan.{plan, type1_frame_size}
use new_efp.Sender.PlanBounds.{Fits, plan-Fits}
use new_efp.Sender.Retention.{evict_old_retention}
use new_efp.Sender.Fragments.{Job, type2_only_plan}
use new_efp.Sender.Api.{
  Frame, job, next_super_frame, send, send_checked, send_type2_only, send_fragmented, finish,
  send_job, new_sender,
}
use new_efp.Sender.Unchanged.{Same, Same-refl, evict_old_retention-Same}
use new_efp.Sender.SingleSpec.{
  packets, type1_packets, on_stream, send_fragmented_single-Sent, send_type2-Sent,
}
use new_efp.Sender.Cut.{IsCut, IsJobOf, job-IsJobOf, fragmented-IsCut, type2_only-IsCut}
use new_efp.Sender.Content.{Carries, packets-Carries, one_type2}

-- What `send` relies on: the buffer is as long as the MTU, which is 256 at least.
pub record IsSized (s : Sender) : Type 0 where
  pub large : 256 ≤ s.mtu
  pub room : length s.send_buffer ≡ s.mtu

-- The constructor makes a sender whose MTU is 256 at least and whose send buffer has its length,
-- whatever MTU it is given.
pub new_sender-IsSized :
    (mtu : ℕ) (mode : SubFragmentMode) (ms max_bytes : ℕ) (clock : ℕ → ℕ)
    → IsSized (new_sender mtu mode ms max_bytes clock)
unfolding new_sender
new_sender-IsSized mtu mode ms max_bytes clock = record {
  large = ground arith;
  room = length-zeros (if ltb mtu 256 then 256 else mtu);
}

-- How many packets a frame takes in single mode: one, or the fragments of the plan.
abbrev pub packet_count : ℕ → ℕ → ℕ
packet_count mtu size = if leb size (mtu - 27) then 1 else (plan mtu size (mtu - 8)).total_fragments

-- A call of `send` that gave the packets of a frame to the callback.
pub record SentFrame (f : Frame) (s : Sender) (o : Option (Result × Sender)) : Type 0 where
  pub after : Sender
  pub j : Job
  pub of_frame : IsJobOf f s.super_frame_no j
  pub cut : IsCut s.mtu j
  pub counted : j.of_fragment_no + 1 ≡ packet_count s.mtu (length f.content)
  pub returns : o ≡ some (ok, after)
  pub carries : Carries s.mtu f.content (packets j)
  pub sent : after.sent ≡ s.sent ++ on_stream f.stream_id (packets j)
  pub sized : IsSized after

-- A frame of more fragments than the receiver can tell apart.
abbrev pub too_many : Frame → Sender → Bool
too_many f s =
    ltb (s.mtu - 27) (length f.content)
    && ltb max_fragments_per_superframe (plan s.mtu (length f.content) (s.mtu - 8)).total_fragments

fragmented-SentFrame :
    (f : Frame) (s : Sender)
    → s.sub_fragment_mode ≡ single
    → IsSized s
    → f.flags < 256
    → 0 < length f.content
    → leb (length f.content) (s.mtu - 27) ≡ false
    → (plan s.mtu (length f.content) (s.mtu - 8)).total_fragments ≤ max_fragments_per_superframe
    → SentFrame f s (send_fragmented f (s.mtu - 8) s)
unfolding send_fragmented
fragmented-SentFrame f s mode v byte some_content long few =
    let j = job s f (s.mtu - 8) (plan s.mtu (length f.content) (s.mtu - 8)) in
    let fits : Fits s.mtu (length f.content) (s.mtu - 8)
        (plan s.mtu (length f.content) (s.mtu - 8)) =
      plan-Fits s.mtu (length f.content) (s.mtu - 8) some_content (omega (arith, v.large))
        (omega (arith, v.large)) in
    let total : 8 + (s.mtu - 8) ≡ s.mtu = omega (arith, v.large) in
    let (t, e, sent) = send_fragmented_single-Sent j (next_super_frame s) fits total v.room in
    let guard : ((plan s.mtu (length f.content) (s.mtu - 8)).total_fragments == 0
          || ltb max_fragments_per_superframe
              (plan s.mtu (length f.content) (s.mtu - 8)).total_fragments)
        ≡ false =
      ground (arith, fits.counted, few) in
    record {
      after = t;
      j = j;
      of_frame = job-IsJobOf s f (s.mtu - 8) j.cut;
      cut = fragmented-IsCut s f j.cut (omega (arith, v.large)) fits few;
      counted = rw long (omega (arith, fits.counted, few));
      returns = rw guard (ap (λ m. finish (send_job m j (next_super_frame s))) mode ∙ ap finish e);
      carries = packets-Carries j byte s.mtu fits (omega (arith, total));
      sent = sent.sent;
      sized = record {
        large = omega (arith, sent.mtu, v.large);
        room = sent.room ∙ v.room ∙ sym sent.mtu;
      };
    }

type2_only-SentFrame :
    (f : Frame) (s : Sender)
    → IsSized s
    → f.flags < 256
    → 0 < length f.content
    → length f.content ≤ s.mtu - 27
    → SentFrame f s (send_type2_only f s)
unfolding send_type2_only type2_only_plan packets type1_packets
type2_only-SentFrame f s v byte some_content short =
    let j = job s f 0 (type2_only_plan (length f.content)) in
    let (t, e, sent) =
      send_type2-Sent j 0 (next_super_frame s) (omega arith)
        (omega (arith, short, v.large, v.room)) in
    let carried = one_type2 j byte s.mtu 0 (omega arith) (omega (arith, short, v.large)) in
    record {
      after = t;
      j = j;
      of_frame = job-IsJobOf s f 0 j.cut;
      cut = type2_only-IsCut s f some_content (omega (arith, short));
      counted = ground (arith, short);
      returns = ap finish e;
      carries = record {
        whole = carried.whole ∙ take_all (length f.content) f.content (omega arith);
        small = carried.small;
      };
      sent = sent.sent;
      sized = record {
        large = omega (arith, sent.mtu, v.large);
        room = sent.room ∙ v.room ∙ sym sent.mtu;
      };
    }

checked-SentFrame :
    (f : Frame) (s : Sender)
    → s.sub_fragment_mode ≡ single
    → IsSized s
    → f.flags < 256
    → 0 < length f.content
    → too_many f s ≡ false
    → SentFrame f s (send_checked f s)
unfolding send_checked type1_frame_size
checked-SentFrame f s mode v byte some_content few =
    elim (Bool-cases (leb (length f.content) (s.mtu - 27))) [
      | inl e ↦ rw (guard, e) (type2_only-SentFrame f s v byte some_content (ground (arith, e)))
      | inr e ↦
          rw (guard, e)
            (subst (λ size. SentFrame f s (send_fragmented f (size - 8) s))
              (sym (ap (type1_frame_size s.mtu) mode))
              (fragmented-SentFrame f s mode v byte some_content e (ground (arith, e, few))))
    ]
  where
    guard : leb (type1_frame_size s.mtu s.sub_fragment_mode) 8 ≡ false
    guard = ap (λ m. leb (type1_frame_size s.mtu m) 8) mode ∙ ground (arith, v.large)

-- After an eviction, a sender does the same.
SentFrame-of_Same :
    (f : Frame) (s t : Sender) (o : Option (Result × Sender))
    → Same s t
    → SentFrame f t o
    → SentFrame f s o
SentFrame-of_Same f s t o same w = record {
  after = w.after;
  j = w.j;
  of_frame = rw (sym same.super_frame_no) w.of_frame;
  cut = rw (sym same.mtu) w.cut;
  counted = rw (sym same.mtu) w.counted;
  returns = w.returns;
  carries = rw (sym same.mtu) w.carries;
  sent = w.sent ∙ ap (λ l. l ++ on_stream f.stream_id (packets w.j)) same.sent;
  sized = w.sized;
}

-- In single mode, a nonempty frame of at most MAX_SUPERFRAME_SIZE bytes that does not need more
-- than MAX_FRAGMENTS_PER_SUPERFRAME fragments, with flags that are a byte, is sent by a sender of
-- an MTU of at least 256 and a buffer of that length: `send` returns OK, it has given the callback
-- packets of at most an MTU whose payloads, one behind the other, are the bytes of the frame, and
-- MTU and buffer are still of one length.
pub send-SentFrame :
    (f : Frame) (s : Sender)
    → s.sub_fragment_mode ≡ single
    → IsSized s
    → f.flags < 256
    → 0 < length f.content
    → length f.content ≤ max_superframe_size
    → too_many f s ≡ false
    → SentFrame f s (send f s)
unfolding send
send-SentFrame f s mode v byte some_content small few =
    rw (nonempty, bounded)
      (elim (Bool-cases (ltb 0 s.retention_ms)) [
        | inl e ↦ rw e (behind (evict_old_retention 0 s) (evict_old_retention-Same 0 s))
        | inr e ↦ rw e (behind s (Same-refl s))
      ])
  where
    nonempty : (length f.content == 0) ≡ false
    nonempty = ground (arith, some_content)

    bounded : ltb max_superframe_size (length f.content) ≡ false
    bounded = ground (arith, small)

    behind : (t : Sender) → Same s t → SentFrame f s (send_checked f t)
    behind t same = SentFrame-of_Same f s t (send_checked f t) same (
        checked-SentFrame f t (same.sub_fragment_mode ∙ mode)
          (record {
            large = omega (arith, same.mtu, v.large);
            room = ap length same.send_buffer ∙ v.room ∙ sym same.mtu;
          })
          byte some_content
          (subst
            (λ n.
              (ltb (n - 27) (length f.content)
                && ltb max_fragments_per_superframe
                    (plan n (length f.content) (n - 8)).total_fragments)
              ≡ false)
            (sym same.mtu) few))
