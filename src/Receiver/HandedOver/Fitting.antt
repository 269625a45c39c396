-- ===== src/Receiver/HandedOver/Fitting.antt =====
-- What `receive` and `poll` hand over: frames that lie in their memory.
use new_efp.Common.{
  ℕ, zero, suc, ◌+◌, ◌-◌, ◌/◌, ◌≤◌, ◌≡◌, refl, ap, sym, subst, ◌∙◌, List, [], ◌∷◌, ◌++◌, Option,
  none, some, All, ◌==◌, arith, length, drop, take, Bool-cases, inl, inr,
}
use mathlib.Core.Option.{some-injective}
use mathlib.Core.List.{append_assoc, append-nil}
use new_efp.Common.Memory.{Bytes}
use new_efp.Wire.{Result, get_frame_type, frame_type_code}
use new_efp.Wire.Headers.{u8_at, decode_type4}
use new_efp.Receiver.State.{Receiver, SuperFrame}
use new_efp.Receiver.Type4.{is_fatal, after_packet, bundle_loop, count_bundle, handle_type4}
use new_efp.Receiver.Delivery.{deliver_frame, deliver_all}
use new_efp.Receiver.Invariant.{IsValid}
use new_efp.Receiver.Complete.{deliver_frame-delivered}
use new_efp.Receiver.Safety.Delivery.{Queued, Lined, Queued-Lined, Queued-set, deliver_frame-eq}
use new_efp.Receiver.HandedOver.{IsQuiet, IsQuiet-of_same, handle_type1-IsQuiet}

after_packet-IsQuiet :
    (rest : Receiver → Option (Result × Receiver)) (r : Receiver) (o : Option (Result × Receiver))
    → IsQuiet r o
    → ((t : Receiver) → IsQuiet t (rest t))
    → IsQuiet r (after_packet rest o)
after_packet-IsQuiet rest r none q next = tt
after_packet-IsQuiet rest r (some (result, t)) q next = elim (Bool-cases (is_fatal result)) [
  | inl e ↦ rw e q
  | inr e ↦ rw e (IsQuiet-of_same r t (rest t) q (next t))
]

bundle_loop-IsQuiet :
    (count : ℕ) (packet : Bytes) (size offset source : ℕ) (r : Receiver)
    → IsQuiet r (bundle_loop count packet size offset source r)
unfolding bundle_loop
bundle_loop-IsQuiet zero packet size offset source r = refl
bundle_loop-IsQuiet (suc count) packet size offset source r =
    elim (Bool-cases (frame_type_code (get_frame_type (u8_at packet offset)) == 1)) [
      | inl e ↦
          rw (e, bundle_loop)
            (after_packet-IsQuiet _ r _
              (handle_type1-IsQuiet (take size (drop offset packet)) source r)
              (bundle_loop-IsQuiet count packet size (offset + size) source))
      | inr e ↦ rw (e, bundle_loop) refl
    ]

pub handle_type4-IsQuiet :
    (packet : Bytes) (source : ℕ) (r : Receiver) → IsQuiet r (handle_type4 packet source r)
unfolding handle_type4
handle_type4-IsQuiet packet source r = ground (
  arith,
  IsQuiet-of_same r (count_bundle r) _ refl (
      bundle_loop-IsQuiet (decode_type4 packet).frame_count packet
        ((length packet - 2) / (decode_type4 packet).frame_count) 2 source (count_bundle r)),
)

-- A frame lies in the memory that comes with it.
abbrev pub FrameFits : SuperFrame → Type 0
FrameFits f = f.assembly.size ≤ length f.assembly.memory

-- Later frames follow those handed over before, and lie in their memory.
pub record HandsOver (r t : Receiver) : Type 0 where
  pub frames : List SuperFrame
  pub added : t.delivered ≡ r.delivered ++ frames
  pub fit : All FrameFits frames

-- A run that ended, in a valid receiver that handed over such frames.
abbrev pub Serves : Receiver → Option Receiver → Type 0
Serves r none = ⊥
Serves r (some t) = IsValid t × HandsOver r t

pub deliver_all-Serves :
    (is : List ℕ) (r : Receiver) → IsValid r → Lined r.buckets is → Serves r (deliver_all is r)
unfolding deliver_all
deliver_all-Serves [] r v q =
    (v, record { frames = []; added = sym (append-nil r.delivered); fit = tt })
deliver_all-Serves (i ∷ is) r v q =
    let (t, e, valid, others) = deliver_frame-eq i r v q.0 in
    let behind : Queued t.buckets (r.buckets i).delivery_order is =
      rw others (Queued-set r.buckets i _ _ is (omega arith) q.1) in
    rw e (
      more t e (deliver_all is t)
        (deliver_all-Serves is t valid (Queued-Lined t.buckets _ is behind)))
  where
    more :
        (t : Receiver)
        → deliver_frame i r ≡ some t
        → (o : Option Receiver) → Serves t o
        → Serves r o
    more t e none s = absurd s
    more t e (some u) (w, h) =
        let (f, t', e', adds, has, broken) = deliver_frame-delivered i r v q.0 in
        let (a, has', held) = v.buckets i q.0 in
        let same : t' ≡ t = some-injective _ _ (sym e' ∙ e) in
        let first : t.delivered ≡ r.delivered ++ (f ∷ []) =
          subst (λ x. x.delivered ≡ r.delivered ++ (f ∷ [])) same adds in
        (
          w,
          record {
            frames = f ∷ h.frames;
            added =
                h.added
                ∙ ap (λ l. l ++ h.frames) first
                ∙ append_assoc r.delivered (f ∷ []) h.frames;
            fit = (
              subst (λ x. x.size ≤ length x.memory) (some-injective _ _ (sym has' ∙ has))
                  held.size_fits,
              h.fit,
            );
          },
        )
