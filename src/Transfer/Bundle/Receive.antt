-- ===== src/Transfer/Bundle/Receive.antt =====
-- A Type4 bundle of Type1 packets of a frame at `Receiver::receive`.
use new_efp.Common.{
  ℕ, suc, ◌+◌, ◌-◌, ◌*◌, ◌/◌, ◌%◌, ◌<◌, ◌≡◌, refl, ap, ◌∙◌, List, ◌∷◌, ◌++◌, some, arith, length,
  All,
}
use native.Mathlib.Nat.{mul-mod_left, mul-div_cancel}
use new_efp.Common.Memory.{Bytes}
use new_efp.Wire.{ok, type4, make_frame_type_byte}
use new_efp.Wire.FirstByte.{first_byte_fields}
use new_efp.Wire.Headers.{sizeof_type4, encode_type4, decode_type4}
use new_efp.Sender.Fragments.{Job}
use new_efp.Receiver.State.{Receiver}
use new_efp.Receiver.Type4.{bundle_loop, count_bundle, handle_type4}
use new_efp.Receiver.Api.{receive, dispatch, with_timeouts}
use new_efp.Receiver.Invariant.{IsValid, IsValid-of_same}
use new_efp.Transfer.Packets.{receive-dispatch, IsSendable, num}
use new_efp.Transfer.Assembling.{Holding}
use new_efp.Transfer.Receive.{recalculate-same}
use new_efp.Transfer.Opening.{IsReady}
use new_efp.Transfer.Whole.{Came}
use new_efp.Transfer.Bundle.{joined, TookAll, length-joined, bundle_loop-TookAll, bundle_loop-Opens}

-- The bundle that the sender makes of the packets with these numbers.
pub bundle : Job → List ℕ → Bytes
bundle j ks =
    encode_type4
      (record { frame_type = make_frame_type_byte type4 j.flags; frame_count = length ks % 256 })
    ++ joined j ks

module _ (j : Job) (s : IsSendable j) (source : ℕ) where
  length-bundle :
      (ks : List ℕ)
      → All (λ m. m < num j) ks
      → length (bundle j ks) ≡ 2 + (8 + j.type1_payload_size) * length ks
  unfolding bundle encode_type4
  length-bundle ks inner = omega (arith, length-joined j s source ks inner)

  handle_type4-loop :
      (k : ℕ) (ks : List ℕ) (r : Receiver)
      → length (k ∷ ks) < 256
      → All (λ m. m < num j) (k ∷ ks)
      → handle_type4 (bundle j (k ∷ ks)) source r
        ≡ bundle_loop
            (length (k ∷ ks))
            (bundle j (k ∷ ks))
            (8 + j.type1_payload_size)
            2
            source
            (count_bundle r)
  unfolding handle_type4 bundle encode_type4 decode_type4
  handle_type4-loop k ks r few inner =
      let n = suc (length ks) in
      let byte : n % 256 ≡ n = omega (arith, few) in
      let long : length (joined j (k ∷ ks)) ≡ (8 + j.type1_payload_size) * n =
        length-joined j s source (k ∷ ks) inner in
      let even : (8 + j.type1_payload_size) * n % n ≡ 0 =
        mul-mod_left (8 + j.type1_payload_size) n in
      let part : (8 + j.type1_payload_size) * n / n ≡ 8 + j.type1_payload_size =
        mul-div_cancel (8 + j.type1_payload_size) (omega arith) in
      let behind : suc (suc ((8 + j.type1_payload_size) * n)) - sizeof_type4
          ≡ (8 + j.type1_payload_size) * n =
        omega arith in
      rw (byte, long, behind, even, part) (ground arith)

  receive-loop :
      (k : ℕ) (ks : List ℕ) (r : Receiver)
      → length (k ∷ ks) < 256
      → All (λ m. m < num j) (k ∷ ks)
      → receive (bundle j (k ∷ ks)) source r
        ≡ with_timeouts (
            bundle_loop
              (length (k ∷ ks))
              (bundle j (k ∷ ks))
              (8 + j.type1_payload_size)
              2
              source
              (count_bundle r))
  unfolding dispatch bundle encode_type4
  receive-loop k ks r few inner =
      receive-dispatch (bundle j (k ∷ ks)) source r type4 (omega arith)
        ((first_byte_fields type4 j.flags tt s.flags).0)
      ∙ ap with_timeouts (handle_type4-loop k ks r few inner)

  -- A bundle of up to 255 Type1 packets of a frame that is being assembled, whichever of them have
  -- come before, is taken in as a whole.
  pub receive-bundle :
      (k : ℕ) (ks : List ℕ) (r : Receiver)
      → length (k ∷ ks) < 256
      → All (λ m. m < num j) (k ∷ ks)
      → IsValid r
      → Holding j source r
      → (t : Receiver) × (receive (bundle j (k ∷ ks)) source r ≡ some (ok, t))
        × TookAll j source (k ∷ ks) r t
  unfolding dispatch bundle encode_type4
  receive-bundle k ks r few inner v h =
      let (t, e, all) =
        bundle_loop-TookAll j s source (k ∷ ks) (bundle j (k ∷ ks)) 2 (count_bundle r) inner refl
          (length-bundle (k ∷ ks) inner) (IsValid-of_same r (count_bundle r) refl refl refl refl v)
          (record { mode = h.mode; active = h.active; listed = h.listed; keeps = h.keeps }) in
      (
        t,
        receive-loop k ks r few inner ∙ ap with_timeouts e ∙ (rw all.holding.mode refl),
        record { valid = all.valid; holding = all.holding; all = all.all; kept = all.kept },
      )

  -- A bundle of up to 255 Type1 packets that comes as the first packet of its frame.
  pub receive-bundle_first :
      (k : ℕ) (ks : List ℕ) (r : Receiver)
      → length (k ∷ ks) < 256
      → All (λ m. m < num j) (k ∷ ks)
      → IsValid r
      → IsReady j.super_frame_no r
      → (t : Receiver) × (receive (bundle j (k ∷ ks)) source r ≡ some (ok, t))
        × Came j source (k ∷ ks) t
  unfolding bundle encode_type4
  receive-bundle_first k ks r few inner v ready =
      let (t, e, came) =
        bundle_loop-Opens j s source k ks (bundle j (k ∷ ks)) 2 (count_bundle r) inner refl
          (length-bundle (k ∷ ks) inner) (IsValid-of_same r (count_bundle r) refl refl refl refl v)
          (record {
            mode = ready.mode;
            idle = ready.idle;
            unseen =
                rw (recalculate-same j.super_frame_no r (count_bundle r) refl refl refl)
                  ready.unseen;
            honest = ready.honest;
            supplied = ready.supplied;
          }) in
      (t, receive-loop k ks r few inner ∙ ap with_timeouts e ∙ (rw came.holding.mode refl), came)
