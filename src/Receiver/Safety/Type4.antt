-- ===== src/Receiver/Safety/Type4.antt =====
-- `handleType4` stays inside the frames' memory, whatever the bundle holds.
use new_efp.Common.{
  ℕ, zero, suc, ◌+◌, ◌-◌, ◌/◌, ◌≡◌, refl, Option, none, some, ◌==◌, arith, length, take, drop,
  Bool-cases, inl, inr, ◌⊎◌,
}
use new_efp.Common.Memory.{Bytes}
use new_efp.Wire.{Result, get_frame_type, frame_type_code}
use new_efp.Wire.Headers.{decode_type4, u8_at}
use new_efp.Receiver.State.{Receiver}
use new_efp.Receiver.Type4.{bundle_loop, handle_type4, count_bundle, is_fatal, after_packet}
use new_efp.Receiver.Invariant.{IsValid, IsValid-of_same, Safe, safe, Kept, Kept-Safe}
use new_efp.Receiver.Safety.Type1.{handle_type1-Safe}

after_packet-Safe :
    (rest : Receiver → Option (Result × Receiver)) (o : Option (Result × Receiver))
    → Safe o
    → ((r : Receiver) → IsValid r → Safe (rest r))
    → Safe (after_packet rest o)
after_packet-Safe rest none s next = elim s [ ]
after_packet-Safe rest (some (result, r)) (safe v) next = elim (Bool-cases (is_fatal result)) [
  | inl e ↦ rw e (safe v)
  | inr e ↦ rw e (next r v)
]

bundle_loop-Safe :
    (count : ℕ) (packet : Bytes) (size offset source : ℕ) (r : Receiver)
    → IsValid r
    → Safe (bundle_loop count packet size offset source r)
unfolding bundle_loop
bundle_loop-Safe zero packet size offset source r v = safe v
bundle_loop-Safe (suc count) packet size offset source r v =
    elim (Bool-cases (frame_type_code (get_frame_type (u8_at packet offset)) == 1)) [
      | inl e ↦
          rw (e, bundle_loop)
            (after_packet-Safe _ _ (handle_type1-Safe (take size (drop offset packet)) source r v)
              (bundle_loop-Safe count packet size (offset + size) source))
      | inr e ↦ rw (e, bundle_loop) (safe v)
    ]

handle_type4_cases :
    (packet : Bytes) (source : ℕ) (r : Receiver)
    → let count = (decode_type4 packet).frame_count in
      (handle_type4 packet source r
        ≡ bundle_loop count packet ((length packet - 2) / count) 2 source (count_bundle r))
      ⊎ Kept r (handle_type4 packet source r)
unfolding handle_type4
handle_type4_cases packet source r = ground arith

-- In a valid receiver the Type4 handler returns a result for every packet, with no copy outside the
-- memory of a frame, and the receiver is valid again.
pub handle_type4-Safe :
    (packet : Bytes) (source : ℕ) (r : Receiver) → IsValid r → Safe (handle_type4 packet source r)
handle_type4-Safe packet source r v = elim (handle_type4_cases packet source r) [
  | inl e ↦ rw e (
      bundle_loop-Safe (decode_type4 packet).frame_count packet _ 2 source _
        (IsValid-of_same r _ refl refl refl refl v))
  | inr k ↦ Kept-Safe _ k v
]
