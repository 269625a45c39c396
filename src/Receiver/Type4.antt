-- ===== src/Receiver/Type4.antt =====
-- `handleType4`: a bundle of Type1 packets of one size.
use new_efp.Common.{
  ℕ, zero, suc, ◌+◌, ◌-◌, ◌/◌, ◌%◌, Bool, true, false, not, Option, none, some, ltb, ◌==◌,
  if◌then◌else◌, length, take, drop, ◌^◌,
}
use new_efp.Common.Memory.{Bytes}
use new_efp.Wire.{
  Result, ok, frame_size_mismatch, invalid_parameter, duplicate_fragment, get_frame_type,
  frame_type_code,
}
use new_efp.Wire.Headers.{decode_type4, sizeof_type1, sizeof_type4, u8_at}
use new_efp.Receiver.State.{Receiver}
use new_efp.Receiver.Type1.{handle_type1}

abbrev pub count_bundle : Receiver → Receiver
count_bundle r = record r {
  statistics = record (r.statistics) {
    bundles_received = (r.statistics.bundles_received + 1) % 2 ^ 64;
  };
}

-- A result that ends the loop over the bundle.
abbrev pub is_fatal : Result → Bool
is_fatal ok = false
is_fatal duplicate_fragment = false
is_fatal other = true

-- What follows a packet of the bundle: the end of the loop, or the rest of it.
abbrev pub after_packet :
    (Receiver → Option (Result × Receiver))
    → Option (Result × Receiver)
    → Option (Result × Receiver)
after_packet rest none = none
after_packet rest (some (result, r)) = if is_fatal result then some (result, r) else rest r

-- The loop over `count` packets of `size` bytes from `offset` on. The offset behind the last one
-- has to be the end of the bundle.
unfoldable pub bundle_loop : ℕ → Bytes → ℕ → ℕ → ℕ → Receiver → Option (Result × Receiver)
bundle_loop zero packet size offset source r =
    some (if offset == length packet then ok else frame_size_mismatch, r)
bundle_loop (suc count) packet size offset source r =
    let rest = bundle_loop count packet size (offset + size) source in
    if frame_type_code (get_frame_type (u8_at packet offset)) == 1
    then after_packet rest (handle_type1 (take size (drop offset packet)) source r)
    else some (invalid_parameter, r)

unfoldable pub handle_type4 : Bytes → ℕ → Receiver → Option (Result × Receiver)
handle_type4 packet source r =
    let count = (decode_type4 packet).frame_count in
    let payload_size = length packet - sizeof_type4 in
    if ltb (length packet) sizeof_type4
    then some (frame_size_mismatch, r)
    else if count == 0
    then some (invalid_parameter, r)
    else if not (payload_size % count == 0)
    then some (frame_size_mismatch, count_bundle r)
    else if ltb (payload_size / count) sizeof_type1
    then some (frame_size_mismatch, count_bundle r)
    else bundle_loop count packet (payload_size / count) sizeof_type4 source (count_bundle r)
