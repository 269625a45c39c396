-- ===== src/Receiver/Open.antt =====
-- The part of the handlers that opens a bucket for the first fragment of a frame: the bucket's
-- fields, its entry in the map, and the allocation. `none` is a copy outside the allocated block.
use new_efp.Common.{
  ℕ, ◌+◌, ◌*◌, ◌%◌, ◌^◌, true, false, Option, none, some, ◌==◌, if◌then◌else◌, ◌>>=◌, [],
}
use new_efp.Common.Int.{ℤ}
use new_efp.Common.Memory.{Bytes, write_at}
use new_efp.Wire.{Result, ok, memory_allocation_error}
use new_efp.Receiver.State.{
  Receiver, Bucket, later, map_insert, map_erase, set_bucket, count_received,
}

-- What the three handlers write into a new bucket, each in its own way. `first` is the number of
-- the fragment that has come, `total` the size to allocate, `offset` where the payload goes.
pub record Opening : Type 0 where
  pub source_id : ℕ
  pub flags : ℕ
  pub stream_id : ℕ
  pub super_frame_no : ℕ
  pub first : ℕ
  pub of_fragment_no : ℕ
  pub fragment_size : ℕ
  pub type3_size : ℕ
  pub type2_size : ℕ
  pub pts : ℕ
  pub dts : ℕ
  pub payload_type : ℕ
  pub payload_code : ℕ
  pub total : ℕ
  pub offset : ℕ

abbrev pub opened : Opening → ℕ → ℤ → Receiver → Bucket
opened o now order r = record {
  active = true;
  payload_type = o.payload_type;
  payload_code = o.payload_code;
  saved_frame_no = o.super_frame_no;
  timeout_us = now + r.timeout_ms * 1000 % 2 ^ 32;
  fragment_count = 1;
  of_fragment_no = o.of_fragment_no;
  delivery_order = order;
  fragment_size = o.fragment_size;
  type3_size = o.type3_size;
  type2_size = o.type2_size;
  pts = o.pts;
  dts = o.dts;
  stream_id = o.stream_id;
  source_id = o.source_id;
  flags = o.flags;
  first_arrival_us = now;
  last_nack_us = 0;
  nack_count = 0;
  received = λ k. k == o.first;
  frame = none;
}

-- `SuperFrame(size)`: no call of the allocator for size 0, and no data then.
unfoldable pub allocate : ℕ → Receiver → Option Bytes × Receiver
allocate size r =
    if size == 0
    then (none, r)
    else (r.allocations 0 size, record r { allocations = later r.allocations })

-- The bucket gets its frame. Without memory the bucket is given up again, with the frame that has
-- no data left in it.
abbrev pub place :
    Opening → ℕ → Bucket → Bytes → Option Bytes × Receiver → Option (Result × Receiver)
place o i b payload (none, r) = some (
  memory_allocation_error,
  set_bucket (record r { bucket_map = map_erase b.delivery_order r.bucket_map }) i
      (record b { active = false; frame = some (record { memory = []; size = 0 }) }),
)
place o i b payload (some block, r) = do
  memory ← write_at block o.offset payload
  some (ok, set_bucket r i (record b { frame = some (record { memory = memory; size = o.total }) }))

unfoldable pub open_bucket : Opening → ℕ → ℕ → ℤ → Bytes → Receiver → Option (Result × Receiver)
open_bucket o i now order payload r =
    place o i (opened o now order r) payload (
      allocate o.total (count_received (record r { bucket_map = map_insert order i r.bucket_map })))
