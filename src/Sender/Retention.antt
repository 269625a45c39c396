-- ===== src/Sender/Retention.antt =====
-- The retention buffer: the packets kept for retransmission.
use new_efp.Common.{
  ℕ, ◌+◌, ◌-◌, ◌*◌, List, [], ◌∷◌, ◌++◌, Option, none, some, ltb, ◌==◌, ◌||◌, if◌then◌else◌, length,
  inc64,
}
use new_efp.Common.Memory.{Bytes}
use new_efp.Common.Table.{lookup, insert, erase, remove}
use new_efp.Sender.State.{Sender, Request, after_read}

-- `(superFrameNo << 16) | fragmentNo` of two 16-bit numbers.
abbrev pub make_retention_key : ℕ → ℕ → ℕ
make_retention_key super_frame_no fragment_no = super_frame_no * 65_536 + fragment_no

-- One round of the loop of `evictOldRetention`: `none` is its `break`.
unfoldable pub evict_round : ℕ → ℕ → Request → Sender → Option Sender
evict_round now required oldest s = elim (lookup oldest.key s.retention_buffer) [
  | none ↦ some s
  | some f ↦
      if f.generation == oldest.generation
      then (if ltb (f.timestamp_us + s.retention_ms * 1000) now
            || (ltb s.retention_max_bytes required
                || ltb (s.retention_max_bytes - required) s.retention_buffer_bytes)
          then some (record s {
            retention_buffer_bytes = s.retention_buffer_bytes - length f.bytes;
            retention_buffer = erase oldest.key s.retention_buffer;
            queued_retransmits = remove oldest.generation s.queued_retransmits;
          })
          else none)
      else some s
]

-- The loop over `mRetentionOrder`, which is given apart from the rest of the state.
unfoldable pub evict_loop : ℕ → ℕ → List Request → Sender → Sender
evict_loop now required [] s = record s { retention_order = [] }
evict_loop now required (oldest ∷ rest) s = elim (evict_round now required oldest s) [
  | none ↦ record s { retention_order = oldest ∷ rest }
  | some s' ↦ evict_loop now required rest s'
]

unfoldable pub evict_old_retention : ℕ → Sender → Sender
evict_old_retention required s =
    evict_loop (s.clock 0) required s.retention_order (record s { clock = after_read s.clock })

-- The size of the entry under a key, 0 if there is none.
abbrev pub existing_size : ℕ → Sender → ℕ
existing_size key s = elim (lookup key s.retention_buffer) [ none ↦ 0 | some f ↦ length f.bytes ]

-- An entry that the new one replaces is taken out of the count.
unfoldable pub forget_existing : ℕ → Sender → Sender
forget_existing key s = elim (lookup key s.retention_buffer) [
  | none ↦ s
  | some f ↦ record s {
    retention_buffer_bytes = s.retention_buffer_bytes - length f.bytes;
    queued_retransmits = remove f.generation s.queued_retransmits;
  }
]

unfoldable pub store_fragment : ℕ → ℕ → ℕ → Bytes → Sender → Sender
store_fragment super_frame_no fragment_no stream_id packet s =
    let key = make_retention_key super_frame_no fragment_no in
    let generation = inc64 s.retention_generation in
    record s {
      retention_generation = generation;
      retention_buffer_bytes = s.retention_buffer_bytes + length packet;
      retention_buffer =
          insert key
            (record {
              timestamp_us = s.clock 0;
              super_frame_no = super_frame_no;
              fragment_no = fragment_no;
              stream_id = stream_id;
              retry_count = 0;
              generation = generation;
              bytes = packet;
            })
            s.retention_buffer;
      retention_order = s.retention_order ++ (record { key = key; generation = generation } ∷ []);
      clock = after_read s.clock;
    }

unfoldable pub retain_fragment : ℕ → ℕ → ℕ → Bytes → Sender → Sender
retain_fragment super_frame_no fragment_no stream_id packet s =
    if s.retention_ms == 0 || ltb s.retention_max_bytes (length packet)
    then s
    else let key = make_retention_key super_frame_no fragment_no in
      store_fragment super_frame_no fragment_no stream_id packet
        (forget_existing key (evict_old_retention (length packet - existing_size key s) s))
