-- ===== src/Statistics.antt =====
-- `getStatistics` of `Sender` and of `Receiver`, and the version of the protocol. The rates per
-- second, which are double, are left out: no code writes them.
use new_efp.Common.{ℕ, ◌+◌, ◌*◌, ◌%◌, ◌^◌, length}
use new_efp.Sender.State.{Sender, SenderStatistics}
use new_efp.Receiver.State.{Receiver, ReceiverStatistics}

-- VERSION_MAJOR and VERSION_MINOR.
abbrev pub version : ℕ
version = 1 * 256 + 1

-- The counters, and what the retention buffer and the retransmit queue hold now.
pub record SenderReport : Type 0 where
  pub counters : SenderStatistics
  pub retention_buffer_fragments : ℕ
  pub retention_buffer_bytes : ℕ
  pub retransmit_queue_size : ℕ

unfoldable pub sender_statistics : Sender → SenderReport
sender_statistics s = record {
  counters = s.statistics;
  retention_buffer_fragments = length s.retention_buffer % 2 ^ 32;
  retention_buffer_bytes = s.retention_buffer_bytes;
  retransmit_queue_size = length s.queued_retransmits % 2 ^ 32;
}

-- The counters, and the buckets in use now.
pub record ReceiverReport : Type 0 where
  pub counters : ReceiverStatistics
  pub pending_buckets : ℕ

unfoldable pub receiver_statistics : Receiver → ReceiverReport
receiver_statistics r = record {
  counters = r.statistics;
  pending_buckets = length r.bucket_map % 2 ^ 32;
}
