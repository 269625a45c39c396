-- ===== src/Sender/State.antt =====
-- The state of the class `Sender`.
use new_efp.Common.{ℕ, suc, List, [], ◌∷◌, ◌++◌, inc64}
use new_efp.Common.Memory.{Bytes}

pub data SubFragmentMode : Type 0 where
  single half quarter eighth : SubFragmentMode

-- The enum's number: how many fragments a bundle holds.
abbrev pub bundle_size : SubFragmentMode → ℕ
bundle_size single = 1
bundle_size half = 2
bundle_size quarter = 4
bundle_size eighth = 8

pub record RetainedFragment : Type 0 where
  pub timestamp_us : ℕ
  pub super_frame_no : ℕ
  pub fragment_no : ℕ
  pub stream_id : ℕ
  pub retry_count : ℕ
  pub generation : ℕ
  pub bytes : Bytes

-- The entries of `mRetentionOrder` and of `mRetransmitQueue`.
pub record Request : Type 0 where
  pub key : ℕ
  pub generation : ℕ

pub record SenderStatistics : Type 0 where
  pub fragments_sent : ℕ
  pub bundles_sent : ℕ
  pub nacks_received : ℕ
  pub retransmitted_fragments : ℕ

-- `clock` is what the coming reads of the steady clock give, in microseconds. `sent` is what the
-- send callback was called with, oldest first: a packet and a stream.
pub record Sender : Type 0 where
  pub mtu : ℕ
  pub super_frame_no : ℕ
  pub sub_fragment_mode : SubFragmentMode
  pub retention_ms : ℕ
  pub retention_max_bytes : ℕ
  pub retention_buffer_bytes : ℕ
  pub send_buffer : Bytes
  pub bundle_buffer : Bytes
  pub retention_buffer : List (ℕ × RetainedFragment)
  pub retention_order : List Request
  pub retransmit_queue : List Request
  pub queued_retransmits : List ℕ
  pub retention_generation : ℕ
  pub statistics : SenderStatistics
  pub clock : ℕ → ℕ
  pub sent : List (Bytes × ℕ)

-- The clock after one read, which gives `clock 0`.
abbrev pub after_read : (ℕ → ℕ) → ℕ → ℕ
after_read clock n = clock (suc n)

-- What the callback is given joins the record of calls.
abbrev pub call_back : Sender → Bytes → ℕ → Sender
call_back s packet stream = record s { sent = s.sent ++ ((packet, stream) ∷ []) }

unfoldable pub count_fragment : Sender → Sender
count_fragment s = record s {
  statistics = record (s.statistics) { fragments_sent = inc64 s.statistics.fragments_sent };
}

unfoldable pub invoke_callback : Sender → Bytes → ℕ → Sender
unfolding count_fragment
invoke_callback s packet stream = count_fragment (call_back s packet stream)

unfoldable pub invoke_bundle_callback : Sender → Bytes → ℕ → Sender
invoke_bundle_callback s packet stream =
    let s' = call_back s packet stream in
    record s' {
      statistics = record (s'.statistics) { bundles_sent = inc64 s'.statistics.bundles_sent };
    }
