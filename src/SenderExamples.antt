-- ===== src/SenderExamples.antt =====
-- A sender that sends a frame of 600 bytes, and the theorems applied to it.
use new_efp.Common.{
  ℕ, ◌+◌, ◌-◌, ◌*◌, ◌≡◌, refl, ap, sym, ◌∙◌, false, some, arith, length, [], ◌∷◌, ◌++◌,
}
use mathlib.Core.Option.{some-injective}
use new_efp.Common.Memory.{Bytes, zeros, length-zeros}
use new_efp.Sender.State.{Sender, single, half}
use new_efp.Sender.Plan.{plan, type1_frame_size}
use new_efp.Sender.PlanBounds.{Fits, plan-Fits, bundled_no_type3}
use new_efp.Sender.Fragments.{Job}
use new_efp.Sender.Api.{Frame, job, new_sender, send, process_retransmits}
use new_efp.Sender.Retention.{retain_fragment}
use new_efp.Sender.Accounting.{
  IsAccounted, new_sender-IsAccounted, retain_fragment-IsAccounted, process_retransmits-IsAccounted,
}
use new_efp.Sender.Bundles.{send_bundle}
use new_efp.Sender.BundleRoom.{KeepsRoom}
use new_efp.Sender.BundleContent.{bundle_packet}
use new_efp.Sender.BundleRun.{send_bundle-Sends}
use new_efp.Sender.Returns.{HasRoom, new_sender-HasRoom, Returns, send-Returns}
use new_efp.Sender.SingleSend.{IsSized, new_sender-IsSized, SentFrame, send-SentFrame}

abbrev ticks : ℕ → ℕ
ticks n = 1000 * n + 1000

abbrev sender : Sender
sender = new_sender 256 single 500 10_000 ticks

abbrev frame : Frame
frame = record {
  content = zeros 600;
  payload_type = 1;
  pts = 1000;
  dts = 990;
  payload_code = 77;
  stream_id = 7;
  flags = 0;
}

sender-IsSized : IsSized sender
sender-IsSized = new_sender-IsSized 256 single 500 10_000 ticks

plan-Fits_example : Fits 256 600 248 (plan 256 600 248)
plan-Fits_example = plan-Fits 256 600 248 (omega arith) (omega arith) (omega arith)

cut-Fits : Fits 256 600 248 (plan 256 600 248)
cut-Fits = plan-Fits 256 600 248 (omega arith) (omega arith) (omega arith)

bundled_no_type3_example : (plan 1400 5000 (type1_frame_size 1400 half - 8)).needs_type3 ≡ false
bundled_no_type3_example = bundled_no_type3 1400 5000 half (omega arith) (λ e. cc e)

abbrev example_job : Job
example_job = job sender frame 248 (plan 256 600 248)

send-SentFrame_example : SentFrame frame sender (send frame sender)
unfolding zeros new_sender plan
send-SentFrame_example =
    send-SentFrame frame sender refl sender-IsSized (omega arith) (omega arith) (omega arith) refl

sender-IsAccounted : IsAccounted sender
sender-IsAccounted = new_sender-IsAccounted 256 single 500 10_000 ticks

retain_fragment-IsAccounted_example : IsAccounted (retain_fragment 5 0 7 (zeros 100) sender)
retain_fragment-IsAccounted_example =
    retain_fragment-IsAccounted 5 0 7 (zeros 100) sender sender-IsAccounted

process_retransmits-IsAccounted_example : IsAccounted (process_retransmits 3 sender).1
process_retransmits-IsAccounted_example =
    process_retransmits-IsAccounted 3 sender sender-IsAccounted

abbrev bundler : Sender
bundler = new_sender 256 half 500 10_000 ticks

bundler-HasRoom : HasRoom bundler
bundler-HasRoom = new_sender-HasRoom 256 half 500 10_000 ticks

send-Returns_example : Returns (send frame bundler)
send-Returns_example = send-Returns frame bundler bundler-HasRoom

abbrev bundled_job : Job
bundled_job = job bundler frame 119 (plan 256 600 119)

-- The packet that is sent again has the size of the new one.
again_long : (b : Bytes) → some (zeros 127) ≡ some b → length b ≡ 127
again_long b e = ap length (sym (some-injective _ _ e)) ∙ length-zeros 127

send_bundle-Sends_example :
    (t : Sender) × (send_bundle bundled_job (some (zeros 127)) 1 0 0 bundler ≡ some (119, t))
    × (t.sent ≡ bundler.sent ++ ((bundle_packet bundled_job (some (zeros 127)) 1 0 0, 7) ∷ []))
    × KeepsRoom bundler t
unfolding zeros new_sender
send_bundle-Sends_example =
    send_bundle-Sends bundled_job (some (zeros 127)) 1 0 0 bundler again_long (omega arith)
      (omega arith)
