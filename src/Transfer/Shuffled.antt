-- ===== src/Transfer/Shuffled.antt =====
-- All packets of a frame, in any order, and the frame that `processTimeouts` hands over.
use new_efp.Common.{ℕ, ◌≤◌, ◌≡◌, true, List, [], ◌∷◌, map, some, All, arith}
use new_efp.Common.Table.{member}
use new_efp.Sender.Fragments.{Job}
use new_efp.Receiver.State.{Receiver}
use new_efp.Receiver.Delivery.{process_timeouts}
use new_efp.Receiver.Invariant.{IsValid}
use new_efp.Transfer.Packets.{IsSendable, fragment}
use new_efp.Transfer.Assembling.{bucket_of}
use new_efp.Transfer.Opening.{IsReady}
use new_efp.Transfer.Whole.{receive_all, receive_all-Came, member-All}
use new_efp.Transfer.Delivered.{HandedOn, process_timeouts-HandedOn}

module _ (j : Job) (s : IsSendable j) (source : ℕ) where
  -- The fragments of a frame, in any order and any of them more than once, make up the frame, which
  -- the next `processTimeouts` hands over.
  pub receive_all-HandedOn :
      (ks : List ℕ) (r : Receiver)
      → IsValid r
      → IsReady j.super_frame_no r
      → All (λ k. k ≤ j.of_fragment_no) ks
      → ((k : ℕ) → k ≤ j.of_fragment_no → member k ks ≡ true)
      → (t : Receiver) × (u : Receiver) × (receive_all (map (fragment j) ks) source r ≡ some t)
        × (process_timeouts t ≡ some u)
        × HandedOn j source t u
  unfolding member
  receive_all-HandedOn [] r v ready le covers = cc (covers 0 (omega arith))
  receive_all-HandedOn (k ∷ ks) r v ready le covers =
      let (t, e, came) = receive_all-Came j s source k ks r le v ready in
      let (u, run, on) = process_timeouts-HandedOn j s source t came.valid came.holding (λ m h.
        member-All j s source (λ n. (bucket_of j t).received n ≡ true) (k ∷ ks) came.all m
          (covers m h)) in
      (t, u, e, run, on)
