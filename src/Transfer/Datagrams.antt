-- ===== src/Transfer/Datagrams.antt =====
-- A frame whose packets come in datagrams: one packet alone, or a bundle of them.
use new_efp.Common.{
  ℕ, ◌≤◌, ◌<◌, ◌≡◌, refl, true, List, [], ◌∷◌, ◌++◌, map, some, All, arith, length,
}
use new_efp.Common.Table.{member}
use new_efp.Common.Memory.{Bytes}
use new_efp.Wire.{Result}
use new_efp.Sender.Fragments.{Job}
use new_efp.Receiver.State.{Receiver}
use new_efp.Receiver.Api.{receive}
use new_efp.Receiver.Invariant.{IsValid}
use new_efp.Transfer.Packets.{IsSendable, num, fragment}
use new_efp.Transfer.Assembling.{bucket_of, Holding}
use new_efp.Transfer.Opening.{IsReady}
use new_efp.Transfer.Receive.{receive-Took, receive-Opens, after-IsValid}
use new_efp.Receiver.Delivery.{process_timeouts}
use new_efp.Transfer.Delivered.{HandedOn, process_timeouts-HandedOn}
use new_efp.Transfer.Whole.{receive_all, Came, member-All}
use new_efp.Transfer.Bundle.{TookAll}
use new_efp.Transfer.Bundle.Receive.{bundle, receive-bundle, receive-bundle_first}

-- A packet by itself, or a bundle of one Type1 packet and others.
pub data Datagram : Type 0 where
  lone : ℕ → Datagram
  many : ℕ → List ℕ → Datagram

abbrev pub numbers : Datagram → List ℕ
numbers (lone k) = k ∷ []
numbers (many k ks) = k ∷ ks

abbrev pub datagram : Job → Datagram → Bytes
datagram j (lone k) = fragment j k
datagram j (many k ks) = bundle j (k ∷ ks)

-- The numbers are those of packets of the frame, and a bundle has up to 255 of the Type1 packets.
abbrev pub IsDatagram : Job → Datagram → Type 0
IsDatagram j (lone k) = k ≤ j.of_fragment_no
IsDatagram j (many k ks) = (length (k ∷ ks) < 256) × All (λ m. m < num j) (k ∷ ks)

unfoldable pub all_numbers : List Datagram → List ℕ
all_numbers [] = []
all_numbers (d ∷ ds) = numbers d ++ all_numbers ds

All-append : (P : ℕ → Type 0) (xs ys : List ℕ) → All P xs → All P ys → All P (xs ++ ys)
All-append P [] ys a b = b
All-append P (x ∷ xs) ys a b = (a.0, All-append P xs ys a.1 b)

All-map : (P Q : ℕ → Type 0) → ((k : ℕ) → P k → Q k) → (xs : List ℕ) → All P xs → All Q xs
All-map P Q f [] a = tt
All-map P Q f (x ∷ xs) a = (f x a.0, All-map P Q f xs a.1)

module _ (j : Job) (s : IsSendable j) (source : ℕ) where
  datagram-TookAll :
      (d : Datagram) (r : Receiver)
      → IsDatagram j d
      → IsValid r
      → Holding j source r
      → (t : Receiver) × (result : Result) × (receive (datagram j d) source r ≡ some (result, t))
        × TookAll j source (numbers d) r t
  datagram-TookAll (lone k) r is v h =
      let (t, result, e, took) = receive-Took j s source r v h k is in
      (
        t,
        result,
        e,
        record {
          valid = after-IsValid (fragment j k) source r t result v e;
          holding = took.holding;
          all = (took.taken, tt);
          kept = took.kept;
        },
      )
  datagram-TookAll (many k ks) r is v h =
      let (t, e, took) = receive-bundle j s source k ks r is.0 is.1 v h in (t, _, e, took)

  datagram-Came :
      (d : Datagram) (r : Receiver)
      → IsDatagram j d
      → IsValid r
      → IsReady j.super_frame_no r
      → (t : Receiver) × (result : Result) × (receive (datagram j d) source r ≡ some (result, t))
        × Came j source (numbers d) t
  datagram-Came (lone k) r is v ready =
      let (t, result, e, holding, taken) = receive-Opens j s source r v ready k is in
      (
        t,
        result,
        e,
        record {
          valid = after-IsValid (fragment j k) source r t result v e;
          holding = holding;
          all = (taken, tt);
        },
      )
  datagram-Came (many k ks) r is v ready =
      let (t, e, came) = receive-bundle_first j s source k ks r is.0 is.1 v ready in (t, _, e, came)

  rest-TookAll :
      (ds : List Datagram) (r : Receiver)
      → All (IsDatagram j) ds
      → IsValid r
      → Holding j source r
      → (t : Receiver) × (receive_all (map (datagram j) ds) source r ≡ some t)
        × TookAll j source (all_numbers ds) r t
  unfolding receive_all all_numbers
  rest-TookAll [] r is v h = (r, refl, record { valid = v; holding = h; all = tt; kept = λ m e. e })
  rest-TookAll (d ∷ ds) r is v h =
      let (t, result, e, took) = datagram-TookAll d r is.0 v h in
      let (u, f, others) = rest-TookAll ds t is.1 took.valid took.holding in
      (
        u,
        rw e f,
        record {
          valid = others.valid;
          holding = others.holding;
          all =
              All-append _ (numbers d) (all_numbers ds)
                (All-map _ _ others.kept (numbers d) took.all) others.all;
          kept = λ m x. others.kept m (took.kept m x);
        },
      )

  datagrams-Came :
      (d : Datagram) (ds : List Datagram) (r : Receiver)
      → All (IsDatagram j) (d ∷ ds)
      → IsValid r
      → IsReady j.super_frame_no r
      → (t : Receiver) × (receive_all (map (datagram j) (d ∷ ds)) source r ≡ some t)
        × Came j source (all_numbers (d ∷ ds)) t
  unfolding receive_all all_numbers
  datagrams-Came d ds r is v ready =
      let (t, result, e, came) = datagram-Came d r is.0 v ready in
      let (u, f, others) = rest-TookAll ds t is.1 came.valid came.holding in
      (
        u,
        rw e f,
        record {
          valid = others.valid;
          holding = others.holding;
          all =
              All-append _ (numbers d) (all_numbers ds)
                (All-map _ _ others.kept (numbers d) came.all) others.all;
        },
      )

  -- A frame comes out of a receiver with threads as it was cut, whether its packets come alone or
  -- the Type1 packets in bundles of up to 255, in any order and any of them more than once, where
  -- each comes at least once and no other packet comes between: the next `processTimeouts` comes to
  -- its end and hands it over, among the frames that are due. The frame is cut as `IsSendable` says:
  -- its fragments, all of full size, stay below MAX_SUPERFRAME_SIZE. The receiver is valid, and ready
  -- for the frame: its bucket is idle and was not this frame's before, and the allocator has memory.
  pub datagrams-IsFrame :
      (ds : List Datagram) (r : Receiver)
      → IsValid r
      → IsReady j.super_frame_no r
      → All (IsDatagram j) ds
      → ((k : ℕ) → k ≤ j.of_fragment_no → member k (all_numbers ds) ≡ true)
      → (t : Receiver) × (u : Receiver) × (receive_all (map (datagram j) ds) source r ≡ some t)
        × (process_timeouts t ≡ some u)
        × HandedOn j source t u
  unfolding member all_numbers
  datagrams-IsFrame [] r v ready is covers = cc (covers 0 (omega arith))
  datagrams-IsFrame (d ∷ ds) r v ready is covers =
      let (t, e, came) = datagrams-Came d ds r is v ready in
      let (u, run, on) = process_timeouts-HandedOn j s source t came.valid came.holding (λ m h.
        member-All j s source (λ n. (bucket_of j t).received n ≡ true) (all_numbers (d ∷ ds))
          came.all m (covers m h)) in
      (t, u, e, run, on)
