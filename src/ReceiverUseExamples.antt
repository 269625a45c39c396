-- ===== src/ReceiverUseExamples.antt =====
-- A receiver of the legacy interface without threads, and a packet that comes for its handle.
use new_efp.Common.{ℕ, ◌+◌, ◌*◌, ◌≡◌, subst, true, [], ◌∷◌, Option, some, length}
use mathlib.Core.Option.{some-injective}
use new_efp.Common.Memory.{Bytes, zeros, length-zeros}
use new_efp.Common.Table.{lookup}
use new_efp.Wire.{Result}
use new_efp.Receiver.Invariant.{IsHonest}
use new_efp.CApi.Handles.{Handles, ReceiveArguments, no_handles, init_receive, receive_fragment}
use new_efp.CApi.ReceiverUse.{AreServing, init_receive-AreServing, receive_fragment-AreServing}

abbrev ticks : ℕ → ℕ
ticks n = 1000 * n + 1000

abbrev zeroed : ℕ → ℕ → Option Bytes
zeroed k size = some (zeros size)

zeroed-IsHonest : IsHonest zeroed
zeroed-IsHonest k size block e =
    subst (λ b. length b ≡ size) (some-injective _ _ e) (length-zeros size)

-- A callback for frames and one for embedded data.
abbrev arguments : ReceiveArguments
arguments = record {
  bucket_timeout = 100;
  hol_timeout = 0;
  callback = some 11;
  embedded_callback = some 12;
  context = 13;
  mode = 2;
}

abbrev handles : Handles
handles = (init_receive true arguments ticks zeroed no_handles).1

-- A frame of two bytes.
abbrev packet : Bytes
packet =
    2 ∷ 7 ∷ 1 ∷ 2 ∷ 0 ∷ 5 ∷ 0 ∷ 0 ∷ 0 ∷ 3 ∷ 0 ∷ 232 ∷ 3 ∷ 0 ∷ 0 ∷ 0 ∷ 0 ∷ 0 ∷ 0 ∷ 10 ∷ 0 ∷ 0 ∷ 0
    ∷ 77 ∷ 0 ∷ 0 ∷ 0 ∷ 20 ∷ 21 ∷ []

none_there : AreServing no_handles
unfolding lookup
none_there k c e = cc e

handles-AreServing : AreServing handles
handles-AreServing =
    init_receive-AreServing true arguments ticks zeroed no_handles zeroed-IsHonest none_there

receive_fragment-AreServing_example :
    (result : Result) × (h' : Handles) × (receive_fragment 1 packet 0 handles ≡ some (result, h'))
    × AreServing h'
    × (h'.senders ≡ handles.senders)
receive_fragment-AreServing_example =
    receive_fragment-AreServing 1 packet 0 handles handles-AreServing
