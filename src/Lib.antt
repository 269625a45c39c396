-- ===== src/Lib.antt =====
-- new-efp: the Elastic Frame Protocol. A sender cuts frames into packets, a receiver puts them
-- together again, asks for missing packets by NACKs, and hands the frames over.
--
-- Wire models efp_internal.h, and from efp.h the result codes and limits: the frame types, flags
-- and first byte in Wire, the packed structs and their bytes in Wire/Headers, and what reading
-- back gives in Wire/RoundTrip, Wire/ReadBack and Wire/FirstByte. The structs are copied to and
-- from memory as they are; the model takes the platform as little-endian.
--
-- Sender models the class Sender of efp.h. Sender/State is its fields. Sender/Plan is the choice
-- of the fragments in send and sendFragmented, Sender/Retention the retention buffer
-- (retainFragment, evictOldRetention), Sender/Fragments the packets sent one by one
-- (sendType2Only, sendFragmentedSingle), Sender/Bundles the bundles and the retransmits in them
-- (sendFragmentedBundled, getRetransmitFragment), and Sender/Api the constructor, send,
-- receiveNack and processRetransmits. Proofs: Sender/PlanBounds on the plan, Sender/Unchanged on
-- what retaining a packet leaves alone, Sender/Cut on the job that a frame becomes,
-- Sender/SingleSpec with the specified packets of a frame and the run that sends them,
-- Sender/Content on the bytes they carry, Sender/SingleSend on send in single mode,
-- Sender/BundleContent on what a bundle holds, Sender/BundleRoom and Sender/BundleRun on the run
-- that sends bundles, Sender/Returns on send in every mode, and Sender/Accounting on the count of
-- the retained bytes.
--
-- Receiver models the class Receiver of efp.h. Receiver/State is its fields, the jitter average
-- and recalculateSuperFrameNo. Receiver/Open is what the handlers share when a frame begins, and
-- Receiver/Type1 to Receiver/Type4 are handleType1 to handleType4. Receiver/Nack is buildNack,
-- calculateNackDelayUs and processNacks, Receiver/Delivery is deliverFrame and processTimeouts,
-- and Receiver/Api is the constructor, receive, poll, workerLoop and pendingCount. Proofs:
-- Receiver/BucketMap on the map of buckets, Receiver/Invariant with what holds between two
-- packets, Receiver/Safety on each handler and on receive as a whole, Receiver/NackScan on the
-- fragments that a NACK asks for, Receiver/Complete on the frame that is handed over,
-- Receiver/HandedOver on what each call hands over, Receiver/Unwrap on the orders of the frames.
-- Receiver/Threads is the delivery queue between deliverFrame, deliveryLoop and stop, as steps of
-- the threads, with Receiver/Queue on its order.
--
-- CApi models efp_c_api.cpp. CApi/Embedded is the helpers for embedded data
-- (efp_add_embedded_data, efp_extract_embedded_data), CApi/Callbacks the callable wrappers, with
-- the loop over the embedded data of a frame, CApi/Objects efp_sender_s and efp_receiver_s and
-- the calls that take a pointer to one, CApi/Handles the legacy interface with its tables of
-- handles. Proofs: CApi/EmbeddedSpec and CApi/Extract on the two helpers, CApi/CallbackSpec,
-- CApi/CallbackRun and CApi/Wrapper on the wrapper of the receive callback, CApi/HandleLife and
-- CApi/HandleSafety on runs of calls of the legacy interface, CApi/HandleUse on what a client
-- gets from a handle, CApi/ReceiverUse on the receivers behind handles.
--
-- Bandwidth models the class BandwidthManager of bandwidth_manager.h. Bandwidth/Float is the
-- interface of the float arithmetic that it computes in, Bandwidth/State its fields,
-- Bandwidth/Streams the multipliers and drops of a stream (getTargetMultiplier,
-- updateStreamMultiplier and the rounds of the loops over the streams), Bandwidth/Health
-- evaluateHealth, handleHealthChange, processProbing, tryBandwidthIncrease and update,
-- Bandwidth/Queries the operations that only look, and Bandwidth/Api the other ones. Wire/Rtt is
-- the RTT probe and response. Proofs: Bandwidth/Bounds, Bandwidth/Kept and Bandwidth/Runs on the
-- ranges of the multipliers, Bandwidth/Drops and Bandwidth/TakenUp on the dropped streams,
-- Bandwidth/Reduction on worse and better health, Bandwidth/RttTrip on the RTT.
--
-- Transfer is about a frame on its way from Sender::send to Receiver::receive. Transfer/Packets
-- has the packets of a frame by number and how receive reads them, Transfer/Assembling what a
-- bucket holds while they come, Transfer/Opening the packet that comes first, Transfer/Type1,
-- Transfer/Type2 and Transfer/Type3 the later ones, Transfer/Receive both at receive,
-- Transfer/Whole all of them and the frame they make, Transfer/Delivered and Transfer/Shuffled
-- the processTimeouts that hands it over, Transfer/InOrder the packets in the order of the
-- sender, Transfer/Bundle the packets in a Type4 bundle, Transfer/Datagrams bundles and single
-- packets mixed, and Transfer/EndToEnd the whole way.
--
-- Sender and receiver meet in the packets: lists of bytes, which the sender gives to its callback
-- with a stream and the receiver takes with a source, and in the NACKs that go back:
-- NackExchange, with what a NACK holds in NackExchange/Entries and what it queues in
-- NackExchange/Requests. Statistics is getStatistics of both classes. Common holds lists,
-- integers, bytes and tables over the native numbers. The bandwidth manager has a sender, and the
-- C API senders and receivers. Examples, WireExamples, NackExamples, SenderExamples,
-- TransferExamples, CApiExamples, ReceiverUseExamples and BandwidthExamples are runs on concrete
-- inputs.
--
-- How the code is read. An operation takes the object's fields as a record and returns the new
-- ones; a call of a callback is added to a list in the record. Numbers are natural numbers, and
-- where the code computes in a fixed width the wrap-around is written out, except for the times
-- and orders in 64-bit integers and the sums of sizes, which stay far below 2^63. The steady
-- clock gives microseconds that are not negative. It and the allocator are streams in the record,
-- of which each call takes the next element. A copy is inside its block or has no value: the
-- result none is a run that the language leaves undefined, such as the shift of
-- calculateNackDelayUs by 64 or more and the difference in processRttResponse beyond 63 bits; in
-- Receiver/Delivery it is also a frame that is not there; only new_receiver has none for the
-- exception that the constructor throws. The size of a bucket array is a parameter, with a bucket
-- for every number. The std::map of the buckets is a list by ascending key, the unordered
-- containers and the maps of handles are association lists, and std::sort is a sort by insertion.
-- Loops recurse on the numbers or lists they run over. The loop over the bundles of a frame
-- recurses on the number of its Type1 fragments, of which each bundle takes one at least.
--
-- The float arithmetic of bandwidth_manager.h is a parameter: a record of the operations and
-- literals that the code uses. Theorems about multipliers assume of it that no number is below
-- itself, that equal numbers stand alike to every other and that 1 is not below 0, as IEEE 754
-- has it, also for NaN. In the C API a pointer that may be null is an option, a C function is a
-- number, and an object lives in the table of its handle or with the caller. The loop over
-- embedded data has the size of the frame as fuel, of which each round passes three bytes at
-- least.
--
-- Not modelled: joining and sleeping of the threads, and callbacks that call back into the
-- library; the locks, which make the operations follow one another; the freeing of memory; the
-- rates per second of the statistics, which no code writes; the overloads for vectors and the
-- factory functions, which pass their arguments on; efp_media_types.h, which has constants only;
-- the examples and tests.
pub mod Bandwidth
pub mod CApi
pub mod Common
pub mod Wire
pub mod Sender
pub mod Receiver
pub mod Transfer
pub mod Statistics
pub mod Examples
pub mod NackExchange
pub mod WireExamples
pub mod NackExamples
pub mod SenderExamples
pub mod TransferExamples
pub mod CApiExamples
pub mod ReceiverUseExamples
pub mod BandwidthExamples
