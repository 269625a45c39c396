-- ===== src/Receiver.antt =====
-- The receiver of efp.h: its state, the handlers of the five frame types, NACKs, timeouts and
-- delivery, and its entry points.
pub mod State
pub mod Open
pub mod Type1
pub mod Type2
pub mod Type3
pub mod Type4
pub mod Nack
pub mod NackScan
pub mod Delivery
pub mod Api
pub mod BucketMap
pub mod Invariant
pub mod Safety
pub mod Complete
pub mod HandedOver
pub mod Threads
pub mod Queue
pub mod Unwrap
