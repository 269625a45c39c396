-- ===== src/Receiver/Safety.antt =====
-- No handler copies outside the memory of a frame, and each keeps the receiver valid.
pub mod Opening
pub mod Type1
pub mod Type2
pub mod Type3
pub mod Type4
pub mod Nack
pub mod Delivery
pub mod Receive
