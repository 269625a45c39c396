-- ===== src/Transfer.antt =====
-- A frame on its way from a sender to a receiver: its packets by number, and what the bucket of
-- the receiver holds while they come, in any order.
pub mod Packets
pub mod Assembling
pub mod Type1
pub mod Type3
pub mod Type2
pub mod Opening
pub mod Receive
pub mod Whole
pub mod Delivered
pub mod Shuffled
pub mod InOrder
pub mod Bundle
pub mod Datagrams
pub mod EndToEnd
