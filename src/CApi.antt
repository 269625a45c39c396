-- ===== src/CApi.antt =====
-- efp_c_api.cpp: the C interface over `Sender` and `Receiver`.
pub mod Embedded
pub mod EmbeddedSpec
pub mod Extract
pub mod Callbacks
pub mod CallbackSpec
pub mod CallbackRun
pub mod Wrapper
pub mod Objects
pub mod Handles
pub mod HandleLife
pub mod HandleSafety
pub mod HandleUse
pub mod ReceiverUse
