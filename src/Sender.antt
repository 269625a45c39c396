-- ===== src/Sender.antt =====
-- The sender of efp.h: its state, how it cuts a frame into fragments, the retention buffer, the
-- packets that it sends, and its entry points.
pub mod State
pub mod Plan
pub mod PlanBounds
pub mod Retention
pub mod Fragments
pub mod Bundles
pub mod Api
pub mod Unchanged
pub mod Accounting
pub mod Cut
pub mod SingleSpec
pub mod Content
pub mod SingleSend
pub mod BundleRoom
pub mod BundleContent
pub mod BundleRun
pub mod Returns
