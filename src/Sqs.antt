-- ===== src/Sqs.antt =====
-- The SQS service: core/internal/resources/sqs.
pub mod Domain
pub mod Delivery
pub mod Service
pub mod DeadLetter
pub mod Receive
pub mod Batch
pub mod Send
pub mod SendBatch
pub mod Acknowledge
pub mod Visibility
pub mod Names
pub mod Lifecycle
pub mod Worker
pub mod Listing
pub mod Tags
pub mod Permissions
pub mod Examples
