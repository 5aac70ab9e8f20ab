-- ===== src/S3.antt =====
-- core/internal/resources/s3: the object store.
pub mod Domain
pub mod Service
pub mod Invariant
pub mod VersionId
pub mod Store
pub mod BucketName
pub mod Buckets
pub mod Lock
pub mod Objects
pub mod Multipart
pub mod Governance
pub mod Settings
pub mod Listing
pub mod Operations
pub mod Effects
pub mod VersionRuns
pub mod Examples
