-- ===== src/S3/Domain.antt =====
-- core/internal/resources/s3/domain: state.go, state_versions.go, state_multipart.go: the state.
use mildstack.Prelude.{ℕ, String, List, [], Map, Bool, Option}
use mildstack.Prelude.Numeral.{ℤ}
use mildstack.Prelude.Time.{Time}

-- `[]byte`; a nil slice and an empty one answer every use in the code alike.
abbrev pub Bytes : Type 0
Bytes = List ℕ

pub record Bucket : Type 0 where
  pub name : String
  pub region : String
  pub created_at : Time

pub record Object : Type 0 where
  pub bucket : String
  pub key : String
  pub body : Bytes
  pub payload_ref : String
  pub size : ℕ
  pub content_type : String
  pub etag : String
  pub last_modified : Time
  pub metadata : Map String
  pub preserved_headers : Map String

pub record BucketReplicationDestination : Type 0 where
  pub bucket : String
  pub storage_class : String

pub record BucketReplicationRule : Type 0 where
  pub id : String
  pub status : String
  pub prefix : String
  pub destination : BucketReplicationDestination

pub record BucketReplicationConfig : Type 0 where
  pub role : String
  pub rules : List BucketReplicationRule

pub record ObjectLockRetention : Type 0 where
  pub mode : String
  pub days : ℤ
  pub years : ℤ

pub record ObjectLockConfiguration : Type 0 where
  pub enabled : Bool
  pub default_retention : Option ObjectLockRetention

pub record ObjectRetention : Type 0 where
  pub mode : String
  pub retain_until_date : Time

pub record ObjectLegalHold : Type 0 where
  pub status : String

pub record BucketVersioning : Type 0 where
  pub bucket : String
  pub status : String

pub record VersionRecord : Type 0 where
  pub bucket : String
  pub key : String
  pub version_id : String
  pub sequence : ℕ
  pub is_delete_marker : Bool
  pub body : Bytes
  pub payload_ref : String
  pub size : ℕ
  pub content_type : String
  pub etag : String
  pub last_modified : Time
  pub metadata : Map String
  pub preserved_headers : Map String

pub record MultipartPart : Type 0 where
  pub part_number : ℕ
  pub body : Bytes
  pub etag : String
  pub size : ℕ
  pub created_at : Time

pub record MultipartUpload : Type 0 where
  pub upload_id : String
  pub bucket : String
  pub key : String
  pub content_type : String
  pub metadata : Map String
  pub preserved_headers : Map String
  pub parts : List MultipartPart
  pub created_at : Time

pub record State : Type 0 where
  pub service : String
  pub buckets : List Bucket
  pub objects : List Object
  pub bucket_versioning : List BucketVersioning
  pub version_history : List VersionRecord
  pub bucket_policies : Map Bytes
  pub bucket_encryption : Map Bytes
  pub bucket_lifecycle : Map Bytes
  pub bucket_cors : Map Bytes
  pub bucket_acl : Map Bytes
  pub bucket_tagging : Map Bytes
  pub bucket_ownership : Map Bytes
  pub bucket_public_access : Map Bytes
  pub bucket_notifications : Map Bytes
  pub bucket_logging : Map Bytes
  pub bucket_replication : Map BucketReplicationConfig
  pub bucket_object_lock : Map ObjectLockConfiguration
  pub object_acls : Map (Map Bytes)
  pub object_taggings : Map (Map Bytes)
  pub object_retention : Map (Map ObjectRetention)
  pub object_legal_hold : Map (Map ObjectLegalHold)

-- `NewEmptyState`
abbrev pub new_empty_state : State
new_empty_state = record {
  service = "s3";
  buckets = [];
  objects = [];
  bucket_versioning = [];
  version_history = [];
  bucket_policies = [];
  bucket_encryption = [];
  bucket_lifecycle = [];
  bucket_cors = [];
  bucket_acl = [];
  bucket_tagging = [];
  bucket_ownership = [];
  bucket_public_access = [];
  bucket_notifications = [];
  bucket_logging = [];
  bucket_replication = [];
  bucket_object_lock = [];
  object_acls = [];
  object_taggings = [];
  object_retention = [];
  object_legal_hold = [];
}
