-- ===== src/S3/Examples.antt =====
-- core/internal/resources/s3: a small store on which the tests run.
pub mod Browsing
pub mod Configuring
pub mod Locking
pub mod Writing
pub mod Uploading
use Prim.Native.String.{◌++◌}
use mildstack.Prelude.{ℕ, String, List, [], ◌∷◌, Option, none, some, Bool, true, Map}
use mildstack.Prelude.Numeral.{itoa}
use mildstack.S3.Domain.{
  Bytes, Bucket, Object, ObjectRetention, State, MultipartPart, MultipartUpload, new_empty_state,
  BucketVersioning, VersionRecord,
}
use mildstack.S3.Service.{Env, Service}
use mildstack.S3.VersionId.{text_length}

-- Each byte in decimals.
abbrev pub decimals : Bytes → String
decimals [] = ""
decimals (b ∷ bs) = itoa b ++ "." ++ decimals bs

abbrev pub env : Env
env = record {
  clock = λ i. 1000;
  save_ok = λ i. true;
  md5_sum = λ bytes. bytes;
  hex = decimals;
  encode_utf8 = λ s. text_length s ∷ [];
  to_upper = λ s. s;
  add_date = λ t years days. t;
  parse_time = λ s. some 7000;
  format_time = λ t. itoa t;
  unmarshal_lock = λ b. none;
  unmarshal_retention = λ b. some (record { mode = "GOVERNANCE"; retain_until_date = "soon" });
  unmarshal_legal_hold = λ b. some "OFF";
  marshal_lock = λ x. some [];
  marshal_retention = λ x. some [];
  marshal_legal_hold = λ x. some [];
}

abbrev pub photos : Bucket
photos = record { name = "photos"; region = "us-east-1"; created_at = 5 }

abbrev pub stored : String → Bytes → String → String → Object
stored key body payload_ref etag = record {
  bucket = "photos";
  key = key;
  body = [];
  payload_ref = payload_ref;
  size = 2;
  content_type = "image/png";
  etag = etag;
  last_modified = 900;
  metadata = [];
  preserved_headers = [];
}

abbrev pub old_photo : Object
old_photo = stored "old" [] "payload-10.-7.8." "\"7.8.\""

abbrev pub empty_store : Service
empty_store = record {
  state = record new_empty_state { buckets = photos ∷ [] };
  repo = some new_empty_state;
  payloads = [];
  multipart_uploads = [];
}

abbrev pub store : Service
store = record empty_store {
  state = record new_empty_state { buckets = photos ∷ []; objects = old_photo ∷ [] };
  payloads = ("payload-10.-7.8.", 7 ∷ 8 ∷ []) ∷ [];
}
