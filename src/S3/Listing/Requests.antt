-- ===== src/S3/Listing/Requests.antt =====
-- core/internal/resources/s3/application/service_objects.go: ListObjectsV1 and ListObjectsV2.
use mildstack.Prelude.{
  ℕ, String, ◌==◌, Bool, not, ◌&&◌, ◌+◌, Option, none, some, List, if◌then◌else◌, trim, length,
}
use mildstack.Prelude.Numeral.{ℤ}
use mildstack.S3.Domain.{Object}
use mildstack.S3.Service.{Result, ok, err, Service}
use mildstack.S3.Lock.Settings.{bucket_error}
use mildstack.S3.Listing.{ListObjectsOptions, normalized_max_keys, list_object_page}

pub record ListObjectsV1Request : Type 0 where
  pub bucket : String
  pub prefix : String
  pub delimiter : String
  pub marker : String
  pub max_keys : ℤ

pub record ListObjectsV1Result : Type 0 where
  pub bucket : String
  pub prefix : String
  pub marker : String
  pub delimiter : String
  pub max_keys : ℕ
  pub is_truncated : Bool
  pub next_marker : String
  pub objects : List Object
  pub common_prefixes : List String

unfoldable pub list_objects_v1 : ListObjectsV1Request → Service → Result ListObjectsV1Result
unfolding bucket_error list_object_page normalized_max_keys
list_objects_v1 request s =
    let options : ListObjectsOptions = record {
      prefix = trim request.prefix;
      delimiter = trim request.delimiter;
      max_keys = request.max_keys;
      start_after = trim request.marker;
    } in
    let page = list_object_page (trim request.bucket) options s.state in
    elim (bucket_error request.bucket s.state) [
      | some e ↦ err e
      | none ↦ ok (record {
        bucket = trim request.bucket;
        prefix = trim request.prefix;
        marker = trim request.marker;
        delimiter = trim request.delimiter;
        max_keys = normalized_max_keys request.max_keys;
        is_truncated = page.is_truncated;
        next_marker =
            if page.is_truncated && not (trim request.delimiter == "")
            then page.next_marker
            else "";
        objects = page.objects;
        common_prefixes = page.common_prefixes;
      })
    ]

pub record ListObjectsV2Request : Type 0 where
  pub bucket : String
  pub prefix : String
  pub delimiter : String
  pub continuation_token : String
  pub start_after : String
  pub max_keys : ℤ

pub record ListObjectsV2Result : Type 0 where
  pub bucket : String
  pub prefix : String
  pub delimiter : String
  pub continuation_token : String
  pub start_after : String
  pub max_keys : ℕ
  pub key_count : ℕ
  pub is_truncated : Bool
  pub next_continuation_token : String
  pub objects : List Object
  pub common_prefixes : List String

abbrev decoded_or : String → Option String → String
decoded_or token none = token
decoded_or token (some text) = text

-- `decode` and `encode` are those of `base64.StdEncoding`; `none` is an error.
unfoldable pub list_objects_v2 :
    (String → Option String)
    → (String → String)
    → ListObjectsV2Request
    → Service
    → Result ListObjectsV2Result
unfolding bucket_error list_object_page normalized_max_keys
list_objects_v2 decode encode request s =
    let token = trim request.continuation_token in
    let options : ListObjectsOptions = record {
      prefix = trim request.prefix;
      delimiter = trim request.delimiter;
      max_keys = request.max_keys;
      start_after =
          if token == "" then trim request.start_after else decoded_or token (decode token);
    } in
    let page = list_object_page (trim request.bucket) options s.state in
    elim (bucket_error request.bucket s.state) [
      | some e ↦ err e
      | none ↦ ok (record {
        bucket = trim request.bucket;
        prefix = trim request.prefix;
        delimiter = trim request.delimiter;
        continuation_token = token;
        start_after = trim request.start_after;
        max_keys = normalized_max_keys request.max_keys;
        key_count = length page.objects + length page.common_prefixes;
        is_truncated = page.is_truncated;
        next_continuation_token =
            if page.is_truncated && not (page.next_marker == "")
            then encode page.next_marker
            else "";
        objects = page.objects;
        common_prefixes = page.common_prefixes;
      })
    ]
