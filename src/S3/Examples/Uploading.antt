-- ===== src/S3/Examples/Uploading.antt =====
-- core/internal/resources/s3/application/service_multipart.go: an upload in two parts.
use mathlib.Core.List.{Perm}
use mildstack.Prelude.{ℕ, List, [], ◌∷◌, none, some, refl, lookup, ◌≡◌, ap, trim}
use mildstack.Prelude.Sort.Sorted.{IsSorted}
use mildstack.S3.Domain.{Bytes, Object, MultipartPart, MultipartUpload}
use mildstack.S3.Service.{Service, Reply, ok}
use mildstack.S3.Objects.{get_object, object_error}
use mildstack.S3.Multipart.{complete_multipart_upload, upsert_multipart_part, assembled, part_less}
use mildstack.S3.Multipart.Assembly.{
  complete_multipart_upload_assembles, find_part-upsert_multipart_part, find_part,
}
use mildstack.S3.Examples.{env, store}

abbrev part : ℕ → Bytes → MultipartPart
part number body = record {
  part_number = number;
  body = body;
  etag = "";
  size = 2;
  created_at = 950;
}

abbrev upload : MultipartUpload
upload = record {
  upload_id = "upload-1";
  bucket = "photos";
  key = "big";
  content_type = "image/png";
  metadata = [];
  preserved_headers = [];
  parts = part 2 (3 ∷ 4 ∷ []) ∷ part 1 (1 ∷ 2 ∷ []) ∷ [];
  created_at = 940;
}

abbrev uploading : Service
uploading = record store { multipart_uploads = ("upload-1", upload) ∷ [] }

abbrev complete : Reply Object
complete = complete_multipart_upload env "upload-1" uploading

abbrev big : Object
big = record {
  bucket = "photos";
  key = "big";
  body = 1 ∷ 2 ∷ 3 ∷ 4 ∷ [];
  payload_ref = "";
  size = 4;
  content_type = "image/png";
  etag = "\"1.2.3.4.-2\"";
  last_modified = 1000;
  metadata = [];
  preserved_headers = [];
}

complete_answer : complete.1 ≡ ok big
unfolding complete_multipart_upload trim
complete_answer = refl

complete_reply : complete ≡ (complete.0, ok big)
complete_reply = ap (λ r. (complete.0, r)) complete_answer

found : lookup (trim "upload-1") uploading.multipart_uploads ≡ some upload
unfolding lookup trim
found = refl

allowed : object_error "photos" "big" uploading.state ≡ none
unfolding object_error
allowed = refl

complete_multipart_upload_assembles_example :
    ((parts : List MultipartPart) × (big.body ≡ assembled parts)
      × IsSorted part_less parts
      × Perm parts upload.parts)
    × (get_object "photos" "big" complete.0 ≡ ok big)
    × (lookup (trim "upload-1") complete.0.multipart_uploads ≡ none)
unfolding trim
complete_multipart_upload_assembles_example =
    complete_multipart_upload_assembles env "upload-1" uploading complete.0 big upload
      complete_reply found refl refl allowed

find_part-upsert_multipart_part_example :
    find_part 2 (upsert_multipart_part (part 2 (9 ∷ [])) upload.parts) ≡ some (part 2 (9 ∷ []))
find_part-upsert_multipart_part_example =
    find_part-upsert_multipart_part (part 2 (9 ∷ [])) 2 upload.parts
