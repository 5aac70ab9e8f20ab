-- ===== src/S3/Multipart.antt =====
-- core/internal/resources/s3/application/service_multipart.go: uploads in parts.
pub mod Assembly
use Prim.Native.String.{◌++◌ as ◌<>◌}
use mildstack.Prelude.{
  ◌-◌, ℕ, zero, suc, String, ◌==◌, Bool, false, not, ◌||◌, ◌+◌, ◌*◌, none, some, List, [], ◌∷◌,
  ◌++◌, Map, if◌then◌else◌, trim, length, delete, insert, lookup, ltb, eqb,
}
use mildstack.Prelude.Numeral.{ℤ, pos, negsuc, itoa}
use mildstack.Prelude.Sort.{stable_sort}
use mildstack.Prelude.Time.{Time}
use mildstack.S3.Domain.{Bytes, Object, MultipartPart, MultipartUpload}
use mildstack.S3.Service.{
  access_denied, no_such_bucket, no_parts, invalid_part_number, upload_id_required, no_such_upload,
  Env, ok, err, Service, Reply, persist, quoted_md5,
}
use mildstack.S3.Store.{has_bucket}
use mildstack.S3.Objects.{object_error, or_octets, store_object, stored_state, write_blocked}

-- 1970-01-01 as a `Time`
unfoldable unix_epoch : Time
unix_epoch = 62_135_596_800 * 1_000_000_000

-- `nextMultipartUploadID`, at a time not before 1970
unfoldable pub next_multipart_upload_id : Time → Map MultipartUpload → String
unfolding itoa unix_epoch
next_multipart_upload_id now uploads =
    "upload-" <> itoa (now - unix_epoch) <> "-" <> itoa (length uploads + 1)

unfoldable new_upload :
    String → String → String → String → Map String → Map String → Time → MultipartUpload
new_upload id bucket key content_type metadata preserved_headers now = record {
  upload_id = id;
  bucket = bucket;
  key = key;
  content_type = content_type;
  metadata = metadata;
  preserved_headers = preserved_headers;
  parts = [];
  created_at = now;
}

-- `clock 0` and `clock 1` are the readings for the identifier and for the upload.
unfoldable pub create_multipart_upload :
    Env → String → String → String → Map String → Map String → Service → Reply MultipartUpload
unfolding object_error next_multipart_upload_id new_upload insert
create_multipart_upload env bucket key content_type metadata preserved_headers s =
    let id = next_multipart_upload_id (env.clock 0) s.multipart_uploads in
    let upload =
      new_upload id (trim bucket) (trim key) (or_octets (trim content_type)) metadata
        preserved_headers (env.clock 1) in
    elim (object_error (trim bucket) (trim key) s.state) [
      | some e ↦ (s, err e)
      | none ↦ (record s { multipart_uploads = insert id upload s.multipart_uploads }, ok upload)
    ]

-- The loop of `upsertMultipartPart`: each part with the number of the new one is replaced.
unfoldable pub replace_part : MultipartPart → List MultipartPart → List MultipartPart
replace_part new [] = []
replace_part new (p ∷ ps) =
    (if eqb p.part_number new.part_number then new else p) ∷ replace_part new ps

unfoldable pub has_part : ℕ → List MultipartPart → Bool
has_part number [] = false
has_part number (p ∷ ps) = eqb p.part_number number || has_part number ps

unfoldable pub upsert_multipart_part : MultipartPart → List MultipartPart → List MultipartPart
unfolding replace_part has_part
upsert_multipart_part new parts =
    if has_part new.part_number parts
    then replace_part new parts
    else replace_part new parts ++ (new ∷ [])

unfoldable pub new_part : Env → ℕ → Bytes → MultipartPart
unfolding quoted_md5
new_part env number body = record {
  part_number = number;
  body = body;
  etag = quoted_md5 env body;
  size = length body;
  created_at = env.clock 0;
}

-- UploadPart of a number that is at least 1.
unfoldable pub upload_part_at : Env → String → ℕ → Bytes → Service → Reply MultipartPart
unfolding lookup insert upsert_multipart_part new_part
upload_part_at env upload_id number body s = elim (lookup upload_id s.multipart_uploads) [
  | none ↦ (s, err no_such_upload)
  | some upload ↦
      let part = new_part env number body in
      let grown = record upload { parts = upsert_multipart_part part upload.parts } in
      (record s { multipart_uploads = insert upload_id grown s.multipart_uploads }, ok part)
]

unfoldable pub upload_part : Env → String → ℤ → Bytes → Service → Reply MultipartPart
unfolding upload_part_at
upload_part env upload_id (negsuc n) body s =
    if trim upload_id == "" then (s, err upload_id_required) else (s, err invalid_part_number)
upload_part env upload_id (pos zero) body s =
    if trim upload_id == "" then (s, err upload_id_required) else (s, err invalid_part_number)
upload_part env upload_id (pos (suc n)) body s =
    if trim upload_id == ""
    then (s, err upload_id_required)
    else upload_part_at env (trim upload_id) (suc n) body s

abbrev pub part_less : MultipartPart → MultipartPart → Bool
part_less p q = ltb p.part_number q.part_number

unfoldable pub sorted_multipart_parts : List MultipartPart → List MultipartPart
unfolding stable_sort
sorted_multipart_parts parts = stable_sort part_less parts

-- The bytes of the parts, one part behind the other.
unfoldable pub assembled : List MultipartPart → Bytes
assembled [] = []
assembled (p ∷ ps) = p.body ++ assembled ps

unfoldable pub md5_digests : Env → List MultipartPart → Bytes
md5_digests env [] = []
md5_digests env (p ∷ ps) = env.md5_sum p.body ++ md5_digests env ps

unfoldable pub final_etag : Env → List MultipartPart → String
unfolding md5_digests itoa
final_etag env parts =
    "\"" <> env.hex (env.md5_sum (md5_digests env parts)) <> "-" <> itoa (length parts) <> "\""

unfoldable pub completed_object : Env → MultipartUpload → List MultipartPart → Object
unfolding assembled final_etag
completed_object env upload parts = record {
  bucket = upload.bucket;
  key = upload.key;
  body = assembled parts;
  payload_ref = "";
  size = length (assembled parts);
  content_type = upload.content_type;
  etag = final_etag env parts;
  last_modified = 0;
  metadata = upload.metadata;
  preserved_headers = upload.preserved_headers;
}

-- The upload goes where the save succeeded.
unfoldable pub drop_upload : String → Reply Object → Reply Object
unfolding delete
drop_upload upload_id (s, err e) = (s, err e)
drop_upload upload_id (s, ok o) =
    (record s { multipart_uploads = delete upload_id s.multipart_uploads }, ok o)

-- The end of CompleteMultipartUpload.
unfoldable pub complete_parts :
    Env → String → MultipartUpload → List MultipartPart → Service → Reply Object
unfolding completed_object stored_state store_object persist drop_upload assembled
complete_parts env upload_id upload parts s =
    let new = completed_object env upload parts in
    let bare = (store_object env (env.clock 1) new s.state).1 in
    drop_upload upload_id (
      persist env 0 (record s { state = stored_state env (λ t. t) new s.state })
        (ok (record bare { body = assembled parts })))

unfoldable pub complete_multipart_upload : Env → String → Service → Reply Object
unfolding lookup sorted_multipart_parts has_bucket write_blocked complete_parts
complete_multipart_upload env upload_id s =
    let upload_id = trim upload_id in
    if upload_id == ""
    then (s, err upload_id_required)
    else elim (lookup upload_id s.multipart_uploads) [
      | none ↦ (s, err no_such_upload)
      | some upload ↦
          let parts = sorted_multipart_parts upload.parts in
          if eqb (length parts) 0
          then (s, err no_parts)
          else if not (has_bucket upload.bucket s.state)
          then (s, err no_such_bucket)
          else if write_blocked (env.clock 0) upload.bucket upload.key s.state
          then (s, err access_denied)
          else complete_parts env upload_id upload parts s
    ]

unfoldable pub abort_multipart_upload : String → Service → Reply (Unit {0})
unfolding lookup delete
abort_multipart_upload upload_id s =
    if trim upload_id == ""
    then (s, err upload_id_required)
    else elim (lookup (trim upload_id) s.multipart_uploads) [
      | none ↦ (s, err no_such_upload)
      | some upload ↦
          (record s { multipart_uploads = delete (trim upload_id) s.multipart_uploads }, ok tt)
    ]
