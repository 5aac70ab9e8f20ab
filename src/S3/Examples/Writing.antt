-- ===== src/S3/Examples/Writing.antt =====
-- core/internal/resources/s3/application/service_objects.go: writes and what is read then.
use mildstack.S3.VersionId.{text_length}
use mildstack.Prelude.Numeral.{itoa}
use Prim.Native.String.{◌++◌}
use mildstack.Prelude.{[], ◌∷◌, none, some, refl, arith, lookup, ◌≡◌, ap, length, trim}
use mildstack.S3.Domain.{Bytes, Object}
use mildstack.S3.Service.{Reply, ok, payload_ref_for}
use mildstack.S3.Objects.{put_object_with_metadata, copy_object_with_options, get_object, or_octets}
use mildstack.S3.Objects.RoundTrip.{get_object-put_object}
use mildstack.S3.Objects.Others.{get_object-put_object_other}
use mildstack.S3.Examples.{env, store, old_photo}

abbrev put : Reply Object
put = put_object_with_metadata env " photos" "new " (some (1 ∷ 2 ∷ [])) " " [] [] store

abbrev new_photo : Object
new_photo = record {
  bucket = "photos";
  key = "new";
  body = 1 ∷ 2 ∷ [];
  payload_ref = "payload-10.-1.2.";
  size = 2;
  content_type = "application/octet-stream";
  etag = "\"1.2.\"";
  last_modified = 1000;
  metadata = [];
  preserved_headers = [];
}

put_answer : put.1 ≡ ok new_photo
unfolding put_object_with_metadata trim
put_answer = refl

put_reply : put ≡ (put.0, ok new_photo)
put_reply = ap (λ r. (put.0, r)) put_answer

get_object-put_object_example :
    (get_object " photos" "new " put.0 ≡ ok new_photo)
    × (new_photo.body ≡ 1 ∷ 2 ∷ [])
    × (new_photo.size ≡ length new_photo.body)
    × (new_photo.content_type ≡ or_octets (trim " "))
    × (new_photo.metadata ≡ [])
get_object-put_object_example =
    get_object-put_object env " photos" "new " (1 ∷ 2 ∷ []) " " [] [] store put.0 new_photo
      put_reply

abbrev hydrated_old : Object
hydrated_old = record old_photo { body = 7 ∷ 8 ∷ [] }

old_read : get_object "photos" "old" store ≡ ok hydrated_old
unfolding get_object trim
old_read = refl

no_payload :
    lookup
      (payload_ref_for env (trim " photos" ++ "/" ++ trim "new ") (env.md5_sum (1 ∷ 2 ∷ [])))
      store.payloads
    ≡ none
unfolding lookup payload_ref_for itoa text_length trim
no_payload = refl

unused :
    (old : Bytes)
    → lookup
        (payload_ref_for env (trim " photos" ++ "/" ++ trim "new ") (env.md5_sum (1 ∷ 2 ∷ [])))
        store.payloads
      ≡ some old
    → old ≡ 1 ∷ 2 ∷ []
unused old h = ground (arith, no_payload)

get_object-put_object_other_example : get_object "photos" "old" put.0 ≡ ok hydrated_old
unfolding trim
get_object-put_object_other_example =
    get_object-put_object_other env " photos" "new " (1 ∷ 2 ∷ []) " " [] [] store put.0 new_photo
      "photos" "old" hydrated_old put_reply unused refl old_read

abbrev copy : Reply Object
copy = copy_object_with_options env "photos" "copy" "photos" "old" "" [] store

abbrev copied : Object
copied = record {
  bucket = "photos";
  key = "copy";
  body = 7 ∷ 8 ∷ [];
  payload_ref = "payload-11.-7.8.";
  size = 2;
  content_type = "image/png";
  etag = "\"7.8.\"";
  last_modified = 1000;
  metadata = [];
  preserved_headers = [];
}
