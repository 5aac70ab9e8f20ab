-- ===== src/S3/Multipart/Assembly.antt =====
-- core/internal/resources/s3/application/service_multipart.go: what completing an upload makes of its
-- parts.
use mathlib.Core.List.{Perm}
use mildstack.Prelude.{
  eq_iff, ℕ, String, true, false, ◌&&◌, Option, none, some, List, [], ◌∷◌, ◌++◌, if◌then◌else◌, ◌≡◌,
  refl, arith, Bool-cases, inl, inr, ◌∙◌, ap, trim, lookup, eqb, sym, delete, lookup-delete,
  eq_refl, eqb→eq,
}
use mildstack.Prelude.Sort.{stable_sort-perm}
use mildstack.Prelude.Sort.Sorted.{IsSorted, stable_sort-IsSorted}
use mildstack.S3.Domain.{Object, State, MultipartUpload, MultipartPart}
use mildstack.S3.Service.{Env, Service, Reply, ok, err, persist, hydrate_object}
use mildstack.S3.Store.{upsert_object, has_bucket, find_object, with_defaults}
use mildstack.S3.Effects.{Untouched, store_object-objects, stored_state-Untouched}
use mildstack.S3.Objects.{get_object_at, object_error, get_object, store_object, stored_state}
use mildstack.S3.Objects.RoundTrip.{ok-injective, persist-ok, find_object-stored_state}
use mildstack.S3.Multipart.{
  part_less, sorted_multipart_parts, assembled, complete_multipart_upload, complete_parts,
  completed_object, drop_upload, replace_part, has_part, upsert_multipart_part,
}

unfoldable pub find_part : ℕ → List MultipartPart → Option MultipartPart
find_part number [] = none
find_part number (p ∷ ps) =
    let later = find_part number ps in if eqb p.part_number number then some p else later

-- Sorting by part number puts no part behind one with a higher number, and keeps each part.
pub sorted_multipart_parts-IsSorted :
    (parts : List MultipartPart)
    → IsSorted part_less (sorted_multipart_parts parts) × Perm (sorted_multipart_parts parts) parts
unfolding sorted_multipart_parts
sorted_multipart_parts-IsSorted parts = (
  stable_sort-IsSorted part_less (λ p q h. ground arith) (λ p q r h k. ground arith) parts,
  stable_sort-perm part_less parts,
)

find_part-replace_part :
    (new : MultipartPart) (number : ℕ) (parts : List MultipartPart)
    → find_part number (replace_part new parts) ≡ (
        if eqb new.part_number number && has_part number parts
        then some new
        else find_part number parts)
unfolding find_part replace_part has_part
find_part-replace_part new number [] = ground arith
find_part-replace_part new number (p ∷ ps) = ground (arith, find_part-replace_part new number ps)

find_part-append :
    (new : MultipartPart) (number : ℕ) (parts : List MultipartPart)
    → has_part new.part_number parts ≡ false
    → find_part number (replace_part new parts ++ (new ∷ []))
      ≡ (if eqb new.part_number number then some new else find_part number parts)
unfolding find_part replace_part has_part
find_part-append new number [] h = ground arith
find_part-append new number (p ∷ ps) h = ground (arith, find_part-append new number ps)

has_part-eqb :
    (number other : ℕ) (parts : List MultipartPart)
    → has_part other parts ≡ true
    → eqb other number ≡ true
    → has_part number parts ≡ true
has_part-eqb number other parts h e = ground (arith, eqb→eq other number e, h)

find_part-present :
    (new : MultipartPart) (number : ℕ) (parts : List MultipartPart)
    → has_part new.part_number parts ≡ true
    → find_part number (replace_part new parts)
      ≡ (if eqb new.part_number number then some new else find_part number parts)
find_part-present new number parts h = elim (Bool-cases (eqb new.part_number number)) [
  | inl e ↦ ground (
    arith,
    find_part-replace_part new number parts,
    has_part-eqb number new.part_number parts h e,
  )
  | inr e ↦ ground (arith, find_part-replace_part new number parts)
]

-- A part that is uploaded is the part of its number, be it new or not, and the part of every other
-- number is what it was.
pub find_part-upsert_multipart_part :
    (new : MultipartPart) (number : ℕ) (parts : List MultipartPart)
    → find_part number (upsert_multipart_part new parts)
      ≡ (if eqb new.part_number number then some new else find_part number parts)
unfolding upsert_multipart_part
find_part-upsert_multipart_part new number parts =
    elim (Bool-cases (has_part new.part_number parts)) [
      | inl e ↦ rw (e, upsert_multipart_part) (find_part-present new number parts e)
      | inr e ↦ rw (e, upsert_multipart_part) (find_part-append new number parts e)
    ]

drop_upload-ok :
    (upload_id : String) (reply : Reply Object) (after : Service) (o : Object)
    → drop_upload upload_id reply ≡ (after, ok o)
    → (mid : Service) × (reply ≡ (mid, ok o))
      × (after.state ≡ mid.state)
      × (after.payloads ≡ mid.payloads)
      × (after.multipart_uploads ≡ delete upload_id mid.multipart_uploads)
unfolding drop_upload
drop_upload-ok upload_id (s, err e) after o h = ground arith
drop_upload-ok upload_id (s, ok p) after o h =
    (s, ground arith, ground arith, ground arith, ground arith)

complete_multipart_upload-cases :
    (env : Env) (upload_id : String) (s after : Service) (o : Object) (upload : MultipartUpload)
    → complete_multipart_upload env upload_id s ≡ (after, ok o)
    → lookup (trim upload_id) s.multipart_uploads ≡ some upload
    → complete_parts env (trim upload_id) upload (sorted_multipart_parts upload.parts) s
      ≡ (after, ok o)
unfolding complete_multipart_upload
complete_multipart_upload-cases env upload_id s after o upload h found = ground arith

-- What is stored for the parts is found, and read as it is answered.
complete_parts-ok :
    (env : Env) (upload_id : String) (s after : Service) (o : Object) (upload : MultipartUpload)
    (parts : List MultipartPart)
    → complete_parts env upload_id upload parts s ≡ (after, ok o)
    → (o.body ≡ assembled parts)
      × (after.state.buckets ≡ s.state.buckets)
      × (find_object upload.bucket upload.key after.state.objects ≡ some o)
      × (o.payload_ref ≡ "")
      × (lookup upload_id after.multipart_uploads ≡ none)
unfolding complete_parts Untouched completed_object with_defaults store_object upsert_object
complete_parts-ok env upload_id s after o upload parts h =
    let new = completed_object env upload parts in
    let placed = record s { state = stored_state env (λ x. x) new s.state } in
    let answer =
      ok (record (store_object env (env.clock 1) new s.state).1 { body = assembled parts }) in
    let (mid, saved, states, payloads, uploads) =
      drop_upload-ok upload_id (persist env 0 placed answer) after o h in
    let (state, kept, same) = persist-ok env 0 placed mid answer o saved in
    let (objects, buckets, versions) =
      stored_state-Untouched env (λ x. x) new s.state (λ b. (refl, refl, refl)) in
    let one =
      ok-injective
        (record (store_object env (env.clock 1) new s.state).1 { body = assembled parts }) o same in
    (
      ap (λ x. x.body) (sym one),
      ap (λ x. x.buckets) (states ∙ state)
          ∙ buckets
          ∙ (store_object-objects env (env.clock 1) new s.state).1,
      ap (λ x. find_object upload.bucket upload.key x.objects) (states ∙ state)
          ∙ find_object-stored_state env (λ x. x) new s.state (λ b. (refl, refl, refl))
          ∙ ap some one,
      ap (λ x. x.payload_ref) (sym one),
      ap (lookup upload_id) uploads
          ∙ ground
              (arith, lookup-delete upload_id upload_id mid.multipart_uploads, eq_refl upload_id),
    )

object_error-buckets :
    (bucket key : String) (s after : State)
    → after.buckets ≡ s.buckets
    → object_error bucket key s ≡ none
    → object_error bucket key after ≡ none
unfolding object_error has_bucket
object_error-buckets bucket key s after e h = rw e h

-- An object that is found, and has no reference, is read as it is.
get_object_at-found :
    (bucket key : String) (s : Service) (o : Object)
    → object_error bucket key s.state ≡ none
    → find_object bucket key s.state.objects ≡ some o
    → o.payload_ref ≡ ""
    → get_object_at bucket key s ≡ ok o
unfolding get_object_at hydrate_object
get_object_at-found bucket key s o allowed found bare = ground (arith, eq_iff o.payload_ref "")

-- A CompleteMultipartUpload that succeeds stores, and answers with, the bytes of all parts of the
-- upload, one behind the other, no part behind one with a higher number; a GetObject of the bucket and
-- key of the upload, which are trimmed and name a bucket that is there, then gives that answer; and the
-- upload is gone.
pub complete_multipart_upload_assembles :
    (env : Env) (upload_id : String) (s after : Service) (o : Object) (upload : MultipartUpload)
    → complete_multipart_upload env upload_id s ≡ (after, ok o)
    → lookup (trim upload_id) s.multipart_uploads ≡ some upload
    → trim upload.bucket ≡ upload.bucket
    → trim upload.key ≡ upload.key
    → object_error upload.bucket upload.key s.state ≡ none
    → ((parts : List MultipartPart) × (o.body ≡ assembled parts)
        × IsSorted part_less parts
        × Perm parts upload.parts)
      × (get_object upload.bucket upload.key after ≡ ok o)
      × (lookup (trim upload_id) after.multipart_uploads ≡ none)
unfolding get_object
complete_multipart_upload_assembles env upload_id s after o upload h found trimmed_bucket
      trimmed_key allowed =
    let parts = sorted_multipart_parts upload.parts in
    let (body, buckets, stored, unreferenced, gone) =
      complete_parts-ok env (trim upload_id) s after o upload parts
        (complete_multipart_upload-cases env upload_id s after o upload h found) in
    let (sorted, kept) = sorted_multipart_parts-IsSorted upload.parts in
    (
      (parts, body, sorted, kept),
      ap (λ b. get_object_at b (trim upload.key) after) trimmed_bucket
          ∙ ap (λ k. get_object_at upload.bucket k after) trimmed_key
          ∙ get_object_at-found upload.bucket upload.key after o
              (object_error-buckets upload.bucket upload.key s.state after.state buckets allowed)
              stored unreferenced,
      gone,
    )
