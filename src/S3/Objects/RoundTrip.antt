-- ===== src/S3/Objects/RoundTrip.antt =====
-- core/internal/resources/s3/application/service_objects.go: what a read gives after a write.
use Prim.Native.String.append
use Prim.Native.String.compare
use Prim.Native.String.{◌++◌}
use mildstack.Prelude.{
  eqb, ℕ, String, ◌==◌, false, none, some, [], if◌then◌else◌, ◌≡◌, refl, arith, sym, ◌∙◌, ap,
  eq_refl, trim, lookup, Map, length, lookup-insert,
}
use mildstack.S3.Domain.{Bytes, Object, State}
use mildstack.S3.Service.{
  Env, Result, ok, Service, persist, store_payload, payload_ref_for, read_payload, hydrate_object,
}
use mildstack.S3.Store.{has_bucket, find_object, with_defaults, upsert_object}
use mildstack.S3.Store.Laws.{find_object-put_first}
use mildstack.S3.Effects.{Untouched, store_object-objects, stored_state-Untouched}
use mildstack.S3.Objects.{
  object_error, get_object, store_object, stored_state, write_object, write_bytes, new_object,
  put_object_with_metadata, or_octets,
}

append-nonempty : (s t : String) → (s == "") ≡ false → (s ++ t == "") ≡ false
append-nonempty String.[] t h = ground arith
append-nonempty (String.◌∷◌ c s) t h =
    rw (append.cons c s t) (rw (compare.cons-nil c (s ++ t)) refl)

-- The reference of a payload is never empty.
pub payload_ref_for-nonempty :
    (env : Env) (hint : String) (body_hash : Bytes)
    → (payload_ref_for env hint body_hash == "") ≡ false
unfolding payload_ref_for
payload_ref_for-nonempty env hint body_hash = append-nonempty "payload-" _ refl

-- An object that is stored without its body, among payloads that hold it, is read with it.
hydrate_object-stored :
    (payloads : Map Bytes) (o : Object) (bytes : Bytes)
    → o.body ≡ []
    → (o.payload_ref == "") ≡ false
    → lookup o.payload_ref payloads ≡ some bytes
    → hydrate_object payloads o ≡ ok (record o { body = bytes })
unfolding hydrate_object read_payload
hydrate_object-stored payloads o bytes bare named found = rw (bare, named, found) refl

-- A write that is saved leaves the object where a read finds it, bare.
pub find_object-stored_state :
    (env : Env) (protect : State → State) (o : Object) (s : State)
    → ((before : State) → Untouched before (protect before))
    → find_object o.bucket o.key (stored_state env protect o s).objects
      ≡ some (with_defaults env (env.clock 1) o)
unfolding Untouched with_defaults
find_object-stored_state env protect o s protects =
    let (objects, buckets, versions) = stored_state-Untouched env protect o s protects in
    ground (
      arith,
      eq_refl o.bucket,
      eq_refl o.key,
      find_object-put_first o.bucket o.key (with_defaults env (env.clock 1) o) s.objects,
      (store_object-objects env (env.clock 1) o s).0,
      objects,
    )

-- A call that ends in a save answers with a value only where the save succeeded.
pub persist-ok :
    {A : Type 0} (env : Env) (i : ℕ) (s after : Service) (r : Result A) (a : A)
    → persist env i s r ≡ (after, ok a)
    → (after.state ≡ s.state) × (after.payloads ≡ s.payloads) × (r ≡ ok a)
unfolding persist
persist-ok env i s after r a h = (ground arith, ground arith, ground arith)

pub put_object-cases :
    (env : Env) (bucket key : String) (bytes : Bytes) (content_type : String)
    (metadata preserved_headers : Map String) (s after : Service) (o : Object)
    → put_object_with_metadata env bucket key (some bytes) content_type metadata preserved_headers s
      ≡ (after, ok o)
    → (object_error (trim bucket) (trim key) s.state ≡ none)
      × (write_bytes env
            (λ x. x)
            (trim bucket)
            (trim key)
            bytes
            (or_octets (trim content_type))
            metadata
            preserved_headers
            s
          ≡ (after, ok o))
unfolding put_object_with_metadata
put_object-cases env bucket key bytes content_type metadata preserved_headers s after o h =
    (ground arith, ground arith)

found_payload :
    (env : Env) (hint : String) (bytes : Bytes) (payloads : Map Bytes)
    → lookup (store_payload env hint bytes payloads).1 (store_payload env hint bytes payloads).0
      ≡ some bytes
unfolding store_payload
found_payload env hint bytes payloads =
    let ref = payload_ref_for env hint (env.md5_sum bytes) in
    ground (arith, lookup-insert ref ref bytes payloads, eq_refl ref)

pub ok-injective : (o p : Object) → ok o ≡ ok p → o ≡ p
ok-injective o p h = ground arith

size_of : (n : ℕ) → (if eqb n 0 then 0 else n) ≡ n
size_of n = ground arith

-- A write of bytes that succeeds is read back.
pub find-write_bytes :
    (env : Env) (protect : State → State) (bucket key : String) (bytes : Bytes)
    (content_type : String) (metadata preserved_headers : Map String) (s after : Service)
    (o : Object)
    → ((before : State) → Untouched before (protect before))
    → write_bytes env protect bucket key bytes content_type metadata preserved_headers s
      ≡ (after, ok o)
    → (after.state.buckets ≡ s.state.buckets)
      × (stored : Object) × (find_object bucket key after.state.objects ≡ some stored)
      × (hydrate_object after.payloads stored ≡ ok o)
      × (o.body ≡ bytes)
      × (o.size ≡ length bytes)
      × (o.content_type ≡ content_type)
      × (o.metadata ≡ metadata)
unfolding write_bytes write_object Untouched new_object with_defaults store_object upsert_object
find-write_bytes env protect bucket key bytes content_type metadata preserved_headers s after o
      protects h =
    let (payloads, ref) = store_payload env (bucket ++ "/" ++ key) bytes s.payloads in
    let new = new_object env bucket key bytes content_type metadata preserved_headers ref in
    let stored = with_defaults env (env.clock 1) new in
    let placed = record s { state = stored_state env protect new s.state; payloads = payloads } in
    let (state, kept, answer) =
      persist-ok env 0 placed after (hydrate_object payloads stored) o h in
    let read =
      hydrate_object-stored payloads stored bytes refl (payload_ref_for-nonempty env _ _)
        (found_payload env (bucket ++ "/" ++ key) bytes s.payloads) in
    let same = ok-injective (record stored { body = bytes }) o (sym read ∙ answer) in
    let (objects, buckets, versions) = stored_state-Untouched env protect new s.state protects in
    (
      ap (λ x. x.buckets) state ∙ buckets ∙ (store_object-objects env (env.clock 1) new s.state).1,
      stored,
      ap (λ x. find_object bucket key x.objects) state
          ∙ find_object-stored_state env protect new s.state protects,
      ap (λ x. hydrate_object x stored) kept ∙ answer,
      ap (λ x. x.body) (sym same),
      ap (λ x. x.size) (sym same) ∙ size_of (length bytes),
      ap (λ x. x.content_type) (sym same),
      ap (λ x. x.metadata) (sym same),
    )

-- What a PutObject that succeeds answers with is what a GetObject of the same bucket and key gives
-- then: the body that was put, its length, the content type (or the default one) and the metadata.
pub get_object-put_object :
    (env : Env) (bucket key : String) (bytes : Bytes) (content_type : String)
    (metadata preserved_headers : Map String) (s after : Service) (o : Object)
    → put_object_with_metadata env bucket key (some bytes) content_type metadata preserved_headers s
      ≡ (after, ok o)
    → (get_object bucket key after ≡ ok o)
      × (o.body ≡ bytes)
      × (o.size ≡ length bytes)
      × (o.content_type ≡ or_octets (trim content_type))
      × (o.metadata ≡ metadata)
unfolding get_object object_error has_bucket Untouched
get_object-put_object env bucket key bytes content_type metadata preserved_headers s after o h =
    let (allowed, written) =
      put_object-cases env bucket key bytes content_type metadata preserved_headers s after o h in
    let (buckets, stored, found, read, body, size, kind, tags) =
      find-write_bytes env (λ x. x) (trim bucket) (trim key) bytes (or_octets (trim content_type))
        metadata preserved_headers s after o (λ before. (refl, refl, refl)) written in
    (ground arith, body, size, kind, tags)
