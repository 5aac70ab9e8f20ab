-- ===== src/S3/Objects/Others.antt =====
-- core/internal/resources/s3/application/service_objects.go: what a read of another object gives after
-- a write, and what a copy stores.
use Prim.Native.String.{◌++◌}
use mildstack.Prelude.{
  String, ◌==◌, Bool, false, ◌&&◌, Option, some, if◌then◌else◌, ◌≡◌, refl, arith, ◌∙◌, ap, eq_iff,
  Bool-cases, Option-cases, inl, inr, trim, lookup, Map, lookup-insert,
}
use mildstack.S3.Domain.{Bytes, Object}
use mildstack.S3.Service.{
  Env, ok, Service, store_payload, payload_ref_for, read_payload, hydrate_object,
}
use mildstack.S3.Store.{has_bucket, find_object, with_defaults}
use mildstack.S3.Store.Laws.{find_object-put_first}
use mildstack.S3.Effects.{Untouched, store_object-objects, stored_state-Untouched}
use mildstack.S3.Objects.{
  object_error, get_object, stored_state, write_object, write_bytes, new_object,
  put_object_with_metadata, or_octets,
}
use mildstack.S3.Objects.RoundTrip.{persist-ok, put_object-cases}

-- A payload that is added, where it replaces only itself, leaves every read that succeeds.
hydrate_object-store_payload :
    (env : Env) (hint : String) (bytes : Bytes) (payloads : Map Bytes) (p q : Object)
    → ((old : Bytes)
        → lookup (payload_ref_for env hint (env.md5_sum bytes)) payloads ≡ some old
        → old ≡ bytes)
    → hydrate_object payloads p ≡ ok q
    → hydrate_object (store_payload env hint bytes payloads).0 p ≡ ok q
unfolding hydrate_object read_payload store_payload
hydrate_object-store_payload env hint bytes payloads p q agrees h =
    elim (Option-cases (lookup p.payload_ref payloads)) [
      | inl e ↦ ground (
        arith,
        lookup-insert (payload_ref_for env hint (env.md5_sum bytes)) p.payload_ref bytes payloads,
      )
      | inr (old, e) ↦
          elim (Bool-cases (payload_ref_for env hint (env.md5_sum bytes) == p.payload_ref)) [
            | inl same ↦
                let ref = payload_ref_for env hint (env.md5_sum bytes) in
                let one = (eq_iff ref p.payload_ref).0 same in
                ground (
                  arith,
                  lookup-insert ref p.payload_ref bytes payloads,
                  agrees old (ap (λ r. lookup r payloads) one ∙ e),
                )
            | inr other ↦ ground (
              arith,
              lookup-insert (payload_ref_for env hint (env.md5_sum bytes)) p.payload_ref bytes
                  payloads,
            )
          ]
    ]

read_cases :
    (bucket key : String) (s : Service) (o p : Object)
    → find_object (trim bucket) (trim key) s.state.objects ≡ some o
    → get_object bucket key s ≡ ok p
    → hydrate_object s.payloads o ≡ ok p
unfolding get_object
read_cases bucket key s o p found read = ground arith

if_false : (b : Bool) (x y : Option Object) → b ≡ false → (if b then x else y) ≡ y
if_false b x y h = rw h refl

-- A PutObject that succeeds leaves what a GetObject of any other bucket and key gave, where the
-- payload that is stored under the new reference, if there is one, has the same bytes.
pub get_object-put_object_other :
    (env : Env) (bucket key : String) (bytes : Bytes) (content_type : String)
    (metadata preserved_headers : Map String) (s after : Service) (o : Object)
    (other_bucket other_key : String) (p : Object)
    → put_object_with_metadata env bucket key (some bytes) content_type metadata preserved_headers s
      ≡ (after, ok o)
    → ((old : Bytes)
        → lookup
            (payload_ref_for env (trim bucket ++ "/" ++ trim key) (env.md5_sum bytes))
            s.payloads
          ≡ some old
        → old ≡ bytes)
    → (trim bucket == trim other_bucket && trim key == trim other_key) ≡ false
    → get_object other_bucket other_key s ≡ ok p
    → get_object other_bucket other_key after ≡ ok p
unfolding get_object object_error has_bucket Untouched write_bytes write_object new_object
    with_defaults
get_object-put_object_other env bucket key bytes content_type metadata preserved_headers s after o
      other_bucket other_key p h agrees ne read =
    let (allowed, written) =
      put_object-cases env bucket key bytes content_type metadata preserved_headers s after o h in
    let hint = trim bucket ++ "/" ++ trim key in
    let (payloads, ref) = store_payload env hint bytes s.payloads in
    let new =
      new_object env (trim bucket) (trim key) bytes (or_octets (trim content_type)) metadata
        preserved_headers ref in
    let stored = with_defaults env (env.clock 1) new in
    let placed = record s { state = stored_state env (λ x. x) new s.state; payloads = payloads } in
    let (state, kept, answer) =
      persist-ok env 0 placed after (hydrate_object payloads stored) o written in
    let (objects, buckets, versions) =
      stored_state-Untouched env (λ x. x) new s.state (λ before. (refl, refl, refl)) in
    let (first, same_buckets) = store_object-objects env (env.clock 1) new s.state in
    let found = find_object-put_first (trim other_bucket) (trim other_key) stored s.state.objects in
    elim (Option-cases (find_object (trim other_bucket) (trim other_key) s.state.objects)) [
      | inl e ↦ ground arith
      | inr (other, e) ↦
          let hydrated =
            hydrate_object-store_payload env hint bytes s.payloads other p agrees
              (read_cases other_bucket other_key s other p e read) in
          let there =
            ap (λ x. find_object (trim other_bucket) (trim other_key) x.objects) state
            ∙ ap (find_object (trim other_bucket) (trim other_key)) (objects ∙ first)
            ∙ found
            ∙ if_false (trim bucket == trim other_bucket && trim key == trim other_key)
                (some stored) (find_object (trim other_bucket) (trim other_key) s.state.objects) ne
            ∙ e in
          ground (arith, there, hydrated, kept, state, buckets, same_buckets)
    ]
