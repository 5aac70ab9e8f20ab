-- ===== src/S3/Lock/Calls.antt =====
-- core/internal/resources/s3/application: the calls, one by one, beside an object under a retention.
use Prim.Native.String.{◌++◌}
use mildstack.Prelude.{
  ℕ, String, ◌==◌, Bool, true, false, ◌&&◌, Option, List, [], ◌∷◌, if◌then◌else◌, ◌≡◌, ◌<◌, inl,
  inr, trim, ◌+◌, ◌*◌, ◌⊎◌, Map,
}
use mildstack.Prelude.Time.{Time}
use mildstack.S3.Domain.{Object, State, Bytes}
use mildstack.S3.Service.{err, store_payload, body_unreadable, Env, Service, Result, Reply, ok}
use mildstack.S3.Invariant.{Holds-persist, Holds-guard, Holds-if, Holds-found, Holds-result}
use mildstack.S3.Store.{is_at}
use mildstack.S3.Lock.{copy_object_protection}
use mildstack.S3.Lock.Settings.{bucket_error}
use mildstack.S3.Lock.Retention.{Retains, write_blocked-Retains, pair-cases}
use mildstack.S3.Lock.Survival.{
  Retains-stored_state, Retains-removed, Retains-copy_object_protection,
}
use mildstack.S3.Objects.{
  resolved_copy_metadata, or_octets, write_bytes, new_object, write_blocked, write_object,
  object_error, put_object_with_metadata, copy_error, copy_source, copy_object_with_options,
  get_object, source_bytes,
}
use mildstack.S3.Objects.Removal.{remove_object, delete_object, delete_keys, delete_objects}

module _ (t : Time) (bucket key : String) (o : Object) where
  abbrev Kept : State → Type 0
  Kept s = Retains t bucket key o s

  abbrev Keeps : Service → Type 0
  Keeps s = Retains t bucket key o s.state

  -- A write elsewhere is let through, a write to the pair is not.
  guard-cases :
      (now : Time) (at_bucket at_key : String) (s : State)
      → now < t
      → Retains t bucket key o s
      → (write_blocked now at_bucket at_key s ≡ true)
        ⊎ ((at_bucket == bucket && at_key == key) ≡ false)
  guard-cases now at_bucket at_key s h kept = elim (pair-cases t bucket key o at_bucket at_key) [
    | inl (eb, ek) ↦ inl (rw (eb, ek) (write_blocked-Retains t bucket key o now s h kept))
    | inr ne ↦ inr ne
  ]

  Keeps-write_object :
      (env : Env) (protect : State → State) (new : Object) (s : Service)
      → is_at bucket key new ≡ false
      → ((before : State) → Retains t bucket key o before → Retains t bucket key o (protect before))
      → Keeps s
      → Keeps (write_object env protect new s).0
  unfolding write_object
  Keeps-write_object env protect new s h protects kept =
      Holds-persist Kept env 0 _ _
        (Retains-stored_state t bucket key o env protect new s.state h protects kept)

  Keeps-write_bytes :
      (env : Env) (protect : State → State) (at_bucket at_key : String) (bytes : Bytes)
      (content_type : String) (metadata preserved_headers : Map String) (s : Service)
      → (at_bucket == bucket && at_key == key) ≡ false
      → ((before : State) → Retains t bucket key o before → Retains t bucket key o (protect before))
      → Keeps s
      → Keeps
          (write_bytes env protect at_bucket at_key bytes content_type metadata preserved_headers
            s).0
  unfolding write_bytes new_object
  Keeps-write_bytes env protect at_bucket at_key bytes content_type metadata preserved_headers s ne
        protects kept =
      let (payloads, ref) = store_payload env (at_bucket ++ "/" ++ at_key) bytes s.payloads in
      Keeps-write_object env protect
        (new_object env at_bucket at_key bytes content_type metadata preserved_headers ref)
        (record s { payloads = payloads }) ne protects kept

  -- A call that ends at a blocked write, or goes on beside the pair.
  pub Keeps-unless_blocked :
      {A : Type 0} (now : Time) (at_bucket at_key : String) (s : Service) (answer : Result A)
      (call : Reply A)
      → now < t
      → Keeps s
      → ((at_bucket == bucket && at_key == key) ≡ false → Keeps call.0)
      → Keeps (if write_blocked now at_bucket at_key s.state then (s, answer) else call).0
  Keeps-unless_blocked now at_bucket at_key s answer call h kept goes_on =
      Holds-if Kept (write_blocked now at_bucket at_key s.state) s answer call kept
        (elim (guard-cases now at_bucket at_key s.state h kept) [
          | inl e ↦ inl e
          | inr ne ↦ inr (goes_on ne)
        ])

  pub Keeps-put_object :
      (env : Env) (at_bucket at_key : String) (body : Option Bytes) (content_type : String)
      (metadata preserved_headers : Map String) (s : Service)
      → env.clock 0 < t
      → Keeps s
      → Keeps
          (put_object_with_metadata env at_bucket at_key body content_type metadata
            preserved_headers s).0
  unfolding put_object_with_metadata
  Keeps-put_object env at_bucket at_key body content_type metadata preserved_headers s h kept =
      Holds-guard Kept (object_error (trim at_bucket) (trim at_key) s.state) s _ kept (
        Keeps-unless_blocked (env.clock 0) (trim at_bucket) (trim at_key) s _ _ h kept (λ ne.
          Holds-found Kept body s (err body_unreadable) _ kept (λ bytes e.
            Keeps-write_bytes env (λ t. t) (trim at_bucket) (trim at_key) bytes
              (or_octets (trim content_type)) metadata preserved_headers s ne (λ before k. k)
              kept)))

  Keeps-copy_source :
      (env : Env) (at_bucket at_key source_bucket source_key directive : String)
      (metadata : Map String) (s : Service)
      → (at_bucket == bucket && at_key == key) ≡ false
      → Keeps s
      → Keeps (copy_source env at_bucket at_key source_bucket source_key directive metadata s).0
  unfolding copy_source
  Keeps-copy_source env at_bucket at_key source_bucket source_key directive metadata s ne kept =
      Holds-result Kept (get_object source_bucket source_key s) s _ kept (λ source e.
        Holds-result Kept (source_bytes s.payloads source) s _ kept (λ bytes f.
          Keeps-write_bytes env (copy_object_protection at_bucket at_key source_bucket source_key)
            at_bucket at_key bytes source.content_type
            (resolved_copy_metadata env source.metadata directive metadata) source.preserved_headers
            s ne
            (λ before k.
              Retains-copy_object_protection t bucket key o at_bucket at_key source_bucket
                source_key before ne k)
            kept))

  pub Keeps-copy_object :
      (env : Env) (at_bucket at_key source_bucket source_key directive : String)
      (metadata : Map String) (s : Service)
      → env.clock 0 < t
      → Keeps s
      → Keeps
          (copy_object_with_options env at_bucket at_key source_bucket source_key directive metadata
            s).0
  unfolding copy_object_with_options
  Keeps-copy_object env at_bucket at_key source_bucket source_key directive metadata s h kept =
      Holds-guard Kept
        (copy_error (trim at_bucket) (trim at_key) (trim source_bucket) (trim source_key) s.state) s
        _ kept
        (Keeps-unless_blocked (env.clock 0) (trim at_bucket) (trim at_key) s _ _ h kept (λ ne.
          Keeps-copy_source env (trim at_bucket) (trim at_key) (trim source_bucket)
            (trim source_key) directive metadata s ne kept))

  Keeps-remove_object :
      (env : Env) (i : ℕ) (at_bucket at_key : String) (s : Service)
      → env.clock (2 * i) < t
      → Keeps s
      → Keeps (remove_object env i at_bucket at_key s).0
  unfolding remove_object
  Keeps-remove_object env i at_bucket at_key s h kept =
      Keeps-unless_blocked (env.clock (2 * i)) at_bucket at_key s _ _ h kept (λ ne.
        Holds-persist Kept env i _ _
          (Retains-removed t bucket key o (env.clock (2 * i + 1)) at_bucket at_key s ne kept))

  pub Keeps-delete_object :
      (env : Env) (at_bucket at_key : String) (s : Service)
      → env.clock 0 < t
      → Keeps s
      → Keeps (delete_object env at_bucket at_key s).0
  unfolding delete_object
  Keeps-delete_object env at_bucket at_key s h kept =
      Holds-guard Kept (object_error (trim at_bucket) (trim at_key) s.state) s _ kept
        (Keeps-remove_object env 0 (trim at_bucket) (trim at_key) s h kept)

  Keeps-delete_keys :
      (env : Env) (at_bucket : String) (quiet : Bool) (i : ℕ) (keys : List String) (s : Service)
      → ((j : ℕ) → env.clock j < t)
      → Keeps s
      → Keeps (delete_keys env at_bucket quiet i keys s).0
  unfolding delete_keys
  Keeps-delete_keys env at_bucket quiet i [] s h kept = kept
  Keeps-delete_keys env at_bucket quiet i (k ∷ keys) s h kept =
      Keeps-delete_keys env at_bucket quiet (i + 1) keys _ h (
        Holds-if Kept (trim k == "") s (ok tt) (remove_object env i at_bucket (trim k) s) kept
          (inr (Keeps-remove_object env i at_bucket (trim k) s (h (2 * i)) kept)))

  pub Keeps-delete_objects :
      (env : Env) (at_bucket : String) (keys : List String) (quiet : Bool) (s : Service)
      → ((j : ℕ) → env.clock j < t)
      → Keeps s
      → Keeps (delete_objects env at_bucket keys quiet s).0
  unfolding delete_objects
  Keeps-delete_objects env at_bucket keys quiet s h kept =
      Holds-guard Kept (bucket_error at_bucket s.state) s _ kept
        (Keeps-delete_keys env (trim at_bucket) quiet 0 keys s h kept)
