-- ===== src/S3/Settings/Laws.antt =====
-- core/internal/resources/s3/application: what is read of the settings of buckets after a change.
use mildstack.Prelude.{
  ℕ, String, ◌==◌, Bool, true, ◌&&◌, Option, none, some, Map, if◌then◌else◌, trim, lookup, insert,
  ◌≡◌, refl, arith, eqb, ap, ◌∙◌, lookup-insert, eq_iff, Bool-cases, Option-cases, inl, inr,
}
use mildstack.S3.Domain.{Bytes, State}
use mildstack.S3.Service.{Env, Error, Result, ok, err, Service}
use mildstack.S3.Lock.Settings.{bucket_error}
use mildstack.S3.Store.{has_bucket}
use mildstack.S3.Settings.{
  Setting, bodies, with_bodies, missing, get_setting, put_setting, set_setting, policy, encryption,
  lifecycle, cors, acl, tagging, ownership, public_access, notifications, logging,
}

unfoldable pub setting_index : Setting → ℕ
setting_index policy = 0
setting_index encryption = 1
setting_index lifecycle = 2
setting_index cors = 3
setting_index acl = 4
setting_index tagging = 5
setting_index ownership = 6
setting_index public_access = 7
setting_index notifications = 8
setting_index logging = 9

unfoldable pub same_setting : Setting → Setting → Bool
unfolding setting_index
same_setting x y = eqb (setting_index x) (setting_index y)

bodies-with_bodies :
    (x y : Setting) (m : Map Bytes) (s : State)
    → bodies y (with_bodies x m s) ≡ (if same_setting x y then m else bodies y s)
unfolding bodies with_bodies same_setting setting_index
bodies-with_bodies policy y m s = ground arith
bodies-with_bodies encryption y m s = ground arith
bodies-with_bodies lifecycle y m s = ground arith
bodies-with_bodies cors y m s = ground arith
bodies-with_bodies acl y m s = ground arith
bodies-with_bodies tagging y m s = ground arith
bodies-with_bodies ownership y m s = ground arith
bodies-with_bodies public_access y m s = ground arith
bodies-with_bodies notifications y m s = ground arith
bodies-with_bodies logging y m s = ground arith

with_bodies-buckets :
    (x : Setting) (m : Map Bytes) (s : State) → (with_bodies x m s).buckets ≡ s.buckets
unfolding with_bodies
with_bodies-buckets policy m s = refl
with_bodies-buckets encryption m s = refl
with_bodies-buckets lifecycle m s = refl
with_bodies-buckets cors m s = refl
with_bodies-buckets acl m s = refl
with_bodies-buckets tagging m s = refl
with_bodies-buckets ownership m s = refl
with_bodies-buckets public_access m s = refl
with_bodies-buckets notifications m s = refl
with_bodies-buckets logging m s = refl

-- What a read rests on: the buckets, and the body that is stored for its setting.
unfoldable answer_of : (Setting → Bytes) → Setting → Option Error → Option Bytes → Result Bytes
unfolding missing
answer_of default_body y (some e) found = err e
answer_of default_body y none none = missing default_body y
answer_of default_body y none (some body) = ok body

get_setting-answer_of :
    (default_body : Setting → Bytes) (y : Setting) (bucket : String) (s : Service)
    → get_setting default_body y bucket s
      ≡ answer_of default_body y
          (bucket_error bucket s.state)
          (lookup (trim bucket) (bodies y s.state))
unfolding get_setting answer_of
get_setting-answer_of default_body y bucket s = elim (Option-cases (bucket_error bucket s.state)) [
  | inr (e, q) ↦ rw (q, get_setting) refl
  | inl q ↦ elim (Option-cases (lookup (trim bucket) (bodies y s.state))) [
    | inl f ↦ rw (q, f, get_setting) refl
    | inr (body, f) ↦ rw (q, f, get_setting) refl
  ]
]

put_setting-cases :
    (env : Env) (x : Setting) (bucket : String) (body answer : Bytes) (s after : Service)
    → put_setting env x bucket body s ≡ (after, ok answer)
    → (bucket_error bucket s.state ≡ none)
      × (after.state ≡ set_setting x (trim bucket) body s.state)
      × (body ≡ answer)
unfolding put_setting
put_setting-cases env x bucket body answer s after h = (ground arith, ground arith, ground arith)

bucket_error-buckets :
    (bucket : String) (s after : State)
    → after.buckets ≡ s.buckets
    → bucket_error bucket after ≡ bucket_error bucket s
unfolding bucket_error has_bucket
bucket_error-buckets bucket s after e = rw e refl

bucket_error-trim :
    (bucket other : String) (s : State)
    → trim bucket ≡ trim other
    → bucket_error bucket s ≡ bucket_error other s
unfolding bucket_error
bucket_error-trim bucket other s e =
    ground (arith, e, ap (λ b. has_bucket b s) e, ap (λ b. b == "") e)

same_setting-bodies :
    (x y : Setting) (s : State) → same_setting x y ≡ true → bodies x s ≡ bodies y s
unfolding bodies same_setting setting_index
same_setting-bodies policy y s h = ground arith
same_setting-bodies encryption y s h = ground arith
same_setting-bodies lifecycle y s h = ground arith
same_setting-bodies cors y s h = ground arith
same_setting-bodies acl y s h = ground arith
same_setting-bodies tagging y s h = ground arith
same_setting-bodies ownership y s h = ground arith
same_setting-bodies public_access y s h = ground arith
same_setting-bodies notifications y s h = ground arith
same_setting-bodies logging y s h = ground arith

lookup-set_setting :
    (x y : Setting) (bucket other : String) (body : Bytes) (s : State)
    → lookup other (bodies y (set_setting x bucket body s))
      ≡ (if same_setting x y && bucket == other then some body else lookup other (bodies y s))
unfolding set_setting same_setting
lookup-set_setting x y bucket other body s =
    let m = insert bucket body (bodies x s) in
    elim (Bool-cases (same_setting x y)) [
      | inl e ↦
          ap (lookup other) (bodies-with_bodies x y m s)
          ∙ ground (
            arith,
            e,
            lookup-insert bucket other body (bodies x s),
            ap (lookup other) (same_setting-bodies x y s e),
          )
      | inr e ↦ ap (lookup other) (bodies-with_bodies x y m s) ∙ ground (arith, e)
    ]

set_setting-buckets :
    (x : Setting) (bucket : String) (body : Bytes) (s : State)
    → (set_setting x bucket body s).buckets ≡ s.buckets
unfolding set_setting
set_setting-buckets x bucket body s = with_bodies-buckets x (insert bucket body (bodies x s)) s

-- Where a setting is put on a bucket, and saved, a read of that setting of that bucket gives what was
-- put, and a read of any other setting, or of any other bucket, gives what it did.
pub get_setting-put_setting :
    (default_body : Setting → Bytes) (env : Env) (x y : Setting) (bucket other : String)
    (body answer : Bytes) (s after : Service)
    → put_setting env x bucket body s ≡ (after, ok answer)
    → get_setting default_body y other after ≡ (
        if same_setting x y && trim bucket == trim other
        then ok body
        else get_setting default_body y other s)
unfolding answer_of
get_setting-put_setting default_body env x y bucket other body answer s after h =
    let (allowed, state, same) = put_setting-cases env x bucket body answer s after h in
    let old = get_setting-answer_of default_body y other s in
    let new = get_setting-answer_of default_body y other after in
    let errors =
      bucket_error-buckets other s.state after.state
        (ap (λ t. t.buckets) state ∙ set_setting-buckets x (trim bucket) body s.state) in
    let found =
      ap (λ t. lookup (trim other) (bodies y t)) state
      ∙ lookup-set_setting x y (trim bucket) (trim other) body s.state in
    elim (Bool-cases (same_setting x y && trim bucket == trim other)) [
      | inl e ↦
          let one : trim bucket ≡ trim other =
            (eq_iff (trim bucket) (trim other)).0 (ground arith) in
          ground
            (arith, old, new, errors, found, allowed, bucket_error-trim bucket other s.state one)
      | inr e ↦ ground (arith, old, new, errors, found)
    ]
