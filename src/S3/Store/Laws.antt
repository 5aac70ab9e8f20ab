-- ===== src/S3/Store/Laws.antt =====
-- core/internal/resources/s3/domain/state.go: what the stores and removals of objects do to look-ups.
use mildstack.Prelude.{
  String, ◌==◌, false, ◌&&◌, some, List, [], ◌∷◌, if◌then◌else◌, ◌≡◌, refl, arith, eq_iff,
}
use mildstack.S3.Domain.{Object}
use mildstack.S3.Store.{is_at, find_object, put_first, remove_first}

-- A stored object is found at its own bucket and key, and every other pair finds what it did.
pub find_object-put_first :
    (bucket key : String) (new : Object) (os : List Object)
    → find_object bucket key (put_first new os)
      ≡ (if is_at bucket key new then some new else find_object bucket key os)
unfolding find_object put_first
find_object-put_first bucket key new [] = ground arith
find_object-put_first bucket key new (o ∷ os) = ground (
  arith,
  eq_iff o.bucket new.bucket,
  eq_iff o.key new.key,
  eq_iff new.bucket bucket,
  eq_iff new.key key,
  eq_iff o.bucket bucket,
  eq_iff o.key key,
  find_object-put_first bucket key new os,
)

-- The removal of one pair's object leaves what every other pair finds.
pub find_object-remove_first :
    (bucket key gone_bucket gone_key : String) (os : List Object)
    → (gone_bucket == bucket && gone_key == key) ≡ false
    → find_object bucket key (remove_first gone_bucket gone_key os) ≡ find_object bucket key os
unfolding find_object remove_first
find_object-remove_first bucket key gone_bucket gone_key [] h = refl
find_object-remove_first bucket key gone_bucket gone_key (o ∷ os) h = ground (
  arith,
  eq_iff o.bucket gone_bucket,
  eq_iff o.key gone_key,
  eq_iff gone_bucket bucket,
  eq_iff gone_key key,
  eq_iff o.bucket bucket,
  eq_iff o.key key,
  find_object-remove_first bucket key gone_bucket gone_key os h,
)
