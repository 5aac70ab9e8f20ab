-- ===== src/S3/Examples/Configuring.antt =====
-- core/internal/resources/s3/application/service_subresources.go: a policy that is put and read.
use mildstack.Prelude.{[], ◌∷◌, ◌≡◌, refl, ap, trim}
use mildstack.S3.Domain.{Bytes}
use mildstack.S3.Service.{Reply, ok}
use mildstack.S3.Settings.{Setting, policy, put_setting, get_setting}
use mildstack.S3.Settings.Laws.{get_setting-put_setting, same_setting}
use mildstack.S3.Examples.{env, store}

abbrev no_body : Setting → Bytes
no_body setting = []

abbrev put : Reply Bytes
put = put_setting env policy "photos " (7 ∷ []) store

put_answer : put.1 ≡ ok (7 ∷ [])
unfolding put_setting trim
put_answer = refl

put_reply : put ≡ (put.0, ok (7 ∷ []))
put_reply = ap (λ r. (put.0, r)) put_answer

get_setting-put_setting_example : get_setting no_body policy "photos" put.0 ≡ ok (7 ∷ [])
unfolding same_setting trim
get_setting-put_setting_example =
    get_setting-put_setting no_body env policy policy "photos " "photos" (7 ∷ []) (7 ∷ []) store
      put.0 put_reply
