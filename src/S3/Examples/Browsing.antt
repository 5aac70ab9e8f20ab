-- ===== src/S3/Examples/Browsing.antt =====
-- core/internal/resources/s3/domain/state.go: pages of objects.
use mildstack.Prelude.{ℕ, [], ◌∷◌, true, false, refl, ◌≡◌, ◌≤◌, ◌+◌, length, All}
use mildstack.Prelude.Numeral.{pos}
use mildstack.S3.Domain.{State}
use mildstack.S3.Listing.{
  ListObjectsOptions, list_object_page, normalized_max_keys, matching, sorted_objects_in,
}
use mildstack.S3.Listing.Bounds.{list_object_page-bound}
use mildstack.S3.Listing.Coverage.{list_object_page-covers, is_covered}
use mildstack.S3.Examples.{store, stored}

abbrev album : State
album = record store.state {
  objects =
      stored "trip/2" [] "r1" "e1"
      ∷ stored "cat" [] "r2" "e2"
      ∷ stored "trip/1" [] "r3" "e3"
      ∷ stored "a" [] "r4" "e4"
      ∷ [];
}

abbrev folders : ℕ → ListObjectsOptions
folders n = record { prefix = ""; delimiter = "/"; max_keys = pos n; start_after = "b" }

first_page : (list_object_page "photos" (folders 1) album).is_truncated ≡ true
unfolding list_object_page
first_page = refl

whole_page : (list_object_page "photos" (folders 2) album).is_truncated ≡ false
unfolding list_object_page
whole_page = refl

folder : (list_object_page "photos" (folders 2) album).common_prefixes ≡ "trip/" ∷ []
unfolding list_object_page
folder = refl

list_object_page-bound_example :
    length (list_object_page "photos" (folders 1) album).objects
      + length (list_object_page "photos" (folders 1) album).common_prefixes
    ≤ normalized_max_keys (pos 1)
list_object_page-bound_example = list_object_page-bound "photos" (folders 1) album

list_object_page-covers_example :
    All
      (λ o. is_covered (list_object_page "photos" (folders 2) album) o.key ≡ true)
      (matching (folders 2) (sorted_objects_in "photos" album))
list_object_page-covers_example = list_object_page-covers "photos" (folders 2) album whole_page
