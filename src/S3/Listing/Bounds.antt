-- ===== src/S3/Listing/Bounds.antt =====
-- core/internal/resources/s3/domain/state.go: how much a page of objects holds.
use mathlib.Core.Path.{subst}
use mildstack.Prelude.{
  String, Bool, true, false, Option, none, some, List, [], ◌∷◌, if◌then◌else◌, ◌≡◌, refl, arith,
  ◌+◌, ◌≤◌, length, length-append, leb, Option-cases, inl, inr,
}
use mildstack.S3.Domain.{Object, State}
use mildstack.S3.Listing.{
  sorted_objects_in, matching, no_page, is_among, object_at, ListObjectsOptions, PageState,
  page_step, page_loop, list_object_page, normalized_max_keys, with_object, with_group, group_of,
  is_skipped,
}

-- The entries of a page are counted, and no more than the limit.
abbrev IsCounted : ListObjectsOptions → PageState → Type 0
IsCounted options st =
    (length st.page.objects + length st.page.common_prefixes ≡ st.count)
    × (st.count ≤ normalized_max_keys options.max_keys)

with_object-IsCounted :
    (options : ListObjectsOptions) (all : List Object) (o : Object) (st : PageState)
    → leb (normalized_max_keys options.max_keys) st.count ≡ false
    → IsCounted options st
    → IsCounted options (with_object all o st)
unfolding with_object
with_object-IsCounted options all o st h (counted, below) =
    (ground (arith, length-append st.page.objects (object_at o all ∷ [])), ground arith)

with_group-IsCounted :
    (options : ListObjectsOptions) (prefix key : String) (st : PageState)
    → leb (normalized_max_keys options.max_keys) st.count ≡ false
    → IsCounted options st
    → IsCounted options (with_group prefix key st)
unfolding with_group
with_group-IsCounted options prefix key st h (counted, below) =
    (ground (arith, length-append st.page.common_prefixes (prefix ∷ [])), ground arith)

abbrev Held : ListObjectsOptions → Option PageState → Type 0
Held options none = Unit
Held options (some st) = IsCounted options st

Held-if :
    (options : ListObjectsOptions) (test : Bool) (x y : Option PageState)
    → Held options x
    → (test ≡ false → Held options y)
    → Held options (if test then x else y)
Held-if options true x y hx hy = hx
Held-if options false x y hx hy = hy refl

Held-group :
    (options : ListObjectsOptions) (found : Option String) (x : Option PageState)
    (f : String → Option PageState)
    → Held options x
    → ((prefix : String) → Held options (f prefix))
    → Held options (elim found as (λ y. Option PageState) [ none ↦ x | some prefix ↦ f prefix ])
Held-group options none x f hx hf = hx
Held-group options (some prefix) x f hx hf = hf prefix

page_step-IsCounted :
    (options : ListObjectsOptions) (all : List Object) (o : Object) (st : PageState)
    → IsCounted options st
    → Held options (page_step options all o st)
unfolding page_step
page_step-IsCounted options all o st counted =
    let full = leb (normalized_max_keys options.max_keys) st.count in
    Held-if options (is_skipped st.skipping o.key) _ _ counted (λ e.
      Held-group options (group_of options o.key) _ _
        (Held-if options full none (some (with_object all o st)) tt
          (λ h. with_object-IsCounted options all o st h counted))
        (λ prefix. Held-if options (is_among prefix st.page.common_prefixes) _ _ counted (λ a.
          Held-if options full none (some (with_group prefix o.key st)) tt
            (λ h. with_group-IsCounted options prefix o.key st h counted))))

page_loop-bound :
    (options : ListObjectsOptions) (all os : List Object) (st : PageState)
    → IsCounted options st
    → length (page_loop options all os st).objects
        + length (page_loop options all os st).common_prefixes
      ≤ normalized_max_keys options.max_keys
unfolding page_loop
page_loop-bound options all [] st counted = ground arith
page_loop-bound options all (o ∷ os) st counted = elim (Option-cases (page_step options all o st)) [
  | inl e ↦ rw (e, page_loop) (ground arith)
  | inr (next, e) ↦
      rw (e, page_loop)
        (page_loop-bound options all os next
          (subst (Held options) e (page_step-IsCounted options all o st counted)))
]

-- A page of objects holds no more objects and common prefixes, taken together, than the limit of the
-- request, or 1000 where the limit is not positive.
pub list_object_page-bound :
    (bucket : String) (options : ListObjectsOptions) (s : State)
    → length (list_object_page bucket options s).objects
        + length (list_object_page bucket options s).common_prefixes
      ≤ normalized_max_keys options.max_keys
unfolding list_object_page
list_object_page-bound bucket options s =
    let all = matching options (sorted_objects_in bucket s) in
    page_loop-bound options all all no_page (refl, omega arith)
