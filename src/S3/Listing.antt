-- ===== src/S3/Listing.antt =====
-- core/internal/resources/s3: the pages of objects: `ListObjectPage` of domain/state.go, and
-- ListObjectsV1 and ListObjectsV2 of application/service_objects.go.
pub mod Requests
pub mod Bounds
pub mod Coverage
use Prim.Native.Char.{code}
use Prim.Native.String.{◌++◌ as ◌<>◌}
use mildstack.Prelude.{
  ℕ, zero, suc, String, ◌==◌, Bool, true, false, not, ◌&&◌, ◌||◌, ◌+◌, Option, none, some, List, [],
  ◌∷◌, ◌++◌, if◌then◌else◌, trim, length, leb, eqb, string_lt,
}
use mildstack.Prelude.Numeral.{ℤ, is_positive, pos_part}
use mildstack.Prelude.Sort.{stable_sort}
use mildstack.S3.Domain.{Bytes, Object, State}
use mildstack.S3.Service.{Error, Result, ok, err, Service}
use mildstack.S3.Lock.Settings.{bucket_error}

pub record ListObjectsOptions : Type 0 where
  pub prefix : String
  pub delimiter : String
  pub max_keys : ℤ
  pub start_after : String

pub record ObjectListPage : Type 0 where
  pub objects : List Object
  pub common_prefixes : List String
  pub is_truncated : Bool
  pub next_marker : String

-- What is left of a text behind a prefix that it has.
unfoldable pub drop_prefix : String → String → Option String
drop_prefix s String.[] = some s
drop_prefix String.[] (String.◌∷◌ d t) = none
drop_prefix (String.◌∷◌ c s) (String.◌∷◌ d t) =
    let rest = drop_prefix s t in if eqb (code c) (code d) then rest else none

unfoldable pub has_prefix : String → String → Bool
unfolding drop_prefix
has_prefix value prefix = elim (drop_prefix value prefix) [ none ↦ false | some rest ↦ true ]

-- `value[:index+len(delimiter)]` for the first index of a delimiter that is not empty
unfoldable pub through_delimiter : String → String → Option String
unfolding has_prefix
through_delimiter delimiter String.[] = if has_prefix "" delimiter then some delimiter else none
through_delimiter delimiter (String.◌∷◌ c s) =
    let later = through_delimiter delimiter s in
    if has_prefix (String.◌∷◌ c s) delimiter
    then some delimiter
    else elim later [ none ↦ none | some group ↦ some (String.◌∷◌ c group) ]

-- The common prefix that a key falls under, if there is a delimiter and the key has it.
unfoldable pub group_of : ListObjectsOptions → String → Option String
unfolding drop_prefix through_delimiter
group_of options key =
    if options.delimiter == "" then none else elim (drop_prefix key options.prefix) [
      | none ↦ none
      | some suffix ↦ elim (through_delimiter options.delimiter suffix) [
        | none ↦ none
        | some group ↦ some (options.prefix <> group)
      ]
    ]

-- `State.ListObjects`
unfoldable pub objects_in : String → List Object → List Object
objects_in bucket [] = []
objects_in bucket (o ∷ os) =
    let rest = objects_in bucket os in if o.bucket == bucket then o ∷ rest else rest

unfoldable pub sorted_objects_in : String → State → List Object
unfolding objects_in stable_sort
sorted_objects_in bucket s =
    stable_sort (λ a b. string_lt a.key b.key) (objects_in bucket s.objects)

-- The filter of the keys: the prefix, and what lies behind `StartAfter`.
unfoldable pub matching : ListObjectsOptions → List Object → List Object
unfolding has_prefix
matching options [] = []
matching options (o ∷ os) =
    let rest = matching options os in
    if has_prefix o.key options.prefix && string_lt options.start_after o.key
    then o ∷ rest
    else rest

-- `normalizedMaxKeys`
unfoldable pub normalized_max_keys : ℤ → ℕ
unfolding is_positive
normalized_max_keys max_keys = if is_positive max_keys then pos_part max_keys else 1000

-- `objectsByKey[key]`: the last object with the key
unfoldable pub object_at : Object → List Object → Object
object_at o [] = o
object_at o (p ∷ ps) = object_at (if p.key == o.key then p else o) ps

unfoldable pub is_among : String → List String → Bool
is_among text [] = false
is_among text (t ∷ ts) = t == text || is_among text ts

-- `skipping` is the common prefix whose keys the inner loop passes over, if it runs.
pub record PageState : Type 0 where
  pub skipping : Option String
  pub count : ℕ
  pub page : ObjectListPage

abbrev pub is_skipped : Option String → String → Bool
is_skipped none key = false
is_skipped (some prefix) key = has_prefix key prefix

abbrev marked : ObjectListPage → String → ObjectListPage
marked page key = record page { next_marker = key }

unfoldable pub with_object : List Object → Object → PageState → PageState
unfolding object_at
with_object all o st = record {
  skipping = none;
  count = st.count + 1;
  page = record st.page {
    objects = st.page.objects ++ (object_at o all ∷ []);
    next_marker = o.key;
  };
}

unfoldable pub with_group : String → String → PageState → PageState
with_group prefix key st = record {
  skipping = some prefix;
  count = st.count + 1;
  page = record st.page {
    common_prefixes = st.page.common_prefixes ++ (prefix ∷ []);
    next_marker = key;
  };
}

-- One key of the loop; `none` is the break at a full page.
unfoldable pub page_step : ListObjectsOptions → List Object → Object → PageState → Option PageState
unfolding group_of normalized_max_keys with_object with_group is_among has_prefix
page_step options all o st =
    let full = leb (normalized_max_keys options.max_keys) st.count in
    if is_skipped st.skipping o.key
    then some (record st { page = marked st.page o.key })
    else elim (group_of options o.key) [
      | none ↦ if full then none else some (with_object all o st)
      | some prefix ↦
          if is_among prefix st.page.common_prefixes
          then some (record st { skipping = some prefix; page = marked st.page o.key })
          else if full
          then none
          else some (with_group prefix o.key st)
    ]

unfoldable pub page_loop :
    ListObjectsOptions → List Object → List Object → PageState → ObjectListPage
unfolding page_step
page_loop options all [] st = st.page
page_loop options all (o ∷ os) st = elim (page_step options all o st) [
  | none ↦ record st.page { is_truncated = true }
  | some next ↦ page_loop options all os next
]

abbrev pub no_page : PageState
no_page = record {
  skipping = none;
  count = 0;
  page = record { objects = []; common_prefixes = []; is_truncated = false; next_marker = "" };
}

-- `ListObjectPage`
unfoldable pub list_object_page : String → ListObjectsOptions → State → ObjectListPage
unfolding sorted_objects_in matching page_loop
list_object_page bucket options s =
    let all = matching options (sorted_objects_in bucket s) in page_loop options all all no_page
