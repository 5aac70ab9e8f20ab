-- ===== src/S3/Listing/Coverage.antt =====
-- core/internal/resources/s3/domain/state.go: which keys a page of objects covers.
use mathlib.Core.Path.{subst}
use Prim.Native.String.{◌++◌ as ◌<>◌}
use Prim.Native.String.append
use mildstack.Prelude.{
  ◌∙◌, sym, eq_iff, String, ◌==◌, Bool, true, false, ◌||◌, Option, none, some, List, [], ◌∷◌, ◌++◌,
  if◌then◌else◌, ◌≡◌, refl, arith, leb, All, Option-cases, Bool-cases, inl, inr, eq_refl,
}
use mildstack.S3.Domain.{Object, State}
use mildstack.S3.Listing.{
  ListObjectsOptions, ObjectListPage, PageState, page_step, page_loop, list_object_page,
  normalized_max_keys, with_object, with_group, group_of, is_skipped, drop_prefix, has_prefix,
  through_delimiter, is_among, object_at, no_page, matching, sorted_objects_in,
}

-- Some common prefix of the page is a prefix of the key.
unfoldable pub any_prefix : String → List String → Bool
any_prefix key [] = false
any_prefix key (p ∷ ps) = has_prefix key p || any_prefix key ps

unfoldable pub any_key : String → List Object → Bool
any_key key [] = false
any_key key (o ∷ os) = o.key == key || any_key key os

-- The key is that of an object of the page, or falls under one of its common prefixes.
unfoldable pub is_covered : ObjectListPage → String → Bool
unfolding any_prefix any_key
is_covered page key = any_key key page.objects || any_prefix key page.common_prefixes

any_key-append :
    (key : String) (os ps : List Object)
    → any_key key (os ++ ps) ≡ (any_key key os || any_key key ps)
unfolding any_key
any_key-append key [] ps = refl
any_key-append key (o ∷ os) ps = ground (arith, any_key-append key os ps)

any_prefix-append :
    (key : String) (ps qs : List String)
    → any_prefix key (ps ++ qs) ≡ (any_prefix key ps || any_prefix key qs)
unfolding any_prefix
any_prefix-append key [] qs = refl
any_prefix-append key (p ∷ ps) qs = ground (arith, any_prefix-append key ps qs)

any_prefix-is_among :
    (key prefix : String) (ps : List String)
    → is_among prefix ps ≡ true
    → has_prefix key prefix ≡ true
    → any_prefix key ps ≡ true
unfolding any_prefix is_among
any_prefix-is_among key prefix [] h p = ground arith
any_prefix-is_among key prefix (q ∷ qs) h p =
    ground (arith, eq_iff q prefix, any_prefix-is_among key prefix qs)

-- The part up to the delimiter is a prefix.
through_delimiter-prefix :
    (delimiter s group : String)
    → through_delimiter delimiter s ≡ some group
    → has_prefix s group ≡ true
unfolding through_delimiter has_prefix drop_prefix
through_delimiter-prefix delimiter String.[] group h = ground arith
through_delimiter-prefix delimiter (String.◌∷◌ c s) group h =
    elim (Bool-cases (has_prefix (String.◌∷◌ c s) delimiter)) [
      | inl e ↦ ground arith
      | inr e ↦ elim (Option-cases (through_delimiter delimiter s)) [
        | inl n ↦ ground arith
        | inr (later, l) ↦
            let whole : String.◌∷◌ c later ≡ group = ground arith in
            subst (λ g. has_prefix (String.◌∷◌ c s) g ≡ true) whole
              (ground (arith, through_delimiter-prefix delimiter s later l))
      ]
    ]

has_prefix-append :
    (key prefix rest group : String)
    → drop_prefix key prefix ≡ some rest
    → has_prefix rest group ≡ true
    → has_prefix key (prefix <> group) ≡ true
unfolding has_prefix drop_prefix
has_prefix-append key String.[] rest group h g = rw (append.nil group) (ground arith)
has_prefix-append String.[] (String.◌∷◌ d t) rest group h g = ground arith
has_prefix-append (String.◌∷◌ c s) (String.◌∷◌ d t) rest group h g =
    rw (append.cons d t group) (ground (arith, has_prefix-append s t rest group))

group_of-prefix :
    (options : ListObjectsOptions) (key prefix : String)
    → group_of options key ≡ some prefix
    → has_prefix key prefix ≡ true
unfolding group_of
group_of-prefix options key prefix h = elim (Option-cases (drop_prefix key options.prefix)) [
  | inl e ↦ ground arith
  | inr (suffix, e) ↦ elim (Option-cases (through_delimiter options.delimiter suffix)) [
    | inl n ↦ ground arith
    | inr (group, l) ↦
        let whole : options.prefix <> group ≡ prefix = ground arith in
        subst (λ g. has_prefix key g ≡ true) whole
          (has_prefix-append key options.prefix suffix group e
            (through_delimiter-prefix options.delimiter suffix group l))
  ]
]

object_at-key : (o : Object) (all : List Object) → (object_at o all).key ≡ o.key
unfolding object_at
object_at-key o [] = refl
object_at-key o (p ∷ ps) =
    object_at-key (if p.key == o.key then p else o) ps ∙ ground (arith, eq_iff p.key o.key)

is_among-append :
    (prefix : String) (ps : List String) → is_among prefix (ps ++ (prefix ∷ [])) ≡ true
unfolding is_among
is_among-append prefix [] = ground (arith, eq_refl prefix)
is_among-append prefix (p ∷ ps) = ground (arith, is_among-append prefix ps)

-- What is passed over falls under a common prefix of the page.
abbrev IsGrouped : Option String → List String → Type 0
IsGrouped none groups = Unit
IsGrouped (some prefix) groups = is_among prefix groups ≡ true

-- A step covers its key, and all that was covered.
abbrev Covers : PageState → Object → Option PageState → Type 0
Covers st o none = Unit
Covers st o (some next) =
    IsGrouped next.skipping next.page.common_prefixes
    × (is_covered next.page o.key ≡ true)
    × ((key : String) → is_covered st.page key ≡ true → is_covered next.page key ≡ true)

Covers-if :
    (st : PageState) (o : Object) (test : Bool) (x y : Option PageState)
    → (test ≡ true → Covers st o x)
    → (test ≡ false → Covers st o y)
    → Covers st o (if test then x else y)
Covers-if st o true x y hx hy = hx refl
Covers-if st o false x y hx hy = hy refl

Covers-group :
    (st : PageState) (o : Object) (found : Option String) (x : Option PageState)
    (f : String → Option PageState)
    → Covers st o x
    → ((prefix : String) → found ≡ some prefix → Covers st o (f prefix))
    → Covers st o (elim found as (λ y. Option PageState) [ none ↦ x | some prefix ↦ f prefix ])
Covers-group st o none x f hx hf = hx
Covers-group st o (some prefix) x f hx hf = hf prefix refl

with_object-Covers :
    (all : List Object) (o : Object) (st : PageState) → Covers st o (some (with_object all o st))
unfolding with_object is_covered any_key
with_object-Covers all o st =
    let added = object_at o all ∷ [] in
    (
      tt,
      ground (
        arith,
        any_key-append o.key st.page.objects added,
        object_at-key o all,
        eq_iff (object_at o all).key o.key,
      ),
      λ key h. ground (arith, h, any_key-append key st.page.objects added),
    )

with_group-Covers :
    (prefix : String) (o : Object) (st : PageState)
    → has_prefix o.key prefix ≡ true
    → Covers st o (some (with_group prefix o.key st))
unfolding with_group is_covered any_prefix
with_group-Covers prefix o st p =
    let added = prefix ∷ [] in
    (
      is_among-append prefix st.page.common_prefixes,
      ground (arith, any_prefix-append o.key st.page.common_prefixes added),
      λ key h. ground (arith, h, any_prefix-append key st.page.common_prefixes added),
    )

covered_by_group :
    (prefix key : String) (page : ObjectListPage)
    → is_among prefix page.common_prefixes ≡ true
    → has_prefix key prefix ≡ true
    → is_covered page key ≡ true
unfolding is_covered
covered_by_group prefix key page a p =
    ground (arith, any_prefix-is_among key prefix page.common_prefixes a p)

covered_by_skipping :
    (skipping : Option String) (key : String) (page : ObjectListPage)
    → IsGrouped skipping page.common_prefixes
    → is_skipped skipping key ≡ true
    → is_covered page key ≡ true
covered_by_skipping none key page g s = ground arith
covered_by_skipping (some prefix) key page g s = covered_by_group prefix key page g s

page_step-Covers :
    (options : ListObjectsOptions) (all : List Object) (o : Object) (st : PageState)
    → IsGrouped st.skipping st.page.common_prefixes
    → Covers st o (page_step options all o st)
unfolding page_step is_covered
page_step-Covers options all o st grouped =
    let full = leb (normalized_max_keys options.max_keys) st.count in
    Covers-if st o (is_skipped st.skipping o.key) _ _
      (λ e. (grouped, covered_by_skipping st.skipping o.key st.page grouped e, λ key h. h))
      (λ e.
        Covers-group st o (group_of options o.key) _ _
          (Covers-if st o full none (some (with_object all o st)) (λ f. tt)
            (λ f. with_object-Covers all o st))
          (λ prefix g.
            Covers-if st o (is_among prefix st.page.common_prefixes) _ _
              (λ a. (
                a,
                covered_by_group prefix o.key st.page a (group_of-prefix options o.key prefix g),
                λ key h. h,
              ))
              (λ a.
                Covers-if st o full none (some (with_group prefix o.key st)) (λ f. tt)
                  (λ f. with_group-Covers prefix o st (group_of-prefix options o.key prefix g)))))

abbrev Covered : ObjectListPage → List Object → ObjectListPage → Type 0
Covered before os page =
    All (λ o. is_covered page o.key ≡ true) os
    × ((key : String) → is_covered before key ≡ true → is_covered page key ≡ true)

page_loop-covers :
    (options : ListObjectsOptions) (all os : List Object) (st : PageState)
    → IsGrouped st.skipping st.page.common_prefixes
    → (page_loop options all os st).is_truncated ≡ false
    → Covered st.page os (page_loop options all os st)
unfolding page_loop
page_loop-covers options all [] st grouped whole = (tt, λ key h. h)
page_loop-covers options all (o ∷ os) st grouped whole =
    elim (Option-cases (page_step options all o st)) [
      | inl e ↦ ground arith
      | inr (next, e) ↦
          let (grouped_next, covered, more) =
            subst (Covers st o) e (page_step-Covers options all o st grouped) in
          let rest = page_loop-covers options all os next grouped_next (ground arith) in
          let one : page_loop options all (o ∷ os) st ≡ page_loop options all os next =
            rw (e, page_loop) refl in
          subst (Covered st.page (o ∷ os)) (sym one)
            ((rest.1 o.key covered, rest.0), λ key h. rest.1 key (more key h))
    ]

-- A page of objects that is not truncated covers every object of the bucket that has the prefix and
-- lies behind the start: it is in the page, or falls under one of its common prefixes.
pub list_object_page-covers :
    (bucket : String) (options : ListObjectsOptions) (s : State)
    → (list_object_page bucket options s).is_truncated ≡ false
    → All
        (λ o. is_covered (list_object_page bucket options s) o.key ≡ true)
        (matching options (sorted_objects_in bucket s))
unfolding list_object_page
list_object_page-covers bucket options s whole =
    let all = matching options (sorted_objects_in bucket s) in
    (page_loop-covers options all all no_page tt whole).0
