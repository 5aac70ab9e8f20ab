-- ===== src/S3/BucketName.antt =====
-- core/internal/resources/s3/application/service_buckets.go: `isValidBucketName`.
use Prim.Native.Char.{Char, code}
use mildstack.Prelude.{
  ℕ, String, ◌==◌, Bool, true, false, not, ◌&&◌, ◌||◌, List, [], ◌∷◌, if◌then◌else◌, leb, ltb, eqb,
  length,
}
use mildstack.Prelude.Numeral.{is_digit}
use mildstack.Sqs.Names.{split_at}
use mildstack.S3.VersionId.{text_length}

abbrev is_lower : Char → Bool
is_lower c = leb b'a' (code c) && leb (code c) b'z'

-- `[a-z0-9]`
unfoldable pub is_name_end : Char → Bool
unfolding is_digit
is_name_end c = is_lower c || is_digit c

-- `[a-z0-9.-]`
unfoldable pub is_name_char : Char → Bool
unfolding is_name_end
is_name_char c = is_name_end c || eqb (code c) b'.' || eqb (code c) b'-'

-- The pattern behind its first character.
unfoldable pub matches_rest : String → Bool
unfolding is_name_char is_name_end
matches_rest String.[] = false
matches_rest (String.◌∷◌ c String.[]) = is_name_end c
matches_rest (String.◌∷◌ c (String.◌∷◌ d s)) = is_name_char c && matches_rest (String.◌∷◌ d s)

-- `bucketNamePattern.MatchString`, of a name of 3 to 63 characters
unfoldable pub matches_pattern : String → Bool
unfolding matches_rest is_name_end
matches_pattern String.[] = false
matches_pattern (String.◌∷◌ c s) = is_name_end c && matches_rest s

-- `strings.Contains(s, …)` of two characters
unfoldable pub contains_pair : ℕ → ℕ → String → Bool
contains_pair a b String.[] = false
contains_pair a b (String.◌∷◌ c String.[]) = false
contains_pair a b (String.◌∷◌ c (String.◌∷◌ d s)) =
    eqb (code c) a && eqb (code d) b || contains_pair a b (String.◌∷◌ d s)

unfoldable pub has_lower : String → Bool
has_lower String.[] = false
has_lower (String.◌∷◌ c s) = is_lower c || has_lower s

unfoldable pub all_digits : String → Bool
unfolding is_digit
all_digits String.[] = true
all_digits (String.◌∷◌ c s) = is_digit c && all_digits s

-- The loop over the parts: `false` at an empty part, or where every part is a number.
unfoldable pub parts_allowed : List String → Bool
unfolding all_digits
parts_allowed [] = false
parts_allowed (part ∷ parts) =
    let rest = parts_allowed parts in
    if part == "" then false else if all_digits part then rest else true

-- Of the characters that the pattern admits, `unicode.IsLetter` accepts those of `has_lower`.
unfoldable pub is_valid_bucket_name : String → Bool
unfolding text_length matches_pattern contains_pair has_lower split_at parts_allowed
is_valid_bucket_name name =
    let (first, rest) = split_at b'.' name in
    if ltb (text_length name) 3 || ltb 63 (text_length name)
    then false
    else if not (matches_pattern name)
    then false
    else if contains_pair b'.' b'.' name
        || contains_pair b'.' b'-' name
        || contains_pair b'-' b'.' name
    then false
    else if not (has_lower name)
    then false
    else if eqb (length (first ∷ rest)) 4 && not (parts_allowed (first ∷ rest))
    then false
    else true
