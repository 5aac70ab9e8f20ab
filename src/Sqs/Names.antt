-- ===== src/Sqs/Names.antt =====
-- core/internal/resources/sqs/application/service.go: the URL and the ARN of a queue, and what an
-- ARN and a redrive policy name; with the constants of core/internal/resources/awscontext/context.go.
use Prim.Native.Char.{code}
use Prim.Native.String.{◌++◌}
use mildstack.Prelude.{
  ℕ, String, ◌==◌, Bool, true, not, ◌&&◌, ◌||◌, Option, none, some, List, [], ◌∷◌, Map,
  if◌then◌else◌, trim, leb, ltb, eqb, get_text, insert, length, equal_fold,
}
use mildstack.Sqs.Domain.{QueueRecovery}
use mildstack.Sqs.Service.{Env}

abbrev pub default_account_id : String
default_account_id = "00000000000"

abbrev pub default_region : String
default_region = "us-east-1"

abbrev pub default_partition : String
default_partition = "aws"

abbrev pub default_endpoint : String
default_endpoint = "http://127.0.0.1:4566"

-- `ownerAccountMatches`
unfoldable pub owner_account_matches : String → Bool
owner_account_matches owner = if trim owner == "" then true else trim owner == default_account_id

-- The account of `awscontext.Default()`, or of its `WithAccountID`.
unfoldable pub account_for : String → String
account_for owner = if trim owner == "" then default_account_id else trim owner

unfoldable pub queue_url_for_account : String → String → String
unfolding account_for
queue_url_for_account queue_name owner =
    if trim queue_name == ""
    then ""
    else default_endpoint ++ "/" ++ account_for owner ++ "/" ++ trim queue_name

unfoldable pub queue_arn_for_account : String → String → String
unfolding account_for
queue_arn_for_account queue_name owner =
    if trim queue_name == ""
    then ""
    else "arn:"
      ++ default_partition
      ++ ":sqs:"
      ++ default_region
      ++ ":"
      ++ account_for owner
      ++ ":"
      ++ trim queue_name

-- `strings.Split` by one ASCII character: the first part, and the parts behind it.
unfoldable pub split_at : ℕ → String → String × List String
split_at sep String.[] = ("", [])
split_at sep (String.◌∷◌ c s) =
    let (first, rest) = split_at sep s in
    if eqb (code c) sep then ("", first ∷ rest) else (String.◌∷◌ c first, rest)

-- The last two parts of a list.
unfoldable pub last_two : String → String → List String → String × String
last_two a b [] = (a, b)
last_two a b (c ∷ rest) = last_two b c rest

-- `queueNameAndAccountFromARN`; `none` is an error.
unfoldable pub queue_name_and_account_from_arn : String → Option (String × String)
unfolding split_at last_two
queue_name_and_account_from_arn raw =
    let (scheme, parts) = split_at b':' (trim raw) in
    let (account, name) = last_two "" scheme parts in
    if trim raw == ""
    then none
    else if ltb (length parts) 5 || not (scheme == "arn")
    then none
    else if trim account == "" || trim name == ""
    then none
    else some (trim name, trim account)

-- The loop of `camelToSnake`, behind the first character.
unfoldable pub snake_rest : String → String
snake_rest String.[] = ""
snake_rest (String.◌∷◌ c s) =
    if leb b'A' (code c) && leb (code c) b'Z'
    then "_" ++ String.◌∷◌ c (snake_rest s)
    else String.◌∷◌ c (snake_rest s)

unfoldable pub camel_to_snake : Env → String → String
unfolding snake_rest
camel_to_snake env String.[] = ""
camel_to_snake env (String.◌∷◌ c s) = env.to_lower (String.◌∷◌ c (snake_rest s))

unfoldable pub snake_keys : Env → Map String → Map String → Map String
unfolding camel_to_snake
snake_keys env policy [] = policy
snake_keys env policy ((key, value) ∷ rest) =
    snake_keys env (insert (camel_to_snake env key) value policy) rest

name_of : Option (String × String) → String
name_of none = ""
name_of (some (name, account)) = name

unfoldable pub recovery_of_policy : Map String → QueueRecovery
unfolding name_of
recovery_of_policy policy =
    let target = trim (get_text "dead_letter_target_arn" policy) in
    record {
      dead_letter_queue =
          if target == "" then "" else name_of (queue_name_and_account_from_arn target);
      policy = policy;
    }

unfoldable pub queue_recovery_from_attributes : Env → Map String → QueueRecovery
unfolding recovery_of_policy
queue_recovery_from_attributes env attributes =
    let raw = trim (get_text "RedrivePolicy" attributes) in
    if raw == ""
    then record { dead_letter_queue = ""; policy = [] }
    else elim (env.decode_object raw) [
      | none ↦ record { dead_letter_queue = ""; policy = ("raw", raw) ∷ [] }
      | some parsed ↦ recovery_of_policy (snake_keys env [] parsed)
    ]

unfoldable pub ordering_hint_from_attributes : Map String → String → String
ordering_hint_from_attributes attributes fallback =
    if equal_fold (trim (get_text "FifoQueue" attributes)) "true"
    then "fifo"
    else if equal_fold fallback "fifo"
    then "fifo"
    else "standard"
