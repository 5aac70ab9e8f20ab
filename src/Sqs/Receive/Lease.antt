-- ===== src/Sqs/Receive/Lease.antt =====
-- The lease of a received message in core/internal/resources/sqs/application/service.go, against
-- the delivery state of application/delivery_state.go.
use Prim.Native.String.compare
use mildstack.Prelude.{
  none, some, some, Option, ℕ, ◌+◌, ◌*◌, ◌/◌, ◌≤◌, ◌<◌, ◌≡◌, refl, ap, ◌∙◌, String, false, ◌==◌,
  leb, arith, if◌then◌else◌, Bool-cases, inl, inr, trim, get_text, get_text-insert,
}
use mildstack.Prelude.Numeral.{ℤ, pos, negsuc, atoi, is_positive, itoa, int64_bound, wrap64}
use mildstack.Prelude.Numeral.RoundTrip.{atoi-itoa, trim-itoa}
use mildstack.Sqs.Domain.{Time, second, Queue, Message}
use mildstack.Sqs.Delivery.{
  is_delayed, is_visible, lease_deadline, visibility_timeout, parse_timeout_seconds,
  lease_timeout_metadata_key, seconds_of,
}
use mildstack.Sqs.Delivery.Laws.{visibility_timeout-pos}
use mildstack.Sqs.Receive.{
  lease_message, queue_visibility_timeout, parse_message_visibility_timeout, stamp_first_receive,
  message_seconds, default_visibility_timeout,
}

seconds_agree : (n : Option ℤ) → message_seconds n ≡ seconds_of n
unfolding message_seconds seconds_of
seconds_agree none = refl
seconds_agree (some (pos n)) = refl
seconds_agree (some (negsuc n)) = refl

parsers_agree :
    (s : String) → (if s == "" then pos 0 else message_seconds (atoi s)) ≡ seconds_of (atoi s)
unfolding atoi
parsers_agree String.[] = unfold seconds_of in refl
parsers_agree (String.◌∷◌ c s) = rw (compare.cons-nil c s) (seconds_agree (atoi (String.◌∷◌ c s)))

-- The two parsers of a visibility timeout agree on every text.
parse_timeouts_agree :
    (raw : String) → parse_message_visibility_timeout raw ≡ parse_timeout_seconds raw
unfolding parse_message_visibility_timeout parse_timeout_seconds
parse_timeouts_agree raw = parsers_agree (trim raw)

-- The timeout that a receive uses, by the parser, the metadata key and the default of the service, is
-- the one by which the delivery state is judged, by its own parser, key and default: for every queue
-- and message, whatever the texts of the two timeouts are.
pub visibility_timeouts_agree :
    (q : Queue) (m : Message) → queue_visibility_timeout q m ≡ visibility_timeout q m
unfolding queue_visibility_timeout visibility_timeout default_visibility_timeout
visibility_timeouts_agree q m =
    rw
      (
        parse_timeouts_agree (get_text lease_timeout_metadata_key m.metadata),
        parse_timeouts_agree (get_text "VisibilityTimeout" q.attributes),
      )
      refl

-- What is stamped at the first receipt is not read as a timeout.
visibility_timeout-stamp :
    (q : Queue) (now : Time) (m : Message)
    → visibility_timeout q (stamp_first_receive now m) ≡ visibility_timeout q m
unfolding visibility_timeout stamp_first_receive
visibility_timeout-stamp q now m =
    elim (Bool-cases (trim (get_text "approximate_first_receive_timestamp" m.metadata) == "")) [
      | inl e ↦ rw (e, get_text-insert)
      | inr e ↦ rw e
    ]

wrap64_of_lt : (k : ℕ) → k < int64_bound → wrap64 k ≡ pos k
unfolding wrap64 int64_bound
wrap64_of_lt k h = ground arith

pub visibility_timeout-of-text :
    (q : Queue) (m : Message) (n : ℕ)
    → get_text lease_timeout_metadata_key m.metadata ≡ itoa n
    → 0 < n * second
    → n * second < int64_bound
    → visibility_timeout q m ≡ n * second
unfolding visibility_timeout parse_timeout_seconds seconds_of is_positive
visibility_timeout-of-text q m n written pos_n fits =
    rw (written, trim-itoa n, atoi-itoa n (unfold second in omega arith), seconds_of)
      (rw (wrap64_of_lt (n * second) fits) (ground arith))

module _ (name : String) (q : Queue) (now : Time) (m : Message) where
  get_text-lease :
      get_text lease_timeout_metadata_key (lease_message name q now m).metadata
      ≡ itoa (visibility_timeout q m / second)
  unfolding lease_message
  get_text-lease = rw (get_text-insert, visibility_timeouts_agree, visibility_timeout-stamp) refl

  received_at-lease : (lease_message name q now m).received_at ≡ now
  unfolding lease_message
  received_at-lease = refl

  available_at-lease : (lease_message name q now m).available_at ≡ m.available_at
  unfolding lease_message stamp_first_receive
  available_at-lease = ground arith

module _ (name : String) (q : Queue) (now : Time) (m : Message) (n : ℕ)
    (whole : visibility_timeout q m ≡ n * second) (fits : n * second < int64_bound) where
  -- The timeout that a lease writes down is read back.
  visibility_timeout-lease : visibility_timeout q (lease_message name q now m) ≡ n * second
  visibility_timeout-lease =
      visibility_timeout-of-text q (lease_message name q now m) n
        (get_text-lease name q now m ∙ ap itoa (rw whole (unfold second in omega arith)))
        (omega (arith, visibility_timeout-pos q m)) fits

  -- A message that was not delayed, leased at a time `now` that is not zero with a timeout of `n`
  -- whole seconds that fit an `int64` of nanoseconds, is hidden from `now` on until they have passed,
  -- and visible from then on.
  pub lease_window :
      0 < now
      → is_delayed m now ≡ false
      → (t : Time) → now ≤ t
      → is_visible (lease_message name q now m) q t ≡ leb (now + n * second) t
  unfolding is_visible is_delayed lease_deadline
  lease_window h d t le =
      rw (visibility_timeout-lease, received_at-lease name q now m, available_at-lease name q now m)
        (ground (arith, visibility_timeout-pos q m))
