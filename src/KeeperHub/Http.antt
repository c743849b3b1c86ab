-- ===== src/KeeperHub/Http.antt =====
-- packages/keeperhub/src/http.ts: the error taxonomy and the backoff.
-- A response holds what `JSON.parse` reads from its body (`none` is text that is no JSON) and how
-- its `retry-after` header reads. The message, the request id and the cut body of an error, which
-- nothing decides on, are left out.
pub mod Delays
use Prim.Native.Nat.{min}
use mathlib.Core.Option
use kp.Common.{
  ℕ, ◌+◌, ◌-◌, ◌*◌, ◌/◌, ◌^◌, Bool, true, false, ◌||◌, Option, none, some, Text, lit, ltb, leb,
  ◌==◌, if◌then◌else◌,
}
use kp.Common.Int.{ℤ, pos, negsuc}
use kp.Common.Numbers.{big}
use kp.KeeperHub.Json.{Json, null, bool, num, str, arr, nil, cons, get, as_text, is_text}

-- How the header's text reads: empty, delta-seconds, an HTTP date (in milliseconds), or neither.
pub data RetryAfter : Type 0 where
  blank : RetryAfter
  seconds : ℕ → RetryAfter
  date : ℕ → RetryAfter
  garbage : RetryAfter

pub record HttpResponse : Type 0 where
  pub status : ℕ
  pub retry_after : Option RetryAfter
  pub body : Option Json

pub data ErrorKind : Type 0 where
  unauthorized forbidden not_found invalid_request payload_too_large rate_limited cold_start
        upstream network timeout unknown :
      ErrorKind

pub record KeeperHubError : Type 0 where
  pub kind : ErrorKind
  pub status : Option ℕ
  pub retryable : Bool
  pub code : Option Text
  pub retry_after_ms : Option ℕ

unfoldable pub parse_retry_after : Option RetryAfter → ℕ → Option ℕ
parse_retry_after none now = none
parse_retry_after (some RetryAfter.blank) now = none
parse_retry_after (some (RetryAfter.seconds s)) now = some (s * 1000)
parse_retry_after (some (RetryAfter.date at)) now = some (at - now)
parse_retry_after (some RetryAfter.garbage) now = none

-- `parsed ?? {}` where parsing failed.
abbrev pub envelope : HttpResponse → Json
envelope r = Option.get_or r.body null

-- `a ?? b`
abbrev pub first_of_two : Option ℕ → Option ℕ → Option ℕ
first_of_two (some a) b = some a
first_of_two none b = b

abbrev pub cold_start_kind : Bool → ErrorKind
cold_start_kind true = ErrorKind.cold_start
cold_start_kind false = ErrorKind.upstream

-- `shared` with a kind, for an error that is not retried.
refusal : ErrorKind → HttpResponse → KeeperHubError
refusal kind r = record {
  kind = kind;
  status = some r.status;
  retryable = false;
  code = as_text (get (lit "code") (envelope r));
  retry_after_ms = none;
}

-- `Number(text) * 1000` for a text that is an integer. A delay that is negative or NaN is no delay, as a
-- timer runs it; of the other texts that `Number` reads, fractions and exponents are left out.
text_delay : Text → ℕ
text_delay s = elim (big s) [ some (pos n) ↦ n * 1000 | some (negsuc n) ↦ 0 | none ↦ 0 ]

-- An array is multiplied as the text of its elements.
element_delay : Json → ℕ
unfolding text_delay
element_delay (num n) = n * 1000
element_delay (str s) = text_delay s
element_delay (arr (cons j nil)) = element_delay j
element_delay _ = 0

-- `retryAfterSeconds === undefined ? undefined : retryAfterSeconds * 1000`
envelope_delay : Option Json → Option ℕ
unfolding element_delay
envelope_delay none = none
envelope_delay (some (bool true)) = some 1000
envelope_delay (some j) = some (element_delay j)

-- `withDelay` with a kind, for an error that is retried.
transient : ErrorKind → HttpResponse → ℕ → KeeperHubError
unfolding envelope_delay
transient kind r now = record {
  kind = kind;
  status = some r.status;
  retryable = true;
  code = as_text (get (lit "code") (envelope r));
  retry_after_ms =
      first_of_two (parse_retry_after r.retry_after now)
        (envelope_delay (get (lit "retryAfterSeconds") (envelope r)));
}

unfoldable pub to_error : HttpResponse → ℕ → KeeperHubError
unfolding refusal transient
to_error r now =
    if r.status == 401
    then refusal ErrorKind.unauthorized r
    else if r.status == 403
    then refusal ErrorKind.forbidden r
    else if r.status == 404
    then refusal ErrorKind.not_found r
    else if r.status == 413
    then refusal ErrorKind.payload_too_large r
    else if r.status == 429
    then transient ErrorKind.rate_limited r now
    else if leb 500 r.status
    then transient
        (cold_start_kind (is_text (get (lit "code") (envelope r)) (lit "upstream_cold_start"))) r
        now
    else if leb 400 r.status
    then refusal ErrorKind.invalid_request r
    else refusal ErrorKind.unknown r

pub record RetryPolicy : Type 0 where
  pub max_attempts : ℕ
  pub base_delay_ms : ℕ
  pub max_delay_ms : ℕ

abbrev pub default_retry : RetryPolicy
default_retry = record { max_attempts = 5; base_delay_ms = 250; max_delay_ms = 20_000 }

-- `random` is the value of `random()` in units of 2^-53; the product is taken exactly.
unfoldable pub backoff_ms : ℕ → RetryPolicy → ℕ → Option ℕ → ℕ
backoff_ms attempt policy random (some delay) = min delay policy.max_delay_ms
backoff_ms attempt policy random none =
    random * min policy.max_delay_ms (policy.base_delay_ms * 2 ^ (attempt - 1)) / 2 ^ 53
