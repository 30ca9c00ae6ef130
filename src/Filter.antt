-- ===== src/Filter.antt =====
-- src/common/filters: the problem details (RFC 7807) that a client gets for an exception.
pub mod Statuses
mod Examples
use Prim.Native.String.{◌++◌ as append}
use text.Mathlib.Text.{◌==◌ as str_eq}
use sky_high_core.Common.{ℕ, String, Bool, Option, none, some, List, [], ◌∷◌, if◌then◌else◌, ◌==◌}
use sky_high_core.Domain.Errors.{
  DomainError, seat_already_held, hold_expired, payment_required, flight_not_found, seat_not_found,
  check_in_not_found, already_checked_in, already_on_waitlist, cancellation_not_allowed,
  waitlist_not_found, rate_limit_exceeded,
}

pub record ErrorType : Type 0 where
  pub type : String
  pub title : String
  pub status : ℕ

abbrev base_problem_uri : String
base_problem_uri = "https://skyhigh.com/problems"

abbrev build_error_type : String → String → ℕ → ErrorType
build_error_type slug title status = record {
  type = append base_problem_uri (append "/" slug);
  title = title;
  status = status;
}

-- The type that each subclass of `DomainException` hands to its constructor.
pub error_type_of : DomainError → ErrorType
error_type_of seat_already_held = build_error_type "seat-already-held" "Seat Already Held" 409
error_type_of hold_expired = build_error_type "hold-expired" "Hold Expired" 410
error_type_of payment_required = build_error_type "payment-required" "Payment Required" 402
error_type_of flight_not_found = build_error_type "flight-not-found" "Flight Not Found" 404
error_type_of seat_not_found = build_error_type "seat-not-found" "Seat Not Found" 404
error_type_of check_in_not_found = build_error_type "checkin-not-found" "Check-In Not Found" 404
error_type_of already_checked_in = build_error_type "already-checked-in" "Already Checked In" 409
error_type_of already_on_waitlist = build_error_type "already-on-waitlist" "Already On Waitlist" 409
error_type_of waitlist_not_found =
    build_error_type "waitlist-not-found" "Waitlist Entry Not Found" 404
error_type_of cancellation_not_allowed =
    build_error_type "cancellation-not-allowed" "Cancellation Not Allowed" 403
error_type_of rate_limit_exceeded = build_error_type "rate-limit-exceeded" "Rate Limit Exceeded" 429

abbrev internal_error : ErrorType
internal_error = build_error_type "internal-error" "Internal Server Error" 500

abbrev not_found : ErrorType
not_found = build_error_type "not-found" "Not Found" 404

abbrev conflict : ErrorType
conflict = build_error_type "conflict" "Conflict" 409

-- The entry of `STATUS_ERROR_TYPE_MAP` under a status.
pub status_error_type_map : ℕ → Option ErrorType
unfolding error_type_of
status_error_type_map status =
    if status == 400
    then some (build_error_type "bad-request" "Bad Request" 400)
    else if status == 401
    then some (build_error_type "unauthorized" "Unauthorized" 401)
    else if status == 402
    then some (error_type_of payment_required)
    else if status == 403
    then some (error_type_of cancellation_not_allowed)
    else if status == 404
    then some not_found
    else if status == 409
    then some conflict
    else if status == 410
    then some (error_type_of hold_expired)
    else if status == 429
    then some (error_type_of rate_limit_exceeded)
    else if status == 500
    then some internal_error
    else none

-- The `message` of a response body: a text or, from the validation, a list of them.
pub data RawDetail : Type 0 where
  one : String → RawDetail
  many : List String → RawDetail

-- What `getResponse()` gives: a text, or an object that may have a `message`.
pub data Body : Type 0 where
  plain : String → Body
  json : Option RawDetail → Body

-- What a handler can throw, by the classes that the filter tells apart.
pub data Thrown : Type 0 where
  domain_exception : DomainError → (message : String) → Thrown
  http_exception : (status : ℕ) → Body → (message : String) → Thrown
  query_failed : (code : Option String) → Thrown
  entity_not_found : Thrown
  error : (message : String) → Thrown
  anything_else : Thrown

pub record ProblemDetails : Type 0 where
  pub type : String
  pub title : String
  pub status : ℕ
  pub detail : String
  pub instance_url : String

-- `rawDetail.join("; ")`
abbrev join : List String → String
join [] = ""
join (x ∷ []) = x
join (x ∷ y ∷ ys) = append x (append "; " (join (y ∷ ys)))

abbrev raw_detail : Body → String → RawDetail
raw_detail (plain s) message = one s
raw_detail (json none) message = one message
raw_detail (json (some d)) message = d

abbrev to_detail : RawDetail → String
to_detail (one s) = s
to_detail (many ss) = join ss

abbrev or_internal : Option ErrorType → ErrorType
or_internal none = internal_error
or_internal (some t) = t

pub resolve_http_exception : ℕ → Body → String → ErrorType × String
unfolding status_error_type_map
resolve_http_exception status body message =
    (or_internal (status_error_type_map status), to_detail (raw_detail body message))

pub resolve_query_failed_error : Option String → ErrorType × String
resolve_query_failed_error none = (internal_error, "A database error occurred")
resolve_query_failed_error (some code) =
    if str_eq code "23505"
    then (conflict, "A resource with the given identifier already exists")
    else (internal_error, "A database error occurred")

pub resolve_exception : Thrown → ErrorType × String
unfolding error_type_of resolve_http_exception resolve_query_failed_error
resolve_exception (domain_exception e message) = (error_type_of e, message)
resolve_exception (http_exception status body message) = resolve_http_exception status body message
resolve_exception (query_failed code) = resolve_query_failed_error code
resolve_exception entity_not_found = (not_found, "The requested resource was not found")
resolve_exception (error message) = (internal_error, message)
resolve_exception anything_else = (internal_error, "An unexpected error occurred")

-- The status of the response, and its body.
pub catch : Thrown → String → ℕ × ProblemDetails
unfolding resolve_exception
catch exception url =
    let (error_type, detail) = resolve_exception exception in
    (
      error_type.status,
      record {
        type = error_type.type;
        title = error_type.title;
        status = error_type.status;
        detail = detail;
        instance_url = url;
      },
    )
