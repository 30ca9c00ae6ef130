-- ===== src/Interceptor.antt =====
-- src/common/interceptors/logging.interceptor.ts: what is observed and logged of a request. The
-- texts of the messages and the ids of the trace are left out. A path is a list of code points.
pub mod Path
pub mod Status
mod Examples
use sky_high_core.Common.{
  ℕ, zero, suc, ◌-◌, String, Bool, true, false, ◌&&◌, ◌||◌, Option, none, some, List, [], ◌∷◌, ◌++◌,
  ◌==◌, leb, if◌then◌else◌,
}
use text.Mathlib.Text.{◌==◌ as str_eq}

-- A value in a JSON body: a text, or another value with its truth and what `String` makes of it.
pub data Value : Type 0 where
  string : String → Value
  other : (is_truthy : Bool) (as_text : String) → Value

pub record Params : Type 0 where
  pub flight_id : Option String
  pub check_in_id : Option String
  pub waitlist_id : Option String

pub record Body : Type 0 where
  pub flight_id : Option Value
  pub seat_id : Option Value

pub record Request : Type 0 where
  pub method : String
  pub url : List ℕ
  pub route_path : Option (List ℕ)
  pub params : Params
  pub body : Option Body
  pub user_sub : Option String

pub record DomainFields : Type 0 where
  pub flight_id : Option String
  pub check_in_id : Option String
  pub waitlist_id : Option String
  pub seat_id : Option String
  pub passenger_id : Option String

-- A text under `if (text)`: undefined and "" are falsy.
abbrev truthy : Option String → Option String
truthy none = none
truthy (some s) = if str_eq s "" then none else some s

abbrev truthy_value : Option Value → Option String
truthy_value none = none
truthy_value (some (string s)) = truthy (some s)
truthy_value (some (other is_truthy as_text)) = if is_truthy then some as_text else none

-- A field that is assigned again, if there is something to assign.
abbrev or_else : Option String → Option String → Option String
or_else none old = old
or_else (some new) old = some new

abbrev body_flight_id : Option Body → Option String
body_flight_id none = none
body_flight_id (some body) = truthy_value body.flight_id

abbrev body_seat_id : Option Body → Option String
body_seat_id none = none
body_seat_id (some body) = truthy_value body.seat_id

pub extract_domain_fields : Request → DomainFields
extract_domain_fields request = record {
  flight_id = or_else (body_flight_id request.body) (truthy request.params.flight_id);
  check_in_id = truthy request.params.check_in_id;
  waitlist_id = truthy request.params.waitlist_id;
  seat_id = body_seat_id request.body;
  passenger_id = truthy request.user_sub;
}

-- The pieces of the regular expression after its slash; case is ignored.
pub data Piece : Type 0 where
  hex dash : Piece

pub is_piece : Piece → ℕ → Bool
is_piece hex c =
    (leb b'0' c && leb c b'9') || ((leb b'a' c && leb c b'f') || (leb b'A' c && leb c b'F'))
is_piece dash c = c == b'-'

abbrev four : List Piece
four = hex ∷ hex ∷ hex ∷ hex ∷ []

abbrev pub uuid : List Piece
uuid =
    four
    ++ (four
        ++ (dash
            ∷ (four ++ (dash ∷ (four ++ (dash ∷ (four ++ (dash ∷ (four ++ (four ++ four))))))))))

pub begins_with : List Piece → List ℕ → Bool
unfolding is_piece
begins_with [] s = true
begins_with (p ∷ ps) [] = false
begins_with (p ∷ ps) (c ∷ s) = is_piece p c && begins_with ps s

-- "/:id"
abbrev pub id_label : List ℕ
id_label = b'/' ∷ b':' ∷ b'i' ∷ b'd' ∷ []

-- The scan of `replace`, with the number of characters of the last match that are left.
pub replace_uuids : ℕ → List ℕ → List ℕ
unfolding begins_with
replace_uuids k [] = []
replace_uuids (suc k) (c ∷ s) = replace_uuids k s
replace_uuids zero (c ∷ s) =
    if c == b'/' && begins_with uuid s
    then id_label ++ replace_uuids 36 s
    else c ∷ replace_uuids 0 s

pub normalize_path : List ℕ → List ℕ
unfolding replace_uuids
normalize_path path = replace_uuids 0 path

-- How `next.handle()` ends: with a value, or with an error.
pub data Ending : Type 0 where
  next error : Ending

pub record Observation : Type 0 where
  pub method : String
  pub path : List ℕ
  pub status : ℕ
  pub duration : ℕ

pub data Level : Type 0 where
  log_level error_level : Level

pub record LogEntry : Type 0 where
  pub level : Level
  pub method : String
  pub path : List ℕ
  pub status_code : Option ℕ
  pub duration_ms : Option ℕ
  pub fields : DomainFields

abbrev or_url : Option (List ℕ) → List ℕ → List ℕ
or_url none url = url
or_url (some path) url = path

-- The status that is reported when the response has a status code.
abbrev reported : Ending → ℕ → ℕ
reported next status_code = status_code
reported error status_code = if leb 400 status_code then status_code else 500

abbrev level_of : Ending → Level
level_of next = log_level
level_of error = error_level

-- What `httpRequestDurationSeconds` observes, in milliseconds, and the log in order.
pub intercept :
    Request → (start finish : ℕ) → Ending → (status_code : ℕ) → Observation × List LogEntry
unfolding normalize_path extract_domain_fields
intercept request start finish ending status_code = (
  record {
    method = request.method;
    path = normalize_path (or_url request.route_path request.url);
    status = reported ending status_code;
    duration = finish - start;
  },
  record {
    level = log_level;
    method = request.method;
    path = request.url;
    status_code = none;
    duration_ms = none;
    fields = extract_domain_fields request;
  }
      ∷ record {
        level = level_of ending;
        method = request.method;
        path = request.url;
        status_code = some (reported ending status_code);
        duration_ms = some (finish - start);
        fields = extract_domain_fields request;
      }
      ∷ [],
)
