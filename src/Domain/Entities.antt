-- ===== src/Domain/Entities.antt =====
-- src/*/*.entity.ts: the rows of the tables. Columns that no method reads are left out
-- (`updated_at`, and `created_at` where it is never read), and so are the relation fields.
use sky_high_core.Common.{ℕ, String, Option, Bool, ◌&&◌, ◌==◌}
use sky_high_core.Domain.Enums.{
  SeatStatus, CheckInStatus, WaitlistStatus, FlightStatus, AuditAction,
}

pub record AircraftType : Type 0 where
  pub id : ℕ
  pub name : String
  pub rows : ℕ
  pub columns : String

-- `aircraft_type` is the joined relation.
pub record Flight : Type 0 where
  pub id : ℕ
  pub flight_number : String
  pub aircraft_type : AircraftType
  pub departure_time : ℕ
  pub status : FlightStatus

-- `column` is one character, by its code.
pub record Seat : Type 0 where
  pub id : ℕ
  pub flight_id : ℕ
  pub row : ℕ
  pub column : ℕ
  pub status : SeatStatus
  pub held_by : Option ℕ
  pub held_at : Option ℕ

-- `baggage_weight` and `excess_fee` are the stored numerals, in the unit of the baggage model.
pub record CheckIn : Type 0 where
  pub id : ℕ
  pub passenger_id : ℕ
  pub flight_id : ℕ
  pub seat_id : Option ℕ
  pub status : CheckInStatus
  pub baggage_weight : Option ℕ
  pub excess_fee : Option ℕ
  pub payment_id : Option String
  pub created_at : ℕ

pub record Waitlist : Type 0 where
  pub id : ℕ
  pub flight_id : ℕ
  pub passenger_id : ℕ
  pub position : ℕ
  pub status : WaitlistStatus
  pub created_at : ℕ

-- `@Unique('UQ_seat_flight_row_column')`
abbrev pub same_place : Seat → Seat → Bool
same_place a b = a.flight_id == b.flight_id && a.row == b.row && a.column == b.column

-- `@Unique('UQ_checkin_passenger_flight')`
abbrev pub same_booking : CheckIn → CheckIn → Bool
same_booking a b = a.passenger_id == b.passenger_id && a.flight_id == b.flight_id

-- `@Unique('UQ_waitlist_flight_passenger')`
abbrev pub same_entry : Waitlist → Waitlist → Bool
same_entry a b = a.flight_id == b.flight_id && a.passenger_id == b.passenger_id

-- Which kind of entity an audit row is about, and the states that it names.
pub data EntityType : Type 0 where
  seat check_in waitlist payment : EntityType

pub data AuditState : Type 0 where
  of_seat : SeatStatus → AuditState
  of_check_in : CheckInStatus → AuditState
  of_waitlist : WaitlistStatus → AuditState
  requested confirmed : AuditState

-- The JSON `metadata`: the members that a row carries, the others absent.
pub data Metadata : Type 0 where
  hold : (flight_id check_in_id : ℕ) → Metadata
  release : (flight_id : ℕ) → Metadata
  cancellation : (flight_id check_in_id : ℕ) → Metadata
  cancelled_flight : (flight_id : ℕ) → Metadata
  confirmation : (flight_id check_in_id : ℕ) → Metadata
  completion : (flight_id : ℕ) → Option String → Metadata
  joining : (flight_id position : ℕ) → Metadata
  assignment : (flight_id seat_id passenger_id check_in_id : ℕ) → Metadata
  charge : (amount : ℕ) (currency : String) → Metadata
  receipt : (amount : ℕ) (currency : String) → Option String → Metadata

pub record AuditLog : Type 0 where
  pub entity_type : EntityType
  pub entity_id : ℕ
  pub action : AuditAction
  pub from_state : Option AuditState
  pub to_state : AuditState
  pub actor_id : ℕ
  pub metadata : Metadata
