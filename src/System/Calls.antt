-- ===== src/System/Calls.antt =====
-- Runs of the program: calls of its methods, one after another, each with other calls beside it.
use sky_high_core.Common.{ℕ, ◌≡◌, refl, inl, inr, Option, List, ◌∷◌, ◌++◌, arith, Bool-cases}
use sky_high_core.Domain.Entities.{AuditLog}
use sky_high_core.Platform.Backend.{Backend}
use sky_high_core.Platform.World.{World}
use sky_high_core.Audit
use sky_high_core.Baggage.{BaggageConfig}
use sky_high_core.Payment.{PaymentConfig, Reply}
use sky_high_core.CheckIn.Start.{start_check_in}
use sky_high_core.CheckIn.Start.Stepping.{start_check_in-Moved}
use sky_high_core.CheckIn.Confirm.{confirm_check_in}
use sky_high_core.CheckIn.Confirm.Stepping.{confirm_check_in-Moved}
use sky_high_core.CheckIn.Cancel.{cancel_check_in}
use sky_high_core.CheckIn.Cancel.Stepping.{cancel_check_in-Moved}
use sky_high_core.Expiry.Release.{handle_hold_expired, sweep_expired_holds}
use sky_high_core.Expiry.Release.Stepping.{handle_hold_expired-Steps, sweep_expired_holds-Steps}
use sky_high_core.Waitlist.Queue.{join_waitlist, leave_waitlist}
use sky_high_core.Waitlist.Queue.Stepping.{join_waitlist-Moved, leave_waitlist-Moved}
use sky_high_core.Waitlist.Assign.{process_waitlist, handle_waitlist_hold_expiry}
use sky_high_core.Waitlist.Assign.Stepping.{
  process_waitlist-Steps, handle_waitlist_hold_expiry-Steps,
}
use sky_high_core.System.{Steps, Moves, stay, append, one, ending, log_later}
use sky_high_core.System.Motion.{steps}
use sky_high_core.System.Seats.{SeatsCoherent, Steps-SeatsCoherent}
use sky_high_core.System.Bookings.{OneBooking, Steps-OneBooking}
use sky_high_core.System.Waiters.{PassengersStored, Steps-PassengersStored}
use sky_high_core.System.Entries.{OneEntry, Steps-OneEntry}

-- A call of a method that writes to the tables, or a change of the rest of the state.
pub data Call (be : Backend) (w : World be) : World be → Type 0 where
  starts :
      (meanwhile : World be → World be) (moves : Moves be meanwhile) (p f s : ℕ)
      → Call be w (start_check_in meanwhile p f s w).1
  confirms :
      (weighing meanwhile : World be → World be) (weighs : Moves be weighing)
      (moves : Moves be meanwhile) (baggage : BaggageConfig) (pay : PaymentConfig)
      (reply : ℕ → Reply) (id p : ℕ) (weight : Option ℕ)
      → Call be w (confirm_check_in baggage pay weighing meanwhile reply id p weight w).1
  cancels :
      (meanwhile : World be → World be) (moves : Moves be meanwhile) (id p : ℕ)
      → Call be w (cancel_check_in meanwhile id p w).1
  hold_expires :
      (meanwhile : World be → World be) (moves : Moves be meanwhile) (s : ℕ)
      → Call be w (handle_hold_expired meanwhile s w).1
  sweeps :
      (meanwhile : World be → World be) (moves : Moves be meanwhile)
      → Call be w (sweep_expired_holds meanwhile w).1
  joins :
      (meanwhile : World be → World be) (moves : Moves be meanwhile) (p f : ℕ)
      → Call be w (join_waitlist meanwhile p f w).1
  leaves : (id p : ℕ) → Call be w (leave_waitlist id p w).1
  processes :
      (meanwhile : World be → World be) (moves : Moves be meanwhile) (f : ℕ) (seat : Option ℕ)
      → Call be w (process_waitlist meanwhile f seat w).1
  assigned_hold_expires : (s f p : ℕ) → Call be w (handle_waitlist_hold_expiry s f p w).1
  audit_save_ends :
      (before after : List AuditLog) (row : AuditLog)
      → w.saving ≡ before ++ row ∷ after
      → Call be w (Audit.save_ends row (before ++ after) w)
  elsewhere : (w' : World be) → w'.tables ≡ w.tables → Call be w w'

save_ends-Steps :
    {be : Backend} (row : AuditLog) (others : List AuditLog) (w : World be)
    → Steps be.db w.tables (Audit.save_ends row others w).tables
unfolding Audit.save_ends
save_ends-Steps {be} row others w = elim (Bool-cases (be.stores row)) [
  | inl y ↦ ending (ground arith) (one (log_later row refl))
  | inr y ↦ stay (ground arith)
]

Call-Steps : {be : Backend} {w w' : World be} → Call be w w' → Steps be.db w.tables w'.tables
Call-Steps {be} {w = w} (starts meanwhile moves p f s) =
    start_check_in-Moved (steps be.db p) meanwhile moves f s w
Call-Steps {be} {w = w} (confirms weighing meanwhile weighs moves baggage pay reply id p weight) =
    confirm_check_in-Moved (steps be.db p) pay meanwhile moves reply baggage weighing weighs id
      weight w
Call-Steps {be} {w = w} (cancels meanwhile moves id p) =
    cancel_check_in-Moved (steps be.db p) meanwhile moves id w
Call-Steps {w = w} (hold_expires meanwhile moves s) = handle_hold_expired-Steps meanwhile moves s w
Call-Steps {w = w} (sweeps meanwhile moves) = sweep_expired_holds-Steps meanwhile moves w
Call-Steps {be} {w = w} (joins meanwhile moves p f) =
    join_waitlist-Moved (steps be.db p) meanwhile moves f w
Call-Steps {be} {w = w} (leaves id p) = leave_waitlist-Moved (steps be.db p) id w
Call-Steps {w = w} (processes meanwhile moves f seat) =
    process_waitlist-Steps meanwhile moves f seat w
Call-Steps {w = w} (assigned_hold_expires s f p) = handle_waitlist_hold_expiry-Steps s f p w
Call-Steps {w = w} (audit_save_ends before after row under_way) =
    save_ends-Steps row (before ++ after) w
Call-Steps (elsewhere w' same) = stay same

infixl 20 ◌next◌
pub data Run (be : Backend) (w : World be) : World be → Type 0 where
  idle : (w' : World be) → w'.tables ≡ w.tables → Run be w w'
  ◌next◌ : {u w' : World be} → Run be w u → Call be u w' → Run be w w'

pub Run-Steps : {be : Backend} {w w' : World be} → Run be w w' → Steps be.db w.tables w'.tables
Run-Steps (idle w' same) = stay same
Run-Steps (run next call) = append (Run-Steps run) (Call-Steps call)

-- Three invariants hold after any sequence of calls of the methods that write to the tables, with
-- any sequence of such steps beside each call where it waits, if they hold before: an AVAILABLE
-- seat has no holder and no time of a hold while a HELD seat has both; no passenger has two
-- check-ins on one flight; and no passenger has two entries on the waitlist of one flight.
pub Run-invariants :
    {be : Backend} (w w' : World be)
    → Run be w w'
    → SeatsCoherent be.db w.tables
    → OneBooking be.db w.tables
    → OneEntry be.db w.tables
    → SeatsCoherent be.db w'.tables × OneBooking be.db w'.tables × OneEntry be.db w'.tables
Run-invariants w w' run seats bookings entries =
    let ss = Run-Steps run in
    (
      Steps-SeatsCoherent w.tables w'.tables ss seats,
      Steps-OneBooking w.tables w'.tables ss bookings,
      Steps-OneEntry w.tables w'.tables ss entries,
    )

-- Any run also keeps it that the passenger of every waitlist entry is stored.
Run-PassengersStored :
    {be : Backend} (w w' : World be)
    → Run be w w'
    → PassengersStored be.db w.tables
    → PassengersStored be.db w'.tables
Run-PassengersStored w w' run = Steps-PassengersStored w.tables w'.tables (Run-Steps run)
