-- ===== src/System.antt =====
-- All that the services do to the tables, as steps: a state of the system is reached by any
-- sequence of them, so in any interleaving of the requests, the events and the sweeps.
pub mod Distinct
pub mod Seats
pub mod Bookings
pub mod Entries
pub mod Waiters
pub mod Motion
pub mod Privacy
pub mod Handover
pub mod Calls
pub mod Owners
mod Examples
use mathlib.Core.Path.{subst}
use sky_high_core.Common.{refl, sym, ℕ, ◌+◌, ◌==◌, ◌≡◌, Option, none, some, Bool, true, String, ◌∷◌}
use sky_high_core.Domain.Entities.{CheckIn, Seat, Waitlist, AuditLog}
use sky_high_core.Domain.Errors.{ok}
use sky_high_core.Platform.Backend.{Backend, Database, Tables}
use sky_high_core.Platform.World.{World}
use sky_high_core.CheckIn.Start.{hold_transaction}
use sky_high_core.CheckIn.Confirm.{complete_transaction, awaiting_payment}
use sky_high_core.CheckIn.Cancel.{cancel_transaction}
use sky_high_core.Expiry.Release.{release_transaction, expired}
use sky_high_core.Waitlist.Queue.{or_zero, left}
use sky_high_core.Waitlist.Assign.{assign_transaction}

-- One transaction, or one write outside a transaction. What a request has read before may be out
-- of date, so it is any row here.
pub data Step (db : Database) (t t' : Tables db) : Type 0 where
  hold :
      (p f s held_at created_at : ℕ) (c : CheckIn)
      → hold_transaction p f s held_at created_at t ≡ (ok c, t')
      → Step db t t'
  complete :
      (c : CheckIn) (weight : Option ℕ) (payment : Option String)
      → complete_transaction c weight payment t ≡ (ok tt, t')
      → Step db t t'
  await_fee :
      (id weight fee : ℕ)
      → t' ≡ record t {
        check_ins =
            db.check_in_rows.update (λ c. c.id == id) (awaiting_payment weight fee) t.check_ins;
      }
      → Step db t t'
  cancel : (c : CheckIn) → t' ≡ (cancel_transaction c t).1 → Step db t t'
  release : (seat : Seat) → release_transaction seat t ≡ (ok true, t') → Step db t t'
  assign :
      (e : Waitlist) (s f held_at created_at : ℕ)
      → assign_transaction e s f held_at created_at t ≡ (ok true, t')
      → Step db t t'
  expire :
      (e : Waitlist)
      → db.waitlist_rows.row t.waitlists e.id ≡ some e
      → t' ≡ record t { waitlists = db.waitlist_rows.save (expired e) t.waitlists }
      → Step db t t'
  join :
      (e : Waitlist) (rows : db.waitlist_rows.State)
      → db.waitlist_rows.insert e t.waitlists ≡ some rows
      → db.is_passenger e.passenger_id ≡ true
      → t' ≡ record t { waitlists = rows }
      → Step db t t'
  leave :
      (e : Waitlist)
      → db.waitlist_rows.row t.waitlists e.id ≡ some e
      → t' ≡ record t { waitlists = db.waitlist_rows.save (left e) t.waitlists }
      → Step db t t'
  log_later : (row : AuditLog) → t' ≡ record t { audit_logs = row ∷ t.audit_logs } → Step db t t'

infixl 20 ◌then◌
-- Any number of steps from one state of the tables.
pub data Steps (db : Database) (t : Tables db) : Tables db → Type 0 where
  stay : {t' : Tables db} → t' ≡ t → Steps db t t'
  ◌then◌ : {u t' : Tables db} → Steps db t u → Step db u t' → Steps db t t'

pub append : {db : Database} {t u v : Tables db} → Steps db t u → Steps db u v → Steps db t v
append {db} {t} ss (stay e) = subst (Steps db t) (sym e) ss
append ss (rs then s) = append ss rs then s

pub one : {db : Database} {t t' : Tables db} → Step db t t' → Steps db t t'
one s = stay refl then s

-- What runs beside a method moves the tables by steps too.
abbrev pub Moves : (be : Backend) → (World be → World be) → Type 0
Moves be meanwhile = (w : World be) → Steps be.db w.tables (meanwhile w).tables

pub ending : {db : Database} {t u v : Tables db} → v ≡ u → Steps db t u → Steps db t v
ending {db} {t} e ss = subst (Steps db t) (sym e) ss
