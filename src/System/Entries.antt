-- ===== src/System/Entries.antt =====
-- Waitlist entries by flight and passenger, over the steps of the system.
use sky_high_core.Common.{false, ℕ, ◌≡◌, refl, some, ==-refl, arith}
use sky_high_core.Domain.Entities.{Waitlist, same_entry}
use sky_high_core.Platform.Table.{changed_at}
use sky_high_core.Platform.Backend.{Database, Tables}
use sky_high_core.CheckIn.Start.Held.{hold_transaction-SeatTaken}
use sky_high_core.CheckIn.Confirm.Effects.{complete_transaction-SeatConfirmed}
use sky_high_core.CheckIn.Cancel.Effects.{cancel_transaction-SeatFreed}
use sky_high_core.Expiry.Release.{expired}
use sky_high_core.Expiry.Release.Effects.{release_transaction-waitlists}
use sky_high_core.Waitlist.Queue.{left}
use sky_high_core.Waitlist.Assign.{assigned}
use sky_high_core.Waitlist.Assign.Effects.{assign_transaction-Assigned}
use sky_high_core.System.{
  Step, hold, complete, await_fee, cancel, release, assign, expire, join, leave, log_later, Steps,
  stay, ◌then◌,
}
use sky_high_core.System.Distinct.{Distinct, Distinct-Keeps, Distinct-insert, Keeps-changed_at}

abbrev flight_of : Waitlist → ℕ
flight_of e = e.flight_id

abbrev passenger_of : Waitlist → ℕ
passenger_of e = e.passenger_id

abbrev pub OneEntry : (db : Database) → Tables db → Type 0
OneEntry db t = Distinct flight_of passenger_of (db.waitlist_rows.row t.waitlists)

not_waiting :
    (e q : Waitlist)
    → same_entry e q ≡ false
    → q.flight_id ≡ e.flight_id
    → q.passenger_id ≡ e.passenger_id
    → ⊥
not_waiting e q apart f p = ground (arith, ==-refl e.flight_id, ==-refl e.passenger_id)

module _ {db : Database} (t t' : Tables db) where
  OneEntry-changed_at :
      (f : Waitlist → Waitlist) (k : ℕ)
      → ((e : Waitlist) → ((f e).flight_id ≡ e.flight_id) × ((f e).passenger_id ≡ e.passenger_id))
      → ((i : ℕ)
          → db.waitlist_rows.row t'.waitlists i
            ≡ changed_at f (some k) (db.waitlist_rows.row t.waitlists) i)
      → OneEntry db t
      → OneEntry db t'
  OneEntry-changed_at f k keeps is =
      Distinct-Keeps flight_of passenger_of (db.waitlist_rows.row t.waitlists)
        (db.waitlist_rows.row t'.waitlists)
        (Keeps-changed_at flight_of passenger_of f (some k) (db.waitlist_rows.row t.waitlists)
          (db.waitlist_rows.row t'.waitlists) keeps is)

  pub Step-OneEntry : Step db t t' → OneEntry db t → OneEntry db t'
  Step-OneEntry (hold p f s held_at created_at c h) d =
      rw (hold_transaction-SeatTaken p f s held_at created_at c t t' h).waitlists d
  Step-OneEntry (complete c weight payment h) d =
      rw (complete_transaction-SeatConfirmed c weight payment t t' h).waitlists d
  Step-OneEntry (await_fee id weight fee h) d = rw h d
  Step-OneEntry (cancel c h) d = rw (h, (cancel_transaction-SeatFreed c t).waitlists) d
  Step-OneEntry (release seat h) d = rw (release_transaction-waitlists seat t t' h) d
  Step-OneEntry (assign e s f held_at created_at h) d =
      OneEntry-changed_at assigned e.id (λ r. (refl, refl))
        (assign_transaction-Assigned e s f held_at created_at t t' h).entries d
  Step-OneEntry (expire e at h) d =
      OneEntry-changed_at expired e.id (λ r. (refl, refl))
        (λ i. ground (arith, db.waitlist_rows.row-save (expired e) t.waitlists i)) d
  Step-OneEntry (join e rows added known h) d =
      Distinct-insert flight_of passenger_of (db.waitlist_rows.row t.waitlists)
        (db.waitlist_rows.row t'.waitlists) e.id e
        (λ i. ground (
          arith,
          db.waitlist_rows.insert_law e t.waitlists,
          db.waitlist_rows.row-added e t.waitlists i,
        ))
        (λ i q at. not_waiting e q (
          ground (
            arith,
            db.waitlist_rows.insert_law e t.waitlists,
            db.waitlist_rows.find_one-none (same_entry e) t.waitlists i q,
          )))
        d
  Step-OneEntry (leave e at h) d =
      OneEntry-changed_at left e.id (λ r. (refl, refl))
        (λ i. ground (arith, db.waitlist_rows.row-save (left e) t.waitlists i)) d
  Step-OneEntry (log_later row h) d = rw h d

pub Steps-OneEntry :
    {db : Database} (t t' : Tables db) → Steps db t t' → OneEntry db t → OneEntry db t'
Steps-OneEntry t t' (stay e) d = rw e d
Steps-OneEntry t t' (◌then◌ {u = u} ss s) d = Step-OneEntry u t' s (Steps-OneEntry t u ss d)
