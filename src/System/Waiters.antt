-- ===== src/System/Waiters.antt =====
-- The passengers of the waitlist, over the steps of the system: each is stored.
use sky_high_core.Common.{ℕ, ◌≡◌, refl, inl, inr, some, true, arith, Option-cases}
use sky_high_core.Domain.Entities.{Waitlist}
use sky_high_core.Platform.Table.{changed_at}
use sky_high_core.Platform.Backend.{Database, Tables}
use sky_high_core.CheckIn.Start.Held.{hold_transaction-SeatTaken}
use sky_high_core.CheckIn.Confirm.Effects.{complete_transaction-SeatConfirmed}
use sky_high_core.CheckIn.Cancel.Effects.{cancel_transaction-SeatFreed}
use sky_high_core.Expiry.Release.{expired}
use sky_high_core.Expiry.Release.Effects.{release_transaction-waitlists}
use sky_high_core.Waitlist.Queue.{left}
use sky_high_core.Waitlist.Assign.{assigned}
use sky_high_core.Waitlist.Assign.Effects.{assign_transaction-Assigned}
use sky_high_core.System.{
  Step, hold, complete, await_fee, cancel, release, assign, expire, join, leave, log_later, Steps,
  stay, ◌then◌,
}

-- The passenger of every entry is stored.
abbrev pub PassengersStored : (db : Database) → Tables db → Type 0
PassengersStored db t =
    (i : ℕ) (e : Waitlist)
    → db.waitlist_rows.row t.waitlists i ≡ some e
    → db.is_passenger e.passenger_id ≡ true

module _ {db : Database} (t t' : Tables db) where
  PassengersStored-changed_at :
      (f : Waitlist → Waitlist) (k : ℕ)
      → ((e : Waitlist) → (f e).passenger_id ≡ e.passenger_id)
      → ((i : ℕ)
          → db.waitlist_rows.row t'.waitlists i
            ≡ changed_at f (some k) (db.waitlist_rows.row t.waitlists) i)
      → PassengersStored db t
      → PassengersStored db t'
  PassengersStored-changed_at f k keeps is all i e at =
      elim (Option-cases (db.waitlist_rows.row t.waitlists i)) [
        | inl lost ↦ absurd (ground (arith, is i))
        | inr (d, was) ↦ ground (arith, is i, keeps d, all i d was)
      ]

  pub Step-PassengersStored : Step db t t' → PassengersStored db t → PassengersStored db t'
  Step-PassengersStored (hold p f s held_at created_at c h) all =
      rw (hold_transaction-SeatTaken p f s held_at created_at c t t' h).waitlists all
  Step-PassengersStored (complete c weight payment h) all =
      rw (complete_transaction-SeatConfirmed c weight payment t t' h).waitlists all
  Step-PassengersStored (await_fee id weight fee h) all = rw h all
  Step-PassengersStored (cancel c h) all = rw (h, (cancel_transaction-SeatFreed c t).waitlists) all
  Step-PassengersStored (release seat h) all = rw (release_transaction-waitlists seat t t' h) all
  Step-PassengersStored (assign e s f held_at created_at h) all =
      PassengersStored-changed_at assigned e.id (λ r. refl)
        (assign_transaction-Assigned e s f held_at created_at t t' h).entries all
  Step-PassengersStored (expire e at h) all =
      PassengersStored-changed_at expired e.id (λ r. refl)
        (λ i. ground (arith, db.waitlist_rows.row-save (expired e) t.waitlists i)) all
  Step-PassengersStored (join e rows added known h) all = λ i q at. ground (
    arith,
    db.waitlist_rows.insert_law e t.waitlists,
    db.waitlist_rows.row-added e t.waitlists i,
    all i q,
  )
  Step-PassengersStored (leave e at h) all =
      PassengersStored-changed_at left e.id (λ r. refl)
        (λ i. ground (arith, db.waitlist_rows.row-save (left e) t.waitlists i)) all
  Step-PassengersStored (log_later row h) all = rw h all

pub Steps-PassengersStored :
    {db : Database} (t t' : Tables db)
    → Steps db t t'
    → PassengersStored db t
    → PassengersStored db t'
Steps-PassengersStored t t' (stay e) all = rw e all
Steps-PassengersStored t t' (◌then◌ {u = u} ss s) all =
    Step-PassengersStored u t' s (Steps-PassengersStored t u ss all)
