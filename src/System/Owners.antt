-- ===== src/System/Owners.antt =====
-- The seats as a register of owners: what the services do to them, seen from outside.
mod Examples
use mathlib.Core.Option
use sky_high_core.Common.{
  ℕ, ◌≡◌, ap, ◌≢◌, ◌⊎◌, inl, inr, ==_iff, Option, none, some, ◌==◌, arith, if◌then◌else◌,
  Bool-cases, Option-cases,
}
use sky_high_core.Domain.Enums.{SeatStatus}
use sky_high_core.Domain.Entities.{Seat}
use sky_high_core.Platform.Table.{changed_at}
use sky_high_core.Platform.Backend.{Backend, Database, Tables}
use sky_high_core.Platform.World.{World}
use sky_high_core.CheckIn.Start.Held.{hold_transaction-SeatTaken}
use sky_high_core.CheckIn.Confirm.{confirmed}
use sky_high_core.CheckIn.Confirm.Effects.{complete_transaction-SeatConfirmed}
use sky_high_core.CheckIn.Cancel.{freed}
use sky_high_core.CheckIn.Cancel.Effects.{cancel_transaction-SeatFreed}
use sky_high_core.Expiry.Release.Effects.{release_transaction-Released}
use sky_high_core.Waitlist.Assign.Effects.{assign_transaction-Assigned}
use sky_high_core.System.{
  Step, hold, complete, await_fee, cancel, release, assign, expire, join, leave, log_later, Steps,
  stay, ◌then◌,
}
use sky_high_core.System.Seats.{SeatsCoherent, Step-SeatsCoherent, Steps-SeatsCoherent}
use sky_high_core.System.Calls.{Run, Run-Steps}

-- The specification: a register in which a seat that has no owner can be given to one, and a seat
-- can be taken back. A seat never passes from one owner to another.
abbrev pub Register : Type 0
Register = ℕ → Option ℕ

pub data Entry (o o' : Register) : Type 0 where
  gives : (s p : ℕ) → o s ≡ none → ((i : ℕ) → o' i ≡ (if i == s then some p else o i)) → Entry o o'
  takes_back : (s : ℕ) → ((i : ℕ) → o' i ≡ (if i == s then none else o i)) → Entry o o'
  keeps : ((i : ℕ) → o' i ≡ o i) → Entry o o'

-- The register that the seats amount to.
abbrev owner_of : Option Seat → Option ℕ
owner_of none = none
owner_of (some s) = s.held_by

abbrev pub owners : (db : Database) → Tables db → Register
owners db t i = owner_of (db.seat_rows.row t.seats i)

-- A change of one row by which its holder goes, or stays.
takes_back_at :
    (k : Option ℕ) (rows rows' : ℕ → Option Seat)
    → ((i : ℕ) → rows' i ≡ changed_at freed k rows i)
    → Entry (λ i. owner_of (rows i)) (λ i. owner_of (rows' i))
takes_back_at none rows rows' is = keeps λ i. ap owner_of (is i)
takes_back_at (some s) rows rows' is = takes_back s λ i. elim (Option-cases (rows s)) [
  | inl lost ↦ ground (arith, is i)
  | inr (x, at) ↦ ground (arith, is i)
]

keeps_at :
    (k : Option ℕ) (rows rows' : ℕ → Option Seat)
    → ((i : ℕ) → rows' i ≡ changed_at confirmed k rows i)
    → Entry (λ i. owner_of (rows i)) (λ i. owner_of (rows' i))
keeps_at none rows rows' is = keeps λ i. ap owner_of (is i)
keeps_at (some s) rows rows' is = keeps λ i. elim (Option-cases (rows s)) [
  | inl lost ↦ ground (arith, is i)
  | inr (x, at) ↦ ground (arith, is i)
]

module _ {db : Database} (t t' : Tables db) (all : SeatsCoherent db t) where
  -- What a seat's columns say of its holder.
  no_owner :
      (s : ℕ) (seat : Seat)
      → db.seat_rows.row t.seats s ≡ some seat
      → seat.status ≡ SeatStatus.available
      → owners db t s ≡ none
  no_owner s seat at free = ground (arith, all s seat)

  Step-Entry : Step db t t' → Entry (owners db t) (owners db t')
  Step-Entry (hold p f s held_at created_at c h) =
      let d = hold_transaction-SeatTaken p f s held_at created_at c t t' h in
      gives s p (no_owner s d.seat d.was d.was_available) λ i. ground (arith, d.seats i)
  Step-Entry (assign e s f held_at created_at h) =
      let d = assign_transaction-Assigned e s f held_at created_at t t' h in
      gives s e.passenger_id (no_owner s d.seat d.was d.was_available)
        λ i. ground (arith, d.seats i, d.was)
  Step-Entry (complete c weight payment h) =
      keeps_at c.seat_id (db.seat_rows.row t.seats) (db.seat_rows.row t'.seats)
        (complete_transaction-SeatConfirmed c weight payment t t' h).seats
  Step-Entry (cancel c h) =
      takes_back_at c.seat_id (db.seat_rows.row t.seats) (db.seat_rows.row t'.seats)
        (λ i. ground (arith, (cancel_transaction-SeatFreed c t).seats i))
  Step-Entry (release seat h) =
      takes_back_at (some seat.id) (db.seat_rows.row t.seats) (db.seat_rows.row t'.seats)
        (release_transaction-Released seat t t' h).seats
  Step-Entry (await_fee id weight fee h) = keeps λ i. ground arith
  Step-Entry (expire e at h) = keeps λ i. ground arith
  Step-Entry (join e rows added known h) = keeps λ i. ground arith
  Step-Entry (leave e at h) = keeps λ i. ground arith
  Step-Entry (log_later row h) = keeps λ i. ground arith

-- Every step, one after another, is an entry of the register.
abbrev pub Follows : {db : Database} {t t' : Tables db} → Steps db t t' → Type 0
Follows (stay e) = Unit {0}
Follows {db} (◌then◌ {u = u} {t' = t'} ss s) = Follows ss × Entry (owners db u) (owners db t')

Steps-Follows :
    {db : Database} (t t' : Tables db) (ss : Steps db t t') → SeatsCoherent db t → Follows ss
Steps-Follows t t' (stay e) all = tt
Steps-Follows t t' (◌then◌ {u = u} ss s) all =
    (Steps-Follows t u ss all, Step-Entry u t' (Steps-SeatsCoherent t u ss all) s)

-- The seats implement a register of owners: if at first an AVAILABLE seat has no holder and no time
-- of a hold while a HELD seat has both, then every step of the tables in any sequence of calls, and
-- of such steps beside each call where it waits, gives a seat that has no owner to one passenger,
-- or takes one seat back, or leaves every seat's owner as it is.
pub Run-Follows :
    {be : Backend} (w w' : World be) (run : Run be w w')
    → SeatsCoherent be.db w.tables
    → Follows (Run-Steps run)
Run-Follows w w' run all = Steps-Follows w.tables w'.tables (Run-Steps run) all

-- At some point on the way nobody has the seat.
abbrev pub IsVacated : {db : Database} {t t' : Tables db} → ℕ → Steps db t t' → Type 0
IsVacated s (stay e) = ⊥
IsVacated {db} s (◌then◌ {u = u} ss step) = IsVacated s ss ⊎ (owners db u s ≡ none)

handed_on : (o o' : Register) (s p q : ℕ) → Entry o o' → o' s ≡ some q → p ≢ q → o s ≢ some p
handed_on o o' s p q (gives x r free is) now differ was = ground (arith, is s, ==_iff s x)
handed_on o o' s p q (takes_back x is) now differ was = ground (arith, is s)
handed_on o o' s p q (keeps is) now differ was = ground (arith, is s)

Steps-IsVacated :
    {db : Database} (t t' : Tables db) (s p q : ℕ) (ss : Steps db t t')
    → SeatsCoherent db t
    → owners db t s ≡ some p
    → owners db t' s ≡ some q
    → p ≢ q
    → IsVacated s ss
Steps-IsVacated t t' s p q (stay e) all was now differ = absurd (ground arith)
Steps-IsVacated {db} t t' s p q (◌then◌ {u = u} ss step) all was now differ =
    elim (Option-cases (owners db u s)) [
      | inl vacant ↦ inr vacant
      | inr (r, has) ↦ elim (Bool-cases (r == p)) [
        | inl same ↦ absurd (
            handed_on (owners db u) (owners db t') s p q
              (Step-Entry u t' (Steps-SeatsCoherent t u ss all) step) now differ (ground arith))
        | inr other ↦ inl (Steps-IsVacated t u s p r ss all was has (ground arith))
      ]
    ]

-- A seat does not pass from one passenger to another at once: if at first an AVAILABLE seat has no
-- holder and no time of a hold while a HELD seat has both, and a seat has one holder before a
-- sequence of calls, with any such steps beside each call where it waits, and a different one after
-- it, then at some point in between it had none.
pub Run-IsVacated :
    {be : Backend} (w w' : World be) (s p q : ℕ) (run : Run be w w')
    → SeatsCoherent be.db w.tables
    → owners be.db w.tables s ≡ some p
    → owners be.db w'.tables s ≡ some q
    → p ≢ q
    → IsVacated s (Run-Steps run)
Run-IsVacated w w' s p q run all was now differ =
    Steps-IsVacated w.tables w'.tables s p q (Run-Steps run) all was now differ
