-- ===== src/System/Seats.antt =====
-- The columns of a seat together, over the steps of the system.
use sky_high_core.Common.{
  ℕ, ◌≡◌, refl, sym, ◌∙◌, inl, inr, Option, none, some, Bool, true, not, ◌&&◌, ◌==◌, arith,
  Bool-cases, Option-cases,
}
use sky_high_core.Domain.Enums.{SeatStatus}
use sky_high_core.Domain.Entities.{Seat}
use sky_high_core.Platform.Table.{is_none, changed_at}
use sky_high_core.Platform.Backend.{Database, Tables}
use sky_high_core.CheckIn.Start.{held_seat}
use sky_high_core.CheckIn.Start.Held.{hold_transaction-SeatTaken}
use sky_high_core.CheckIn.Confirm.{confirmed}
use sky_high_core.CheckIn.Confirm.Effects.{complete_transaction-SeatConfirmed}
use sky_high_core.CheckIn.Cancel.{freed}
use sky_high_core.CheckIn.Cancel.Effects.{cancel_transaction-SeatFreed}
use sky_high_core.Expiry.Release.Effects.{release_transaction-Released}
use sky_high_core.Waitlist.Assign.Effects.{assign_transaction-Assigned}
use sky_high_core.System.{
  Step, hold, complete, await_fee, cancel, release, assign, expire, join, leave, log_later, Steps,
  stay, ◌then◌,
}

-- An AVAILABLE seat has no holder and no time of a hold; a HELD one has both.
abbrev pub is_coherent : Seat → Bool
is_coherent s = elim s.status [
  | SeatStatus.available ↦ is_none s.held_by && is_none s.held_at
  | SeatStatus.held ↦ not (is_none s.held_by) && not (is_none s.held_at)
  | _ ↦ true
]

abbrev AllCoherent : (ℕ → Option Seat) → Type 0
AllCoherent rows = (i : ℕ) (s : Seat) → rows i ≡ some s → is_coherent s ≡ true

abbrev pub SeatsCoherent : (db : Database) → Tables db → Type 0
SeatsCoherent db t = AllCoherent (db.seat_rows.row t.seats)

AllCoherent-changed_at :
    (f : Seat → Seat) (k : Option ℕ) (rows rows' : ℕ → Option Seat)
    → ((s : Seat) → is_coherent s ≡ true → is_coherent (f s) ≡ true)
    → ((i : ℕ) → rows' i ≡ changed_at f k rows i)
    → AllCoherent rows
    → AllCoherent rows'
AllCoherent-changed_at f none rows rows' keeps is all i s e = all i s (sym (is i) ∙ e)
AllCoherent-changed_at f (some n) rows rows' keeps is all i s e = elim (Bool-cases (i == n)) [
  | inl here ↦ elim (Option-cases (rows n)) [
    | inl lost ↦ absurd (ground (arith, is i))
    | inr (r, at) ↦ ground (arith, is i, all n r at, keeps r)
  ]
  | inr there ↦ all i s (ground (arith, is i))
]

module _ {db : Database} (t t' : Tables db) where
  pub Step-SeatsCoherent : Step db t t' → SeatsCoherent db t → SeatsCoherent db t'
  Step-SeatsCoherent (hold p f s held_at created_at c h) all =
      let d = hold_transaction-SeatTaken p f s held_at created_at c t t' h in
      λ i x e. elim (Bool-cases (i == s)) [
        | inl here ↦ ground (arith, d.seats i)
        | inr there ↦ all i x (ground (arith, d.seats i))
      ]
  Step-SeatsCoherent (complete c weight payment h) all =
      AllCoherent-changed_at confirmed c.seat_id (db.seat_rows.row t.seats)
        (db.seat_rows.row t'.seats) (λ s y. refl)
        (complete_transaction-SeatConfirmed c weight payment t t' h).seats all
  Step-SeatsCoherent (await_fee id weight fee h) all = rw h all
  Step-SeatsCoherent (cancel c h) all = rw h (
      AllCoherent-changed_at freed c.seat_id (db.seat_rows.row t.seats) _ (λ s y. refl)
        (cancel_transaction-SeatFreed c t).seats all)
  Step-SeatsCoherent (release seat h) all =
      AllCoherent-changed_at freed (some seat.id) (db.seat_rows.row t.seats)
        (db.seat_rows.row t'.seats) (λ s y. refl) (release_transaction-Released seat t t' h).seats
        all
  Step-SeatsCoherent (assign e s f held_at created_at h) all =
      AllCoherent-changed_at (held_seat e.passenger_id held_at) (some s) (db.seat_rows.row t.seats)
        (db.seat_rows.row t'.seats) (λ s y. refl)
        (assign_transaction-Assigned e s f held_at created_at t t' h).seats all
  Step-SeatsCoherent (expire e at h) all = rw h all
  Step-SeatsCoherent (join e rows added known h) all = rw h all
  Step-SeatsCoherent (leave e at h) all = rw h all
  Step-SeatsCoherent (log_later row h) all = rw h all

pub Steps-SeatsCoherent :
    {db : Database} (t t' : Tables db) → Steps db t t' → SeatsCoherent db t → SeatsCoherent db t'
Steps-SeatsCoherent t t' (stay e) all = rw e all
Steps-SeatsCoherent t t' (◌then◌ {u = u} ss s) all =
    Step-SeatsCoherent u t' s (Steps-SeatsCoherent t u ss all)
