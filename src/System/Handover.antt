-- ===== src/System/Handover.antt =====
-- From a hold that has run out to the passenger who waits: the expiry service and the waitlist
-- service one after the other.
mod Examples
use mathlib.Core.Option
use sky_high_core.Common.{
  ℕ, ◌≤◌, ◌≡◌, refl, sym, ◌∙◌, inl, inr, Option, none, some, Bool, true, false, ◌∷◌, ◌==◌, ==_iff,
  ==-refl, arith, Option-cases, Bool-cases, if◌then◌else◌,
}
use sky_high_core.Domain.Enums.{is_held, is_available}
use sky_high_core.Domain.Entities.{Seat, CheckIn, Waitlist}
use sky_high_core.Domain.Errors.{ok}
use sky_high_core.Domain.Dtos.{Event, Metric, Mechanism}
use sky_high_core.Platform.Table.{keep_if}
use sky_high_core.Platform.Backend.{Backend, AlwaysGrants}
use sky_high_core.Platform.World.{World}
use sky_high_core.CheckIn.Start.{held_seat}
use sky_high_core.CheckIn.Cancel.{freed}
use sky_high_core.CheckIn.Start.Failure.{refused, rolled_back}
use sky_high_core.Expiry.Release.{is_stale, release_seat, handle_hold_expired}
use sky_high_core.Expiry.Release.Effects.{HoldExpired}
use sky_high_core.Expiry.Release.Once.{release_seat-HoldExpired, release_seat-false}
use sky_high_core.Expiry.Release.Settling.{release_seat-Settled}
use sky_high_core.Expiry.Release.Queueing.{release_seat-waiting_at}
use sky_high_core.Waitlist.Assign.{waiting_on, process_waitlist}
use sky_high_core.System.Waiters.{PassengersStored}
use sky_high_core.Waitlist.Assign.Success.{NoneBooked, Handed, process_waitlist-Handed}

module _ {be : Backend} (s : ℕ) (x : Seat) where
  -- A release of a hold that has run out returns true.
  release_seat-stale :
      AlwaysGrants be
      → (w : World be) → be.seat_rows.row w.seats s ≡ some x
      → is_stale w.clock x ≡ true
      → (w' : World be) × (release_seat (λ v. v) s w ≡ (ok true, w'))
        × (w'.clock ≡ w.clock)
        × (be.seat_rows.row w'.seats s ≡ some (freed x))
  release_seat-stale grants w at stale =
      let (b, w', h, d) = release_seat-Settled grants s w in
      elim (Bool-cases b) [
        | inl done ↦ (w', ground arith, d.clock, d.stale x at stale)
        | inr idle ↦
            let same : w'.tables ≡ w.tables =
              elim (release_seat-false (λ v. v) s w w' (ground arith)) [
                | refused t r ↦ t
                | rolled_back l t r ↦ t
              ] in
            let now_free = d.stale x at stale in absurd (ground arith)
      ]

  -- The seat goes from the hold that has run out to `next`, who waits with the least position.
  pub record HandedOver (w w₁ w₂ : World be) : Type 0 where
    pub asked : w₁.events ≡ Event.waitlist_process x.flight_id (some s) ∷ w.events
    pub next : Waitlist
    pub waits : be.waitlist_rows.row w.waitlists next.id ≡ some next
    pub is_next : waiting_on x.flight_id next ≡ true
    pub is_first :
        (i : ℕ) (d : Waitlist)
        → be.waitlist_rows.row w.waitlists i ≡ some d
        → waiting_on x.flight_id d ≡ true
        → next.position ≤ d.position
    pub holds : be.seat_rows.row w₂.seats s ≡ some (held_seat next.passenger_id w.clock (freed x))
    pub told :
        w₂.events ≡ Event.waitlist_notification next.passenger_id x.flight_id s next.id ∷ w₁.events

  waiting_row :
      (f i : ℕ) (e : Waitlist) (w : World be)
      → be.waitlist_rows.row w.waitlists i ≡ some e
      → waiting_on f e ≡ true
      → keep_if (waiting_on f) (be.waitlist_rows.row w.waitlists i) ≡ some e
  waiting_row f i e w at waits = ground arith

  row_waiting :
      (f i : ℕ) (e : Waitlist) (w : World be)
      → keep_if (waiting_on f) (be.waitlist_rows.row w.waitlists i) ≡ some e
      → (be.waitlist_rows.row w.waitlists i ≡ some e) × (waiting_on f e ≡ true)
  row_waiting f i e w kept = elim (Option-cases (be.waitlist_rows.row w.waitlists i)) [
    | inl lost ↦ absurd (ground arith)
    | inr (d, at) ↦ (ground arith, ground arith)
  ]

  -- The queue on a flight is the same after a release.
  queued_after :
      (f i : ℕ) (e : Waitlist) (w u : World be) (b : Bool)
      → release_seat (λ v. v) s w ≡ (ok b, u)
      → be.waitlist_rows.row w.waitlists i ≡ some e
      → waiting_on f e ≡ true
      → be.waitlist_rows.row u.waitlists i ≡ some e
  queued_after f i e w u b h at waits =
      let kept = release_seat-waiting_at f s w i in
      let before = waiting_row f i e w at waits in (row_waiting f i e u (ground arith)).0

  queued_before :
      (f i : ℕ) (e : Waitlist) (w u : World be) (b : Bool)
      → release_seat (λ v. v) s w ≡ (ok b, u)
      → be.waitlist_rows.row u.waitlists i ≡ some e
      → waiting_on f e ≡ true
      → be.waitlist_rows.row w.waitlists i ≡ some e
  queued_before f i e w u b h at waits =
      let kept = release_seat-waiting_at f s w i in
      let after = waiting_row f i e u at waits in (row_waiting f i e w (ground arith)).0

  -- Nobody who waits has got a check-in by a release.
  NoneBooked-release :
      (f : ℕ) (w v u : World be)
      → HoldExpired s w.clock w.tables v u
      → v.tables ≡ w.tables
      → release_seat (λ v. v) s w ≡ (ok true, u)
      → NoneBooked be.db f w.tables
      → NoneBooked be.db f u.tables
  NoneBooked-release f w v u d same h none_booked i j c q held at waits own on =
      let was = d.released.check_ins i in
      let before = queued_before f j q w u true h at waits in
      elim (Option-cases (be.check_in_rows.row w.check_ins i)) [
        | inl lost ↦ absurd (ground arith)
        | inr (c₀, at₀) ↦
            absurd (none_booked i j c₀ q at₀ before waits (ground arith) (ground arith))
      ]

  -- A seat whose hold has run out goes to the passenger who waits first. If every lock is granted
  -- and released, the passenger of every waitlist entry is stored, somebody waits on the flight,
  -- nobody who waits has a check-in on it, and nothing runs beside the two calls, then
  -- `handleHoldExpired` returns and asks for the waitlist with the seat, and `processWaitlist`
  -- after it returns; then the seat is held, since the time of the first call, by a passenger who
  -- waited with the least position, and one event tells them.
  pub handle_hold_expired-HandedOver :
      AlwaysGrants be
      → (e : Waitlist) (w : World be) → be.seat_rows.row w.seats s ≡ some x
      → is_stale w.clock x ≡ true
      → be.waitlist_rows.row w.waitlists e.id ≡ some e
      → waiting_on x.flight_id e ≡ true
      → NoneBooked be.db x.flight_id w.tables
      → PassengersStored be.db w.tables
      → (w₁ : World be) × (w₂ : World be) × (handle_hold_expired (λ v. v) s w ≡ (ok tt, w₁))
        × (process_waitlist (λ v. v) x.flight_id (some s) w₁ ≡ (ok tt, w₂))
        × HandedOver w w₁ w₂
  unfolding handle_hold_expired
  handle_hold_expired-HandedOver grants e w at stale waits next none_booked stored =
      let (u, h, ticks, free) = release_seat-stale grants w at stale in
      let (l, d) = release_seat-HoldExpired (λ v. v) s w u h in
      let w₁ : World be = record u {
        metrics = Metric.hold_expiry none Mechanism.keyspace ∷ u.metrics;
      } in
      let key = be.seat_rows.row-key w.seats s x at in
      let same : d.seat ≡ x = ground (arith, d.seen) in
      let (w₂, h₂, k) =
        process_waitlist-Handed x.flight_id (some s) e (freed x) grants w₁
          (queued_after x.flight_id e.id e w u true h waits next) next (ground arith)
          (ground (arith, ==-refl s, ==-refl x.flight_id))
          (NoneBooked-release x.flight_id w (record w { locks = l }) u d refl h none_booked)
          (λ j q held waits'. stored j q (queued_before x.flight_id j q w u true h held waits')) in
      let it : k.seat.id ≡ s = ground (arith, k.fits) in
      (
        w₁,
        w₂,
        ground arith,
        h₂,
        record {
          asked = ground (arith, d.events, d.is_seat);
          next = k.entry;
          waits = queued_before x.flight_id k.entry.id k.entry w u true h k.waits k.is_next;
          is_next = k.is_next;
          is_first = λ i q held waits'.
              k.is_first i q (queued_after x.flight_id i q w u true h held waits') waits';
          holds = ground (arith, k.announced.tables.seats s, ==-refl s);
          told = ground (arith, k.announced.events);
        },
      )
