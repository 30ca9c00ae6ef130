-- ===== src/Notification/Delivery.antt =====
-- What passengers are told of the processing of the waitlist.
use sky_high_core.Common.{ℕ, ◌≡◌, ◌⊎◌, inl, inr, ap, Option, true, ◌∷◌}
use sky_high_core.Domain.Entities.{Waitlist}
use sky_high_core.Domain.Errors.{ok}
use sky_high_core.Platform.Backend.{Backend}
use sky_high_core.Platform.World.{World}
use sky_high_core.Waitlist.Assign.{process_waitlist, waiting_on}
use sky_high_core.Waitlist.Assign.Effects.{Assigned}
use sky_high_core.Waitlist.Assign.Serving.{
  Served, nobody, no_seat, lost_race, served, process_waitlist-Served,
}
use sky_high_core.Notification.{NotificationEventType, NotificationRequest, Reply, delivered}

module _ {be : Backend} (service : NotificationRequest → Reply) where
  -- The requests of a call: none but those of others, or one more, to whom a seat was assigned.
  pub data Told (f : ℕ) (w v w' : World be) : Type 0 where
    nobody_told :
        w'.tables ≡ w.tables
        → delivered service w'.events ≡ delivered service w.events
        → Told f w v w'
    others_told :
        w'.tables ≡ v.tables
        → delivered service w'.events ≡ delivered service v.events
        → Told f w v w'
    told :
        (e : Waitlist) (s : ℕ)
        → waiting_on f e ≡ true
        → Assigned e s f w.clock v.clock v.tables w'.tables
        → delivered service w'.events
          ≡ record {
            type = NotificationEventType.waitlist_seat_assigned;
            passenger_id = e.passenger_id;
            flight_id = f;
            seat_id = s;
            waitlist_entry_id = e.id;
          }
            ∷ delivered service v.events
        → Told f w v w'

  Told-Served :
      (f : ℕ) (wanted : Option ℕ) (w v w' : World be) → Served f wanted w v w' → Told f w v w'
  unfolding delivered
  Told-Served f wanted w v w' (nobody h t o) = nobody_told t (ap (delivered service) o)
  Told-Served f wanted w v w' (no_seat h t o) = nobody_told t (ap (delivered service) o)
  Told-Served f wanted w v w' (lost_race t o) = others_told t (ap (delivered service) o)
  Told-Served f wanted w v w' (served e s at waits first there fits done key o) =
      told e s.id waits done (ap (delivered service) o)

  -- If `processWaitlist` returns, then nothing has changed or, with some state of the locks and
  -- whatever the Notification Service replies, one of these holds: the tables and the requests sent
  -- to that service are as they were; they are as others left them before the transaction; or a
  -- passenger who waits on the flight was assigned a seat, and exactly one request was sent on top
  -- of those of others, to this passenger, about the flight, the seat and the entry.
  pub process_waitlist-Told :
      (meanwhile : World be → World be) (f : ℕ) (wanted : Option ℕ) (w w' : World be)
      → process_waitlist meanwhile f wanted w ≡ (ok tt, w')
      → (w' ≡ w)
        ⊎ ((l : be.locks.State) × let u = record w { locks = l } in Told f u (meanwhile u) w')
  process_waitlist-Told meanwhile f wanted w w' h =
      elim (process_waitlist-Served meanwhile f wanted w w' h) [
        | inl busy ↦ inl busy
        | inr (l, d) ↦
            let u : World be = record w { locks = l } in
            inr (l, Told-Served f wanted u (meanwhile u) w' d)
      ]
