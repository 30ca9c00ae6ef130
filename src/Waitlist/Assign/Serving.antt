-- ===== src/Waitlist/Assign/Serving.antt =====
-- Whom `processWaitlist` serves.
use sky_high_core.Common.{
  ℕ, ◌≤◌, ◌≡◌, ◌⊎◌, inl, inr, Option, none, some, true, false, ◌∷◌, if◌then◌else◌, arith,
  Option-cases,
}
use sky_high_core.Domain.Entities.{Seat, Waitlist}
use sky_high_core.Domain.Errors.{ok, Result-cases}
use sky_high_core.Domain.Dtos.{Event, RedisKey, RedisValue}
use sky_high_core.Platform.Backend.{Backend}
use sky_high_core.Platform.World.{World}
use sky_high_core.Redis
use sky_high_core.Redis.Ttl
use sky_high_core.Waitlist.Assign.{
  waiting_on, wanted_seat, process_waitlist_within_lock, process_waitlist,
}
use sky_high_core.Waitlist.Assign.Effects.{Assigned, assign_seat_to_waitlist_passenger-ends}

module _ {be : Backend} where
  -- How a call that returned has ended, from the tables `t` that it began with: `v` is what the
  -- transaction met.
  pub data Served (f : ℕ) (wanted : Option ℕ) (w v w' : World be) : Type 0 where
    nobody :
        ((i : ℕ) (e : Waitlist)
          → be.waitlist_rows.row w.waitlists i ≡ some e
          → waiting_on f e ≡ false)
        → w'.tables ≡ w.tables
        → w'.events ≡ w.events
        → Served f wanted w v w'
    no_seat :
        ((i : ℕ) (s : Seat) → be.seat_rows.row w.seats i ≡ some s → wanted_seat f wanted s ≡ false)
        → w'.tables ≡ w.tables
        → w'.events ≡ w.events
        → Served f wanted w v w'
    lost_race : w'.tables ≡ v.tables → w'.events ≡ v.events → Served f wanted w v w'
    served :
        (e : Waitlist) (seat : Seat)
        → be.waitlist_rows.row w.waitlists e.id ≡ some e
        → waiting_on f e ≡ true
        → ((i : ℕ) (d : Waitlist)
            → be.waitlist_rows.row w.waitlists i ≡ some d
            → waiting_on f d ≡ true
            → e.position ≤ d.position)
        → be.seat_rows.row w.seats seat.id ≡ some seat
        → wanted_seat f wanted seat ≡ true
        → Assigned e seat.id f w.clock v.clock v.tables w'.tables
        → ((t : ℕ)
            → be.redis.get t (RedisKey.seat_hold seat.id) w'.redis ≡ (
                if be.redis.is_live v.clock Ttl.seat_hold t
                then some (RedisValue.passenger e.passenger_id)
                else none))
        → w'.events ≡ Event.waitlist_notification e.passenger_id f seat.id e.id ∷ v.events
        → Served f wanted w v w'

  Served-same :
      (f : ℕ) (wanted : Option ℕ) {w v u w' : World be}
      → w'.tables ≡ u.tables
      → w'.redis ≡ u.redis
      → w'.events ≡ u.events
      → Served f wanted w v u
      → Served f wanted w v w'
  Served-same f wanted e r n (nobody h t o) = nobody h (rw e t) (rw n o)
  Served-same f wanted e r n (no_seat h t o) = no_seat h (rw e t) (rw n o)
  Served-same f wanted e r n (lost_race t o) = lost_race (rw e t) (rw n o)
  Served-same f wanted e r n (served d s a b c x y z k o) =
      served d s a b c x y (rw e z) (λ t. rw r (k t)) (rw n o)

  module _ (meanwhile : World be → World be) (f : ℕ) (wanted : Option ℕ) where
    process_waitlist_within_lock-Served :
        (w w' : World be)
        → process_waitlist_within_lock meanwhile f wanted w ≡ (ok tt, w')
        → Served f wanted w (meanwhile w) w'
    unfolding process_waitlist_within_lock
    process_waitlist_within_lock-Served w w' h =
        let t = w.waitlists in
        elim (Option-cases (be.waitlist_rows.find_least (λ e. e.position) (waiting_on f) t)) [
          | inl empty ↦
              nobody
                (λ i e at.
                  be.waitlist_rows.find_least-none (λ e. e.position) (waiting_on f) t i e empty at)
                (ground arith) (ground arith)
          | inr (e, first) ↦
              elim (Option-cases (be.seat_rows.find_one (wanted_seat f wanted) w.seats)) [
                | inl full ↦
                    no_seat
                      (λ i s at.
                        be.seat_rows.find_one-none (wanted_seat f wanted) w.seats i s full at)
                      (ground arith) (ground arith)
                | inr (s, found) ↦
                    elim (assign_seat_to_waitlist_passenger-ends meanwhile e s.id f w w'
                      (ground arith)) [
                        | inl done ↦
                            let (at, waits) =
                              be.waitlist_rows.find_least-some (λ e. e.position) (waiting_on f) t e
                                first in
                            let (there, fits) =
                              be.seat_rows.find_one-some (wanted_seat f wanted) w.seats s found in
                            served e s at waits
                              (λ i d at' waits'.
                                be.waitlist_rows.find_least-le (λ e. e.position) (waiting_on f) t e
                                  i d first at' waits')
                              there fits done.tables done.hold_key done.events
                        | inr same ↦ lost_race (ground arith) (ground arith)
                      ]
              ]
        ]

    -- If `processWaitlist` returns, then it did not get its lock and changed nothing, or with some
    -- state of the locks one of these holds: nobody waits on the flight, or no seat as wanted is
    -- available, and the tables and the events are the same; the tables and the events are as
    -- others left them before the transaction; or a passenger who waits with the least position on
    -- the flight was assigned a seat as wanted, that the transaction met AVAILABLE: it is HELD by
    -- them, their entry is ASSIGNED, and they have a new check-in, with no other seat, entry or
    -- check-in changed, the seat's hold key names them for its time to live, and one event was
    -- emitted, which tells them of the seat.
    pub process_waitlist-Served :
        (w w' : World be)
        → process_waitlist meanwhile f wanted w ≡ (ok tt, w')
        → (w' ≡ w)
          ⊎ ((l : be.locks.State) × let u = record w { locks = l } in
                Served f wanted u (meanwhile u) w')
    unfolding process_waitlist Redis.acquire_lock Redis.and_release_lock
    process_waitlist-Served w w' h =
        elim (Option-cases (be.locks.acquire (RedisKey.waitlist_lock f) 5000 w.clock w.locks)) [
          | inl busy ↦ inl (ground arith)
          | inr (l, e) ↦
              elim (Result-cases
                (process_waitlist_within_lock meanwhile f wanted (record w { locks = l }))) [
                  | inl (r, u, q) ↦ inr (
                    l,
                    Served-same f wanted (ground arith) (ground arith) (ground arith)
                        (process_waitlist_within_lock-Served (record w { locks = l }) u q),
                  )
                  | inr (x, u, q) ↦ absurd (ground arith)
                ]
        ]
