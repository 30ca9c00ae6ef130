-- ===== src/Expiry/Release/Sweep.antt =====
-- A sweep to its end, where the locks are granted and nothing runs beside it.
use mathlib.Core.Option
use sky_high_core.Common.{
  ℕ, ◌≡◌, refl, ◌∙◌, inl, inr, some, Bool, true, false, ◌==◌, List, [], ◌∷◌, All, Any, arith,
  if◌then◌else◌, Option-cases, Bool-cases,
}
use sky_high_core.Domain.Entities.{Seat}
use sky_high_core.Domain.Errors.{ok}
use sky_high_core.Domain.Dtos.{Mechanism}
use sky_high_core.Platform.Backend.{Backend, AlwaysGrants}
use sky_high_core.Platform.World.{World}
use sky_high_core.CheckIn.Cancel.{freed}
use sky_high_core.Expiry.Release.{
  is_stale, release_seat, count_expiry, sweep_seats, sweep_expired_holds,
}
use sky_high_core.Expiry.Release.Settling.{Settled, release_seat-Settled}

module _ {be : Backend} where
  -- What a sweep over a list of seats does to the seats.
  record Swept (seats : List Seat) (w w' : World be) : Type 0 where
    clock : w'.clock ≡ w.clock
    unlisted :
        (i : ℕ)
        → All (λ q. (i == q.id) ≡ false) seats
        → be.seat_rows.row w'.seats i ≡ be.seat_rows.row w.seats i
    free :
        (i : ℕ) (x : Seat)
        → be.seat_rows.row w.seats i ≡ some (freed x)
        → be.seat_rows.row w'.seats i ≡ some (freed x)
    stale :
        (i : ℕ) (x : Seat)
        → be.seat_rows.row w.seats i ≡ some x
        → is_stale w.clock x ≡ true
        → Any (λ q. (i == q.id) ≡ true) seats
        → be.seat_rows.row w'.seats i ≡ some (freed x)

  -- Counting a release leaves the tables and the clock alone.
  count_expiry-rest :
      (f : ℕ) (b : Bool) (u : World be)
      → (u' : World be) × (count_expiry (some f) Mechanism.sweep b u ≡ (ok tt, u'))
        × (u'.tables ≡ u.tables)
        × (u'.clock ≡ u.clock)
  count_expiry-rest f true u = (_, refl, refl, refl)
  count_expiry-rest f false u = (u, refl, refl, refl)

  module _ (seat : Seat) (seats : List Seat) (w u u' w' : World be) (d : Settled seat.id w u)
      (tables : u'.tables ≡ u.tables) (clock : u'.clock ≡ u.clock) (rest : Swept seats u' w') where
    Swept-stale :
        (i : ℕ) (x : Seat)
        → be.seat_rows.row w.seats i ≡ some x
        → is_stale w.clock x ≡ true
        → Any (λ q. (i == q.id) ≡ true) (seat ∷ seats)
        → be.seat_rows.row w'.seats i ≡ some (freed x)
    Swept-stale i x at st listed = elim (Bool-cases (i == seat.id)) [
      | inl here ↦ rest.free i x (ground (arith, d.stale x))
      | inr there ↦
          rest.stale i x (ground (arith, d.others i)) (ground (arith, d.clock)) (ground arith)
    ]

    Swept-cons : Swept (seat ∷ seats) w w'
    Swept-cons = record {
      clock = rest.clock ∙ clock ∙ d.clock;
      unlisted = λ i un. ground (arith, rest.unlisted i, d.others i);
      free = λ i x e. elim (Bool-cases (i == seat.id)) [
        | inl here ↦ rest.free i x (ground (arith, d.free (freed x)))
        | inr there ↦ rest.free i x (ground (arith, d.others i))
      ];
      stale = Swept-stale;
    }

  sweep_seats-cons :
      (seat : Seat) (seats : List Seat) (w u u' w' : World be) (b : Bool)
      → release_seat (λ v. v) seat.id w ≡ (ok b, u)
      → count_expiry (some seat.flight_id) Mechanism.sweep b u ≡ (ok tt, u')
      → sweep_seats (λ v. v) seats u' ≡ (ok tt, w')
      → sweep_seats (λ v. v) (seat ∷ seats) w ≡ (ok tt, w')
  unfolding sweep_seats
  sweep_seats-cons seat seats w u u' w' b h c k = ground arith

  module _ (grants : AlwaysGrants be) where
    sweep_seats-Swept :
        (seats : List Seat) (w : World be)
        → (w' : World be) × (sweep_seats (λ v. v) seats w ≡ (ok tt, w')) × Swept seats w w'
    unfolding sweep_seats
    sweep_seats-Swept [] w = (
      w,
      refl,
      record {
        clock = refl;
        unlisted = λ i un. refl;
        free = λ i x e. e;
        stale = λ i x e st listed. absurd listed;
      },
    )
    sweep_seats-Swept (seat ∷ seats) w =
        let (b, u, h, d) = release_seat-Settled grants seat.id w in
        let (u', c, tables, clock) = count_expiry-rest seat.flight_id b u in
        let (w', k, rest) = sweep_seats-Swept seats u' in
        (
          w',
          sweep_seats-cons seat seats w u u' w' b h c k,
          Swept-cons seat seats w u u' w' d tables clock rest,
        )

abbrev pub swept : ℕ → Seat → Seat
swept clock x = if is_stale clock x then freed x else x

listed_of_stale :
    (i : ℕ) (x : Seat) (seats : List Seat)
    → (i == x.id) ≡ true
    → Any (λ q. q ≡ x) seats
    → Any (λ q. (i == q.id) ≡ true) seats
listed_of_stale i x [] same none_there = absurd none_there
listed_of_stale i x (q ∷ seats) same (inl here) = inl (ground arith)
listed_of_stale i x (q ∷ seats) same (inr there) = inr (listed_of_stale i x seats same there)

module _ {be : Backend} where
  unlisted_of_fresh :
      (w : World be) (i : ℕ) (seats : List Seat)
      → ((x : Seat) → be.seat_rows.row w.seats i ≡ some x → is_stale w.clock x ≡ false)
      → All (λ q. (be.seat_rows.row w.seats q.id ≡ some q) × (is_stale w.clock q ≡ true)) seats
      → All (λ q. (i == q.id) ≡ false) seats
  unlisted_of_fresh w i [] fresh all = tt
  unlisted_of_fresh w i (q ∷ seats) fresh ((at, st), all) = (
    elim (Bool-cases (i == q.id)) [
      | inl here ↦ absurd (ground (arith, fresh q))
      | inr there ↦ there
    ],
    unlisted_of_fresh w i seats fresh all,
  )

  -- If every lock is granted and released, a sweep with nothing running beside it returns, and
  -- afterwards each seat that was HELD since the hold duration or longer is AVAILABLE with no
  -- holder and no time of a hold, and every other seat is as it was.
  pub sweep_expired_holds-swept :
      AlwaysGrants be
      → (w : World be)
      → (w' : World be) × (sweep_expired_holds (λ v. v) w ≡ (ok tt, w'))
        × ((i : ℕ)
            → be.seat_rows.row w'.seats i ≡ Option.map (swept w.clock) (be.seat_rows.row w.seats i))
  unfolding sweep_expired_holds
  sweep_expired_holds-swept grants w =
      let seats = be.seat_rows.find (λ _ _. true) (is_stale w.clock) w.seats in
      let all = be.seat_rows.find-sound (λ _ _. true) (is_stale w.clock) w.seats in
      let (w', h, d) = sweep_seats-Swept grants seats w in
      (
        w',
        h,
        λ i. elim (Option-cases (be.seat_rows.row w.seats i)) [
          | inl none_there ↦
              let un = unlisted_of_fresh w i seats (λ x e. absurd (ground arith)) all in
              ground (arith, d.unlisted i un)
          | inr (x, at) ↦ elim (Bool-cases (is_stale w.clock x)) [
            | inl st ↦
                let key = be.seat_rows.row-key w.seats i x at in
                let listed =
                  listed_of_stale i x seats (ground arith) (
                    be.seat_rows.find-complete (λ _ _. true) (is_stale w.clock) w.seats i x at
                      st) in
                ground (arith, d.stale i x at st listed)
            | inr fresh ↦
                let un = unlisted_of_fresh w i seats (λ y e. ground arith) all in
                ground (arith, d.unlisted i un)
          ]
        ],
      )
