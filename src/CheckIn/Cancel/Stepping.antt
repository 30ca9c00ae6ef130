-- ===== src/CheckIn/Cancel/Stepping.antt =====
-- How `cancelCheckIn` moves the tables, for any relation that the passenger's writes keep to.
use sky_high_core.Common.{ℕ, inl, inr, arith, Bool-cases, ◌==◌}
use sky_high_core.Domain.Errors.{Result-cases}
use sky_high_core.Platform.Backend.{Backend}
use sky_high_core.Platform.World.{World}
use sky_high_core.System.Motion.{Motion, Beside, rests, ends, join_on}
use sky_high_core.CheckIn.Steps.{find_check_in_or_throw, forget_hold}
use sky_high_core.CheckIn.Steps.Find.{find_check_in_or_throw-Found, find_check_in_or_throw-keeps}
use sky_high_core.CheckIn.Steps.Forget.{forget_hold-tables}
use sky_high_core.CheckIn.Cancel.{has_departed, cancel_transaction, cancel_check_in}
use sky_high_core.CheckIn.Cancel.Effects.{cancel_transaction_lem}

pub cancel_check_in-Moved :
    {be : Backend} {p : ℕ} (m : Motion be.db p) (meanwhile : World be → World be)
    (moves : Beside m meanwhile) (id : ℕ) (w : World be)
    → m.Moved w.tables (cancel_check_in meanwhile id p w).1.tables
unfolding cancel_check_in
cancel_check_in-Moved {be} {p} m meanwhile moves id w =
    elim (Result-cases (find_check_in_or_throw id p w)) [
      | inl (c, w₁, e) ↦
          let found = find_check_in_or_throw-Found id p w c w₁ e in
          let v₀ = meanwhile w in
          let law = be.transaction_law (Unit {0}) (cancel_transaction c) v₀.tables in
          let commits = cancel_transaction_lem c v₀.tables in
          let v : World be = record v₀ { tables = (cancel_transaction c v₀.tables).1 } in
          let kept = forget_hold-tables c.seat_id c.flight_id v in
          elim (Bool-cases
            (has_departed (be.flight_rows.find_one (λ f. f.id == c.flight_id) w.flights))) [
              | inl gone ↦ rests m (ground arith)
              | inr before ↦
                  let moved : m.Moved w.tables (cancel_transaction c v₀.tables).1 =
                    join_on m (moves w)
                      (m.cancels c v₀.tables (w.tables, c, ground arith, found.owner, moves w)) in
                  elim (Result-cases (forget_hold c.seat_id c.flight_id v)) [
                    | inl (u, w₂, q) ↦ ends m (ground arith) moved
                    | inr (x, w₂, q) ↦ ends m (ground arith) moved
                  ]
            ]
      | inr (x, w₁, e) ↦ rests m (ground (arith, find_check_in_or_throw-keeps id p w))
    ]
