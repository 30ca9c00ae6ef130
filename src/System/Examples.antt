-- ===== src/System/Examples.antt =====
-- The theorem about runs at a concrete one.
use sky_high_core.Common.{refl, inl, inr, none, ◌==◌, arith, Bool-cases}
use sky_high_core.Domain.Enums.{SeatStatus}
use sky_high_core.Platform.World.{World}
use sky_high_core.Platform.Memory.Server.{memory}
use sky_high_core.Samples.{no_rows, one_row, seat_of, no_keys, world_of}
use sky_high_core.CheckIn.Start.{start_check_in}
use sky_high_core.CheckIn.Cancel.{cancel_check_in}
use sky_high_core.System.{Moves, stay}
use sky_high_core.System.Seats.{SeatsCoherent}
use sky_high_core.System.Bookings.{OneBooking}
use sky_high_core.System.Entries.{OneEntry}
use sky_high_core.System.Calls.{Run, idle, ◌next◌, starts, cancels, Run-invariants}

abbrev empty : World memory
empty = world_of (one_row 5 (seat_of SeatStatus.available none none)) no_rows no_rows no_keys 1000

quiet : Moves memory (λ w. w)
quiet w = stay refl

abbrev held : World memory
held = (start_check_in (λ w. w) 7 1 5 empty).1

abbrev left : World memory
left = (cancel_check_in (λ w. w) 0 7 held).1

run : Run memory empty left
run = idle empty refl next starts (λ w. w) quiet 7 1 5 next cancels (λ w. w) quiet 0 7

seats : SeatsCoherent memory.db empty.tables
seats i s e = elim (Bool-cases (i == 5)) [ inl y ↦ ground arith | inr y ↦ ground arith ]

bookings : OneBooking memory.db empty.tables
bookings i j a b e e' p q = ground arith

entries : OneEntry memory.db empty.tables
entries i j a b e e' p q = ground arith

Run-invariants_example :
    SeatsCoherent memory.db left.tables
    × OneBooking memory.db left.tables
    × OneEntry memory.db left.tables
Run-invariants_example = Run-invariants empty left run seats bookings entries
