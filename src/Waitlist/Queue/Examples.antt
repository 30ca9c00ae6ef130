-- ===== src/Waitlist/Queue/Examples.antt =====
-- The theorems about joining and leaving at concrete requests.
use sky_high_core.Common.{◌≡◌, ◌≢◌, refl}
use sky_high_core.Domain.Enums.{WaitlistStatus}
use sky_high_core.Domain.Errors.{ok, err, domain, waitlist_not_found}
use sky_high_core.Domain.Dtos.{WaitlistResponse}
use sky_high_core.Platform.World.{World}
use sky_high_core.Platform.Memory.Server.{memory}
use sky_high_core.Audit
use sky_high_core.Samples.{no_rows, one_row, entry_of, no_keys, world_of}
use sky_high_core.Waitlist.Queue.{
  to_response_dto, get_next_position, new_entry, insert_entry, join_waitlist, leave_waitlist,
}
use sky_high_core.Waitlist.Queue.Joining.{Joined, join_waitlist-Joined}
use sky_high_core.Waitlist.Queue.Race.{join_waitlist_race}
use sky_high_core.Waitlist.Queue.Rejoining.{join_waitlist_rejoining}
use sky_high_core.Waitlist.Queue.Endings.{LeaveEnds, leave_waitlist-LeaveEnds}

abbrev queue : World memory
queue = world_of no_rows no_rows (one_row 2 (entry_of WaitlistStatus.waiting)) no_keys 1000

abbrev second : WaitlistResponse
second = record {
  id = 10;
  flight_id = 1;
  passenger_id = 9;
  position = 2;
  status = WaitlistStatus.waiting;
  created_at = 1000;
}

abbrev joined : World memory
joined = (join_waitlist (λ w. w) 9 1 queue).1

queue_joins : join_waitlist (λ w. w) 9 1 queue ≡ (ok second, joined)
unfolding join_waitlist get_next_position insert_entry new_entry to_response_dto Audit.log
queue_joins = refl

join_waitlist-Joined_example : Joined 9 1 second queue queue joined
join_waitlist-Joined_example = join_waitlist-Joined (λ w. w) 9 1 second queue joined queue_joins

abbrev gone : WaitlistResponse
gone = record {
  id = 2;
  flight_id = 1;
  passenger_id = 8;
  position = 1;
  status = WaitlistStatus.cancelled;
  created_at = 500;
}

abbrev after_leaving : World memory
after_leaving = (leave_waitlist 2 8 queue).1

queue_leaves : leave_waitlist 2 8 queue ≡ (ok gone, after_leaving)
unfolding leave_waitlist to_response_dto
queue_leaves = refl

-- Passenger 9 names the entry of passenger 8.
foreign_entry :
    leave_waitlist 2 9 queue ≡ (err (domain waitlist_not_found), (leave_waitlist 2 9 queue).1)
unfolding leave_waitlist
foreign_entry = refl

abbrev served_before : World memory
served_before = world_of no_rows no_rows (one_row 2 (entry_of WaitlistStatus.expired)) no_keys 1000

join_waitlist_rejoining_example : join_waitlist (λ w. w) 8 1 served_before ≢ (ok second, joined)
join_waitlist_rejoining_example =
    join_waitlist_rejoining (λ w. w) 8 1 2 (entry_of WaitlistStatus.expired) second served_before
      joined refl refl refl

-- Passenger 11 joins while the request of passenger 9 waits.
abbrev both : World memory
both = (join_waitlist (λ _. joined) 11 1 queue).1

abbrev also_second : WaitlistResponse
also_second = record {
  id = 11;
  flight_id = 1;
  passenger_id = 11;
  position = 2;
  status = WaitlistStatus.waiting;
  created_at = 1000;
}

queue_joins_again : join_waitlist (λ _. joined) 11 1 queue ≡ (ok also_second, both)
unfolding join_waitlist get_next_position insert_entry new_entry to_response_dto Audit.log
queue_joins_again = refl

join_waitlist_race_example : also_second.position ≡ second.position
join_waitlist_race_example =
    join_waitlist_race 11 9 1 also_second second queue joined both queue_joins queue_joins_again

leave_waitlist-LeaveEnds_example : LeaveEnds 2 8 queue (leave_waitlist 2 8 queue)
leave_waitlist-LeaveEnds_example = leave_waitlist-LeaveEnds 2 8 queue
