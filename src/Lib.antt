-- ===== src/Lib.antt =====
-- The SkyHigh check-in backend (src/, a NestJS application): seat holds, check-in, baggage fees,
-- payment, hold expiry and the waitlist, with the guard, the limiter, the interceptor and the filter
-- that a request passes, and the seeds of a new database.
--
-- How the parts interact. `POST /check-ins` holds a seat for two minutes (check-in service): a row of
-- the seat table goes from AVAILABLE to HELD by a compare-and-set in a transaction, under a Redlock
-- lock on the seat, and a key with a time to live goes to Redis. A confirmation asks the baggage
-- service for the fee and, if there is one, the payment service for the money, then completes the
-- check-in; a cancellation frees the seat. When the key in Redis runs out, a subscriber reads the seat
-- from the key's text and the hold expiry service releases the seat; a sweep every thirty seconds does
-- the same for every hold that is old enough. Releases and cancellations emit an event on which the
-- waitlist service gives the seat to the passenger who waits first, and the notification service
-- tells that passenger. Every change is logged by the audit service, and drops the seat service's
-- cached seat map.
--
-- The files:
--   Common      Boolean tests, lists over the native numbers, words of a text, names passed on from
--               the libraries.
--   Domain      The data: src/common/types/enums.ts (Enums), the entities src/*/*.entity.ts
--               (Entities), the exceptions src/common/filters/exceptions (Errors), the request and
--               response objects src/*/dto (Dtos), and what services emit: events and metrics.
--   Platform    What is not in the repository. Table is a TypeORM repository as an interface:
--               operations, and laws by the content of the table. Backend has Redis, Redlock and
--               transactions, World the state that a method sees: tables, Redis, locks, the clock,
--               the events and the metrics. Memory implements the interfaces, for the examples.
--   Redis       src/common/redis/redis.service.ts and redis.constants.ts. Ttl and KeyPrefix have the
--               constants, Keys the texts of the keys, Subscriber the subscriber
--               redis-key-expiry.subscriber.ts of the same folder.
--   Audit       src/audit/audit.service.ts.
--   Seat        src/seat/seat.service.ts.
--   Baggage     src/baggage/baggage.service.ts.
--   Doubles     The floating-point arithmetic that the baggage service computes with.
--   Payment     src/payment/payment.service.ts.
--   Controllers The controllers src/*/*.controller.ts but the one of the health checks, behind the
--               guard and the limiter as src/app.module.ts and src/seat/seat.module.ts put them.
--   CheckIn     src/check-in/check-in.service.ts: Steps has the private methods that several
--               operations call, Start, Confirm and Cancel the operations.
--   Expiry      src/check-in/hold-expiry.service.ts: Release has the releases and the sweep, Keyspace
--               the way from the text of an expired key to a release.
--   Waitlist    src/waitlist/waitlist.service.ts: Queue has joining, leaving and listing, Assign the
--               processing.
--   Notification  src/notification/notification.service.ts, with the replies of the Notification
--               Service as a parameter.
--   Filter      src/common/filters: the filter and the error types.
--   Interceptor src/common/interceptors/logging.interceptor.ts.
--   JwtGuard    src/common/guards/jwt-auth.guard.ts and src/common/decorators, with the JWT library
--               as a parameter.
--   RateLimiter src/common/middleware/rate-limiter.middleware.ts and src/audit/abuse-event.service.ts,
--               with the sorted sets of Redis as an interface.
--   Metrics     src/common/observability/metrics.service.ts, with the registry of the Prometheus
--               client as an interface.
--   Tracing     src/common/observability/tracing.util.ts.
--   Health      src/health/redis-health.indicator.ts.
--   Flights     src/flight/flight.service.ts.
--   Seeds       seeds/seed.ts: the data and the generated seats, and in Running the transaction that
--               stores them, with the repositories as an interface.
--   System      The parts together: what the services do to the tables as steps, sequences of them,
--               and runs of the program. Motion has what a passenger's requests do to the tables as an
--               interface, by which a method is followed once, in its module Stepping; Privacy is one
--               such relation. Owners has the seats as a register of owners, Handover the way of a
--               seat from one passenger to the next, Waiters that the passengers of the waitlist are
--               stored.
--   Samples     Data for the examples, which stand in modules named Examples.
-- A definition has the name of its method in snake case: `startCheckIn` is `start_check_in`.
--
-- How the code is read. A method is an action on the state that returns or throws; what was written
-- before a throw stays, unless a transaction rolls it back. A transaction is one step. Where other
-- requests can run between a method's first reading and its write, or while an outside service is
-- called, a parameter (`meanwhile`, and `weighing` for the Weight Service) is what they do, any
-- function on the state; a theorem then says what the transaction met. Between the other awaits of
-- a method nothing is taken to run: the search and the save in `leaveWaitlist` and in the marking
-- of an expired entry are one step, and so are the readings at the start of a method. A write to
-- Redis can be rejected, and then throws; Redlock runs on the same Redis, so that at such a time no
-- lock is released either. Nothing more is assumed of the locks, unless a theorem says that they
-- are granted: they may be granted twice, be refused, or fail to be released, so no theorem rests
-- on mutual exclusion. An id is a number, and where texts are made of ids or read as ids, the
-- functions between the two are parameters. A date and the clock are milliseconds, and a fresh id
-- is one that the table does not have. A key in Redis is there before its time to live is over and
-- gone after it. Weights and fees are floating-point numbers, each written as the whole number of
-- units of 2 ^ -1074 that it is, and the fee is rounded as TypeScript does; the halvings in the
-- rounding are as many as the number, which is enough. A column that is too small for a number
-- makes the query throw, and so do a unique constraint and, where a service names a passenger, the
-- foreign key to the passengers; the other foreign keys hold, since no service deletes a row. A
-- read of Redis is taken to be answered, and so is a query of the database that meets no
-- constraint. A save of the audit log that nobody waits for is under way from its start until it
-- ends, at any later time, or fails. The loop of the payment's retries is a recursion on the
-- attempts that are left, `maxRetries + 1` at first; the loops of the sweep and of the seeds are
-- recursions on the list of seats and on the rows that are left; the replacement in a path is a
-- recursion on the path, with the characters of the last match that are still to be skipped.
--
-- Not modelled: the texts of log lines, the framework's routing and validation, the configuration, the
-- migrations, the stubs, the health library, and `ttl` of the Redis service, which nobody calls. The
-- methods of the services stand without their trace spans. The Weight Service is called, but its reply
-- has no effect on the state.
pub mod Common
pub mod Domain
pub mod Doubles
pub mod Platform
pub mod Redis
pub mod Audit
pub mod Samples
pub mod Seat
pub mod Baggage
pub mod Payment
pub mod CheckIn
pub mod Controllers
pub mod Health
pub mod Tracing
pub mod Expiry
pub mod Waitlist
pub mod System
pub mod Filter
pub mod JwtGuard
pub mod Interceptor
pub mod Metrics
pub mod Seeds
pub mod Notification
pub mod RateLimiter
pub mod Flights
