-- ===== src/Notification.antt =====
-- src/notification/notification.service.ts: what the Notification Service is sent. Its replies are
-- a parameter; the HTTP client is not modelled beyond that.
pub mod Delivery
mod Examples
use sky_high_core.Common.{ℕ, String, Option, none, some, List, [], ◌∷◌}
use sky_high_core.Domain.Dtos.{Event}

pub data NotificationEventType : Type 0 where
  waitlist_seat_assigned hold_expiry_warning : NotificationEventType

pub record NotificationRequest : Type 0 where
  pub type : NotificationEventType
  pub passenger_id : ℕ
  pub flight_id : ℕ
  pub seat_id : ℕ
  pub waitlist_entry_id : ℕ

pub record NotificationResponse : Type 0 where
  pub notification_id : String

-- How a POST ends: with a response, or with an error, such as a timeout.
pub data Reply : Type 0 where
  response : NotificationResponse → Reply
  failure : (message : String) → Reply

abbrev returned : Reply → Option NotificationResponse
returned (response r) = some r
returned (failure message) = none

module _ (service : NotificationRequest → Reply) where
  -- Requests are listed newest first.
  pub send_notification :
      NotificationRequest
      → List NotificationRequest
      → Option NotificationResponse × List NotificationRequest
  send_notification request posted = (returned (service request), request ∷ posted)

  -- The payload's parts are the arguments.
  pub handle_waitlist_assignment :
      (passenger_id flight_id seat_id waitlist_entry_id : ℕ)
      → List NotificationRequest
      → List NotificationRequest
  unfolding send_notification
  handle_waitlist_assignment passenger_id flight_id seat_id waitlist_entry_id posted =
      (send_notification
        (record {
          type = NotificationEventType.waitlist_seat_assigned;
          passenger_id = passenger_id;
          flight_id = flight_id;
          seat_id = seat_id;
          waitlist_entry_id = waitlist_entry_id;
        })
        posted).1

  -- What the listener of `WAITLIST_NOTIFICATION_EVENT` has sent for some events, newest first.
  pub delivered : List Event → List NotificationRequest
  unfolding handle_waitlist_assignment
  delivered [] = []
  delivered (Event.waitlist_process f s ∷ events) = delivered events
  delivered (Event.waitlist_notification p f s e ∷ events) =
      handle_waitlist_assignment p f s e (delivered events)
