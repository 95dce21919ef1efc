-- ===== src/Logic/Publisher.antt =====
-- internal/logic/payment_event_publisher.go and ticket_event_publisher.go: messages for other
-- services, put into the outbox.
use cicd_demo.Base.{String, Option, none}
use cicd_demo.Constants.{PaymentAction, action_string}
use cicd_demo.Models.{ObjectId, Bill, Payload, outbox_pending}
use cicd_demo.Platform.{Mongo, Env, M, deref, ◌>>=◌, new_object_id, time_now}
use cicd_demo.Dao.Outbox

pub record PaymentEventPublisher : Type 0 where
  pub payment_event_topic : String

pub record TicketEventPublisher : Type 0 where
  pub generate_tickets_topic : String

module _ ⦃m : Mongo⦄ ⦃e : Env⦄ where
  -- A bill without a payment method is dereferenced.
  unfoldable pub publish_payment_event :
      PaymentEventPublisher → PaymentAction → Bill → ObjectId → M Unit
  publish_payment_event p action bill merchant_id = do
    payment_method ← deref bill.payment_method
    id ← new_object_id
    now ← time_now
    Outbox.create (record {
      id = id;
      topic = p.payment_event_topic;
      payload = Payload.payment_event (record {
        action = action_string action;
        bill_id = bill.id;
        amount = e.decimal_string bill.amount;
        order_id = bill.order;
        payment_method = payment_method.id;
        merchant_id = merchant_id;
      });
      status = outbox_pending;
      retries = 0;
      claim_id = none;
      created_at = now;
      updated_at = none;
      processed_at = none;
      error = "";
    })

  -- The receiver may be nil, and its topic is read.
  unfoldable pub publish_ticket_generation_task : Option TicketEventPublisher → ObjectId → M Unit
  publish_ticket_generation_task publisher order_id = do
    id ← new_object_id
    p ← deref publisher
    now ← time_now
    Outbox.create (record {
      id = id;
      topic = p.generate_tickets_topic;
      payload = Payload.ticket_task order_id;
      status = outbox_pending;
      retries = 0;
      claim_id = none;
      created_at = now;
      updated_at = none;
      processed_at = none;
      error = "";
    })
