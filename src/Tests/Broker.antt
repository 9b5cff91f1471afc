-- ===== src/Tests/Broker.antt =====
-- A subscriber of the broker.
use gocommon.Base.{◌≡◌, refl, true, none, some, List, [], ◌∷◌, ℕ}
use gocommon.Rabbitmq.{
  handled, ContextValues, ack, nack, subscribe, deliver, Round, failed, consumed, slept, delivered,
  resubscribe, not_connected, unsubscribed,
}
use gocommon.Rabbitmq.Settled.{deliver-subscribe}
use gocommon.Rabbitmq.Backoff.{resubscribe-exponential, exponential}

abbrev requeues : ContextValues
requeues = record { requeue_on_error = some true; durable_queue = none; ack_success = some true }

-- The handler has failed, and the message was acknowledged before.
deliver-subscribe_example :
    deliver {E = ℕ} (subscribe "orders" true requeues) (some 1) ≡ ack ∷ handled ∷ nack true ∷ []
deliver-subscribe_example = deliver-subscribe {E = ℕ} "orders" true requeues (some 1)

abbrev outage : List (Round ℕ)
outage =
    failed ∷ failed ∷ not_connected ∷ failed ∷ consumed (7 ∷ 8 ∷ []) ∷ failed ∷ unsubscribed ∷ []

resubscribe-exponential_example : resubscribe 100 outage ≡ exponential 0 outage
resubscribe-exponential_example = resubscribe-exponential outage

outage_run :
    resubscribe 100 outage
    ≡ slept 100 ∷ slept 200 ∷ slept 400 ∷ delivered 7 ∷ delivered 8 ∷ slept 100 ∷ []
unfolding resubscribe
outage_run = refl
