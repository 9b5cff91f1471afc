-- ===== src/Rabbitmq/Settled.antt =====
-- How often, and how, a delivery of rabbitmq/rabbitmq.go is settled.
use gocommon.Base.{
  ◌≡◌, refl, Bool, true, false, not, ◌||◌, Option, none, some, List, [], ◌∷◌, String, if◌then◌else◌,
}
use gocommon.Rabbitmq.{ContextValues, Call, ack, nack, handled, subscribe, fn, deliver}

-- The subscriber does not leave it to the server: acknowledgement on success is asked for, or automatic
-- acknowledgement is not.
abbrev pub acks_itself : Bool → ContextValues → Bool
acks_itself auto_ack ctx = elim ctx.ack_success [ none ↦ not auto_ack | some b ↦ b || not auto_ack ]

-- What the handler's answer asks for on a subscriber that settles its deliveries itself.
abbrev pub asked : {E : Type 0} → ContextValues → Option E → List Call
asked ctx err = elim err [
  | none ↦ elim ctx.ack_success [ none ↦ [] | some b ↦ if b then ack ∷ [] else [] ]
  | some e ↦ elim ctx.requeue_on_error [ none ↦ nack false ∷ [] | some b ↦ nack b ∷ [] ]
]

deliver-cases :
    {E : Type 0} (topic : String) (auto_ack : Bool) (requeue durable ack_success : Option Bool)
    (err : Option E)
    → let ctx : ContextValues = record {
      requeue_on_error = requeue;
      durable_queue = durable;
      ack_success = ack_success;
    } in
      deliver (subscribe topic auto_ack ctx) err
      ≡ (if acks_itself auto_ack ctx then ack ∷ handled ∷ asked ctx err else handled ∷ [])
unfolding deliver fn subscribe
deliver-cases t true r d none none = refl
deliver-cases t true r d none (some e) = refl
deliver-cases t true r d (some false) none = refl
deliver-cases t true r d (some false) (some e) = refl
deliver-cases t true r d (some true) none = refl
deliver-cases t true none d (some true) (some e) = refl
deliver-cases t true (some b) d (some true) (some e) = refl
deliver-cases t false r d none none = refl
deliver-cases t false none d none (some e) = refl
deliver-cases t false (some b) d none (some e) = refl
deliver-cases t false r d (some false) none = refl
deliver-cases t false none d (some false) (some e) = refl
deliver-cases t false (some b) d (some false) (some e) = refl
deliver-cases t false r d (some true) none = refl
deliver-cases t false none d (some true) (some e) = refl
deliver-cases t false (some b) d (some true) (some e) = refl

-- All calls for a delivery, in their order. A subscriber that asks for automatic acknowledgement,
-- and not for one on success, calls the handler and settles nothing. Every other one acknowledges the
-- delivery, then calls the handler, and then settles it as the handler's answer asks for.
pub deliver-subscribe :
    {E : Type 0} (topic : String) (auto_ack : Bool) (ctx : ContextValues) (err : Option E)
    → deliver (subscribe topic auto_ack ctx) err
      ≡ (if acks_itself auto_ack ctx then ack ∷ handled ∷ asked ctx err else handled ∷ [])
deliver-subscribe topic auto_ack ctx err =
    deliver-cases topic auto_ack ctx.requeue_on_error ctx.durable_queue ctx.ack_success err
