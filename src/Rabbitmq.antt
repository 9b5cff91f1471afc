-- ===== src/Rabbitmq.antt =====
-- rabbitmq/rabbitmq.go: how a subscriber settles the messages that it is given, and the loop that
-- keeps it subscribed. What the handler answers, and what a round of the loop meets, are arguments.
pub mod Settled
pub mod Backoff
use gocommon.Base.{
  ℕ, ◌+◌, ◌*◌, Bool, true, false, ◌&&◌, not, Option, none, some, is_some, List, [], ◌∷◌, ◌++◌,
  String, if◌then◌else◌, ltb,
}

-- What Subscribe reads of the values of a context, each of which may be missing.
pub record ContextValues : Type 0 where
  pub requeue_on_error : Option Bool
  pub durable_queue : Option Bool
  pub ack_success : Option Bool

-- `subscriber`, and what the function that Subscribe makes for it has taken.
pub record Subscriber : Type 0 where
  pub topic : String
  pub auto_ack : Bool
  pub may_run : Bool
  pub has_channel : Bool
  pub durable_queue : Bool
  pub ack_success : Bool
  pub requeue_on_error : Bool

-- The calls on a delivery, and that of the handler.
pub data Call : Type 0 where
  ack : Call
  nack : (requeue : Bool) → Call
  handled : Call

-- A value of type bool, false where there is none.
abbrev or_false : Option Bool → Bool
or_false none = false
or_false (some b) = b

-- Subscribe on a broker that has a connection. `auto_ack` is the option that the caller has set.
unfoldable pub subscribe : String → Bool → ContextValues → Subscriber
subscribe topic auto_ack ctx =
    let ack_success = or_false ctx.ack_success in
    record {
      topic = topic;
      auto_ack = if ack_success then false else auto_ack;
      may_run = true;
      has_channel = false;
      durable_queue = or_false ctx.durable_queue;
      ack_success = ack_success;
      requeue_on_error = or_false ctx.requeue_on_error;
    }

-- Unsubscribe; with it comes whether a channel is closed.
unfoldable pub unsubscribe : Subscriber → Bool × Subscriber
unsubscribe s = (s.has_channel, record s { may_run = false })

-- The function `fn` that Subscribe makes; `err` is the answer of the handler.
unfoldable pub fn : {E : Type 0} → Subscriber → Option E → List Call
fn s err =
    let settled : List Call =
      if not (is_some err) && s.ack_success && not s.auto_ack
      then ack ∷ []
      else if is_some err && not s.auto_ack
      then nack s.requeue_on_error ∷ []
      else [] in
    handled ∷ settled

-- The goroutine of a delivery.
unfoldable pub deliver : {E : Type 0} → Subscriber → Option E → List Call
unfolding fn
deliver s err = if not s.auto_ack then ack ∷ fn s err else fn s err

-- What a round of `resubscribe` meets: it is unsubscribed, or the connection is shut down; the
-- connection is lost again; Consume fails; Consume gives deliveries, which end at some time.
pub data Round (D : Type 0) : Type 0 where
  unsubscribed : Round D
  shut_down : Round D
  not_connected : Round D
  failed : Round D
  consumed : (deliveries : List D) → Round D

pub data Action (D : Type 0) : Type 0 where
  slept : (delay : ℕ) → Action D
  delivered : (d : D) → Action D

-- In milliseconds.
abbrev pub min_resubscribe_delay : ℕ
min_resubscribe_delay = 100

abbrev pub max_resubscribe_delay : ℕ
max_resubscribe_delay = 30000

abbrev pub deliveries_of : {D : Type 0} → List D → List (Action D)
deliveries_of [] = []
deliveries_of (d ∷ ds) = delivered d ∷ deliveries_of ds

-- The delay of a failed round.
abbrev pub capped : ℕ → ℕ
capped delay = if ltb max_resubscribe_delay delay then max_resubscribe_delay else delay

-- The loop of `resubscribe`, from the delay that it has, for the rounds that it runs.
unfoldable pub resubscribe : {D : Type 0} → ℕ → List (Round D) → List (Action D)
resubscribe delay [] = []
resubscribe delay (unsubscribed ∷ rounds) = []
resubscribe delay (shut_down ∷ rounds) = []
resubscribe delay (not_connected ∷ rounds) = resubscribe delay rounds
resubscribe delay (failed ∷ rounds) =
    let slept_for = capped delay in slept slept_for ∷ resubscribe (slept_for * 2) rounds
resubscribe delay (consumed ds ∷ rounds) =
    deliveries_of ds ++ resubscribe min_resubscribe_delay rounds
