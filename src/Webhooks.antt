-- ===== src/Webhooks.antt =====
-- Webhook deliveries: createWebhookDispatcher (src/webhooks/dispatcher.ts) and
-- createInMemoryWebhookDeliveryStore (src/webhooks/inMemoryStore.ts). The replies to the requests, the
-- signature, the text of a number, the pattern that reads a status and the throws of onDeliveryError are
-- parameters.
pub mod Laws
mod Tests
use Prim.Native.String.{◌++◌ as ◌+++◌}
use absolute_auth.Prelude.{
  ℕ, zero, suc, ◌+◌, ◌-◌, ◌*◌, ◌^◌, String, Bool, true, false, ◌&&◌, Option, none, some, List, [],
  ◌∷◌, ◌++◌, leb, ltb, if◌then◌else◌, includes, sort_descending,
}
use absolute_auth.JsMap.{JsMap, set, delete, values}

-- The data of the event is the application's.
pub record WebhookEvent (D : Type 0) : Type 0 where
  pub created_at : ℕ
  pub data_ : D
  pub id : String
  pub type_ : String

pub record WebhookEndpoint : Type 0 where
  pub events : Option (List String)
  pub secret : String
  pub url : String

pub record WebhookDelivery (D : Type 0) : Type 0 where
  pub attempts : ℕ
  pub created_at : ℕ
  pub endpoint_url : String
  pub envelope : WebhookEvent D
  pub last_error : String
  pub last_status : Option ℕ

-- A response, or what fetch throws: the message of an error, or undefined.
pub data Reply : Type 0 where
  response : (ok : Bool) (status : ℕ) → Reply
  thrown : (error : Option String) → Reply

-- The text of a number, the pattern that reads a status, and for which endpoint the application's
-- onDeliveryError throws.
pub record Runtime : Type 0 where
  pub number_text : ℕ → String
  pub callback_throws : WebhookEndpoint → Bool
  pub status_in : String → Option ℕ

pub record Retry : Type 0 where
  pub attempts : ℕ
  pub initial_delay_ms : ℕ
  pub backoff_multiplier : ℕ

-- What a delivery does to the world, in order.
pub data Effect : Type 0 where
  sent : (attempt : ℕ) → Effect
  slept : (delay_ms : ℕ) → Effect

-- What tryDeliverThenBackoff catches: none after a success, and an error that may be undefined.
unfoldable pub caught : Runtime → Reply → Option (Option String)
caught runtime (response ok status) =
    if ok then none else some (some ("Webhook delivery returned " +++ runtime.number_text status))
caught runtime (thrown error) = some error

-- The value that it returns: undefined both after a success and for an error that is undefined.
unfoldable pub returned : Option (Option String) → Option String
returned none = none
returned (some error) = error

-- The sleep after a failure, but for the last attempt.
unfoldable pub backoff : Retry → ℕ → Option (Option String) → List Effect
backoff retry attempt none = []
backoff retry attempt (some error) =
    if leb (retry.attempts - 1) attempt
    then []
    else slept (retry.initial_delay_ms * retry.backoff_multiplier ^ attempt) ∷ []

-- How the loop ended: delivered, or the last error of an exhausted loop.
pub data Outcome : Type 0 where
  delivered : Outcome
  gave_up : (last_error : Option String) → Outcome

module _ (runtime : Runtime) (retry : Retry) (replies : ℕ → Reply) where
  -- The loop from an attempt on, with the attempts that are left.
  unfoldable pub deliver_from : ℕ → ℕ → Option String → List Effect × Outcome
  unfolding caught returned backoff
  deliver_from zero attempt last_error = ([], gave_up last_error)
  deliver_from (suc left) attempt last_error =
      let error = caught runtime (replies attempt) in
      let effects = sent attempt ∷ backoff retry attempt error in
      let (rest, outcome) = deliver_from left (attempt + 1) (returned error) in
      elim (returned error) [ none ↦ (effects, delivered) | some e ↦ (effects ++ rest, outcome) ]

  unfoldable pub delivery_loop : List Effect × Outcome
  unfolding deliver_from
  delivery_loop = deliver_from retry.attempts 0 none

-- errorMessage: String(undefined) is "undefined".
unfoldable pub error_message : Option String → String
error_message none = "undefined"
error_message (some message) = message

unfoldable pub status_from_error : Runtime → Option String → Option ℕ
status_from_error runtime none = none
status_from_error runtime (some message) = runtime.status_in message

-- How a delivery ends for its caller: nothing to report, a failure that was reported, or the throw of
-- onDeliveryError, which rejects its promise.
pub data Report : Type 0 where
  silent reported rejected : Report

abbrev pub DeliveryStore : Type 0 → Type 0
DeliveryStore D = JsMap (WebhookDelivery D)

module _ {D : Type 0} where
  unfoldable pub record_failure : WebhookDelivery D → DeliveryStore D → DeliveryStore D
  record_failure delivery m = set delivery.envelope.id delivery m

  unfoldable pub remove_failure : String → DeliveryStore D → DeliveryStore D
  remove_failure envelope_id m = delete envelope_id m

  take : ℕ → List (WebhookDelivery D) → List (WebhookDelivery D)
  take zero ds = []
  take (suc n) [] = []
  take (suc n) (d ∷ ds) = d ∷ take n ds

  unfoldable pub list_failed : ℕ → DeliveryStore D → List (WebhookDelivery D)
  unfolding take
  list_failed limit m = take limit (sort_descending (λ d. d.created_at) (values m))

  -- The record of a delivery that was given up; `now` is the clock read for it.
  unfoldable pub failure :
      Runtime → Retry → ℕ → WebhookEndpoint → WebhookEvent D → Option String → WebhookDelivery D
  unfolding error_message status_from_error
  failure runtime retry now endpoint envelope last_error = record {
    attempts = retry.attempts;
    created_at = now;
    endpoint_url = endpoint.url;
    envelope = envelope;
    last_error = error_message last_error;
    last_status = status_from_error runtime last_error;
  }

  -- What a delivery leaves in the store, where one is configured: onDeliveryError runs first, and
  -- where it throws nothing is stored.
  unfoldable pub persist :
      Runtime
      → Retry
      → ℕ
      → WebhookEndpoint
      → WebhookEvent D
      → Outcome
      → DeliveryStore D
      → Report × DeliveryStore D
  unfolding record_failure failure
  persist runtime retry now endpoint envelope delivered m = (silent, m)
  persist runtime retry now endpoint envelope (gave_up last_error) m =
      if runtime.callback_throws endpoint
      then (rejected, m)
      else (reported, record_failure (failure runtime retry now endpoint envelope last_error) m)

  unfoldable pub deliver_to_endpoint :
      Runtime
      → Retry
      → (ℕ → Reply)
      → ℕ
      → WebhookEndpoint
      → WebhookEvent D
      → DeliveryStore D
      → Report × DeliveryStore D
  unfolding persist delivery_loop
  deliver_to_endpoint runtime retry replies now endpoint envelope m =
      persist runtime retry now endpoint envelope (delivery_loop runtime retry replies).1 m

  -- endpoint.events === undefined || endpoint.events.includes(event.type)
  unfoldable pub is_subscribed : WebhookEvent D → WebhookEndpoint → Bool
  is_subscribed envelope endpoint = elim endpoint.events [
    | none ↦ true
    | some events ↦ includes envelope.type_ events
  ]

  -- The deliveries of one event, with the endpoints in the order in which theirs end, each with the
  -- replies of its server and the clock at its end.
  unfoldable pub dispatch :
      Runtime
      → Retry
      → (WebhookEndpoint → ℕ → Reply)
      → (WebhookEndpoint → ℕ)
      → WebhookEvent D
      → List WebhookEndpoint
      → DeliveryStore D
      → DeliveryStore D
  unfolding deliver_to_endpoint is_subscribed
  dispatch runtime retry replies ended envelope [] m = m
  dispatch runtime retry replies ended envelope (endpoint ∷ rest) m =
      let m' =
        (if is_subscribed envelope endpoint
          then (deliver_to_endpoint runtime retry (replies endpoint) (ended endpoint) endpoint
              envelope m).1
          else m) in
      dispatch runtime retry replies ended envelope rest m'
