-- ===== src/Webhooks/Laws.antt =====
-- How often an endpoint is tried, when the loop sleeps, and what is stored of a failure.
use absolute_auth.Prelude.{
  ℕ, zero, suc, ◌+◌, ◌*◌, ◌^◌, ◌-◌, ◌≤◌, ◌<◌, ◌≡◌, String, true, false, Option, none, some, List,
  [], ◌∷◌, ◌++◌, arith, eq_iff, ap, ◌⊎◌, inl, inr, leb, if◌then◌else◌,
}
use absolute_auth.JsMap.{get}
use absolute_auth.JsMap.Laws.{get-set}
use absolute_auth.Webhooks.{
  Runtime, Retry, Reply, Effect, sent, slept, delivered, gave_up, caught, deliver_from,
  delivery_loop, WebhookEvent, WebhookEndpoint, DeliveryStore, persist, failure, record_failure,
  deliver_to_endpoint, dispatch, is_subscribed, silent, reported, rejected, error_message,
  status_from_error,
}

-- The requests of a number of attempts from one on: a sleep between two of them, its length
-- multiplied each time, and none after the last.
abbrev pub requests : Retry → ℕ → ℕ → List Effect
requests retry attempt zero = []
requests retry attempt (suc zero) = sent attempt ∷ []
requests retry attempt (suc (suc n)) =
    sent attempt
    ∷ slept (retry.initial_delay_ms * retry.backoff_multiplier ^ attempt)
    ∷ requests retry (attempt + 1) (suc n)

-- The sleep after a failure that is not the last attempt's.
abbrev pub pause : Retry → ℕ → List Effect
pause retry attempt =
    if leb (retry.attempts - 1) attempt
    then []
    else slept (retry.initial_delay_ms * retry.backoff_multiplier ^ attempt) ∷ []

module _ (runtime : Runtime) (retry : Retry) (replies : ℕ → Reply) (errors : ℕ → String) where
  abbrev Fails : ℕ → Type 0
  Fails k = caught runtime (replies k) ≡ some (some (errors k))

  exhausted_from :
      (left attempt : ℕ) (last_error : Option String)
      → attempt + suc left ≡ retry.attempts
      → ((k : ℕ) → attempt ≤ k → k < retry.attempts → Fails k)
      → deliver_from runtime retry replies (suc left) attempt last_error
        ≡ (requests retry attempt (suc left), gave_up (some (errors (attempt + left))))
  unfolding deliver_from
  exhausted_from zero attempt last_error e fails =
      let f = fails attempt (omega arith) (omega arith) in ground (arith, f, e)
  exhausted_from (suc left) attempt last_error e fails =
      let f = fails attempt (omega arith) (omega arith) in
      let rest =
        exhausted_from left (attempt + 1) (some (errors attempt)) (omega arith)
          (λ k l. fails k (omega arith)) in
      ground (arith, f, rest, e)

  succeeded_from :
      (n left attempt : ℕ) (last_error : Option String)
      → attempt + left ≡ retry.attempts
      → n < left
      → ((k : ℕ) → attempt ≤ k → k < attempt + n → Fails k)
      → caught runtime (replies (attempt + n)) ≡ none
      → deliver_from runtime retry replies left attempt last_error
        ≡ (requests retry attempt (suc n), delivered)
  unfolding deliver_from
  succeeded_from n zero attempt last_error e l fails ok = absurd (omega arith)
  succeeded_from zero (suc left) attempt last_error e l fails ok = ground (arith, ok)
  succeeded_from (suc n) (suc left) attempt last_error e l fails ok =
      let f = fails attempt (omega arith) (omega arith) in
      let rest =
        succeeded_from n left (attempt + 1) (some (errors attempt)) (omega arith) (omega arith)
          (λ k low high. fails k (omega arith) (omega arith))
          (let same : attempt + suc n ≡ attempt + 1 + n = omega arith in rw⁻¹ same ok) in
      ground (arith, f, rest, e)

  undefined_from :
      (n left attempt : ℕ) (last_error : Option String)
      → attempt + left ≡ retry.attempts
      → n < left
      → ((k : ℕ) → attempt ≤ k → k < attempt + n → Fails k)
      → caught runtime (replies (attempt + n)) ≡ some none
      → deliver_from runtime retry replies left attempt last_error
        ≡ (requests retry attempt (suc n) ++ pause retry (attempt + n), delivered)
  unfolding deliver_from
  undefined_from n zero attempt last_error e l fails u = absurd (omega arith)
  undefined_from zero (suc left) attempt last_error e l fails u =
      let z : attempt + zero ≡ attempt = omega arith in rw z (ground (arith, rw z at u))
  undefined_from (suc n) (suc left) attempt last_error e l fails u =
      let f = fails attempt (omega arith) (omega arith) in
      let same : attempt + suc n ≡ attempt + 1 + n = omega arith in
      let rest =
        undefined_from n left (attempt + 1) (some (errors attempt)) (omega arith) (omega arith)
          (λ k low high. fails k (omega arith) (omega arith)) (rw⁻¹ same u) in
      rw same (ground (arith, f, rest, e))

-- A delivery whose first requests fail with an error, each a refusal or a rejection that is not
-- undefined, stops at the next one: delivered, where that is answered with success, and also, after one
-- more sleep unless it is the last attempt, where it rejects with undefined; given up with its
-- error, where it fails too and is the last of the configured number. It sends one request for each
-- attempt, in order, and sleeps between two of them, the delay multiplied each time.
pub delivery_stops :
    (runtime : Runtime) (retry : Retry) (replies : ℕ → Reply) (errors : ℕ → String) (n : ℕ)
    → ((k : ℕ) → k < n → caught runtime (replies k) ≡ some (some (errors k)))
    → (n < retry.attempts
        → caught runtime (replies n) ≡ none
        → delivery_loop runtime retry replies ≡ (requests retry 0 (suc n), delivered))
      × (suc n ≡ retry.attempts
          → caught runtime (replies n) ≡ some (some (errors n))
          → delivery_loop runtime retry replies
            ≡ (requests retry 0 retry.attempts, gave_up (some (errors n))))
      × (n < retry.attempts
          → caught runtime (replies n) ≡ some none
          → delivery_loop runtime retry replies
            ≡ (requests retry 0 (suc n) ++ pause retry n, delivered))
unfolding delivery_loop
delivery_stops runtime retry replies errors n fails = (
  λ l ok.
      succeeded_from runtime retry replies errors n retry.attempts 0 none (omega arith) l
        (λ k low high. fails k (omega arith)) (let z : n ≡ 0 + n = omega arith in rw⁻¹ z ok),
  λ e f. ground (
    arith,
    e,
    exhausted_from runtime retry replies errors n 0 none (omega arith)
        (λ k low high. ground (arith, fails k, f)),
  ),
  λ l u.
      let z : 0 + n ≡ n = omega arith in
      let ended =
        undefined_from runtime retry replies errors n retry.attempts 0 none (omega arith) l
          (λ k low high. fails k (omega arith)) (rw z u) in
      rw z at ended,
)

module _ {D : Type 0} (runtime : Runtime) (retry : Retry) (envelope : WebhookEvent D) where
  gave_up-get :
      (replies : ℕ → Reply) (now : ℕ) (endpoint : WebhookEndpoint) (e : Option String)
      (m : DeliveryStore D)
      → runtime.callback_throws endpoint ≡ false
      → (delivery_loop runtime retry replies).1 ≡ gave_up e
      → ((deliver_to_endpoint runtime retry replies now endpoint envelope m).0 ≡ reported)
        × (get envelope.id (deliver_to_endpoint runtime retry replies now endpoint envelope m).1
            ≡ some (failure runtime retry now endpoint envelope e))
  unfolding deliver_to_endpoint persist record_failure
  gave_up-get replies now endpoint e m quiet h = ground (
    arith,
    quiet,
    h,
    get-set envelope.id envelope.id (failure runtime retry now endpoint envelope e) m,
    eq_iff envelope.id envelope.id,
  )

  dispatch-get :
      (replies : WebhookEndpoint → ℕ → Reply) (ended : WebhookEndpoint → ℕ)
      (before : List WebhookEndpoint) (endpoint : WebhookEndpoint) (e : Option String)
      (m : DeliveryStore D)
      → is_subscribed envelope endpoint ≡ true
      → runtime.callback_throws endpoint ≡ false
      → (delivery_loop runtime retry (replies endpoint)).1 ≡ gave_up e
      → get envelope.id (dispatch runtime retry replies ended envelope (before ++ endpoint ∷ []) m)
        ≡ some (failure runtime retry (ended endpoint) endpoint envelope e)
  unfolding dispatch
  dispatch-get replies ended [] endpoint e m s quiet h =
      ground (arith, s, gave_up-get (replies endpoint) (ended endpoint) endpoint e m quiet h)
  dispatch-get replies ended (b ∷ before) endpoint e m s quiet h =
      dispatch-get replies ended before endpoint e _ s quiet h

-- When all requests of a delivery fail with an error, none of them a rejection with undefined,
-- onDeliveryError runs; where it does not throw, the store then holds, under the id of the event, the
-- endpoint, the number of attempts, the last error and the status in it, and where it throws the
-- delivery is rejected and the store is left as it was. A delivery that ends with a success, or with a
-- rejection with undefined, reports nothing and changes nothing in the store.
pub exhausted_delivery_stored :
    {D : Type 0} (runtime : Runtime) (retry : Retry) (replies : ℕ → Reply) (errors : ℕ → String)
    (n now : ℕ) (endpoint : WebhookEndpoint) (envelope : WebhookEvent D) (m : DeliveryStore D)
    → ((k : ℕ) → k < n → caught runtime (replies k) ≡ some (some (errors k)))
    → (suc n ≡ retry.attempts
        → caught runtime (replies n) ≡ some (some (errors n))
        → (runtime.callback_throws endpoint ≡ false
            → ((deliver_to_endpoint runtime retry replies now endpoint envelope m).0 ≡ reported)
              × (get envelope.id
                    (deliver_to_endpoint runtime retry replies now endpoint envelope m).1
                  ≡ some (record {
                    attempts = retry.attempts;
                    created_at = now;
                    endpoint_url = endpoint.url;
                    envelope = envelope;
                    last_error = errors n;
                    last_status = runtime.status_in (errors n);
                  })))
          × (runtime.callback_throws endpoint ≡ true
              → deliver_to_endpoint runtime retry replies now endpoint envelope m ≡ (rejected, m)))
      × (n < retry.attempts
          → (caught runtime (replies n) ≡ none) ⊎ (caught runtime (replies n) ≡ some none)
          → deliver_to_endpoint runtime retry replies now endpoint envelope m ≡ (silent, m))
unfolding deliver_to_endpoint persist failure error_message status_from_error
exhausted_delivery_stored runtime retry replies errors n now endpoint envelope m fails =
    let (success, failed, undefined) = delivery_stops runtime retry replies errors n fails in
    (
      λ e f. (
        λ quiet.
            gave_up-get runtime retry envelope replies now endpoint (some (errors n)) m quiet
              (ap (λ r. r.1) (failed e f)),
        λ throws. ground (arith, throws, failed e f),
      ),
      λ l ends. elim ends [
        | inl ok ↦ ground (arith, success l ok)
        | inr u ↦ ground (arith, undefined l u)
      ],
    )

-- Of several endpoints whose deliveries of one event are given up, the store keeps the failure of
-- the one that ended last, where onDeliveryError does not throw for it: the records share the
-- event's id.
pub last_failure_kept :
    {D : Type 0} (runtime : Runtime) (retry : Retry) (replies : WebhookEndpoint → ℕ → Reply)
    (ended : WebhookEndpoint → ℕ) (envelope : WebhookEvent D) (before : List WebhookEndpoint)
    (endpoint : WebhookEndpoint) (e : Option String) (m : DeliveryStore D)
    → is_subscribed envelope endpoint ≡ true
    → runtime.callback_throws endpoint ≡ false
    → (delivery_loop runtime retry (replies endpoint)).1 ≡ gave_up e
    → get envelope.id (dispatch runtime retry replies ended envelope (before ++ endpoint ∷ []) m)
      ≡ some (failure runtime retry (ended endpoint) endpoint envelope e)
last_failure_kept runtime retry replies ended envelope before endpoint e m s quiet h =
    dispatch-get runtime retry envelope replies ended before endpoint e m s quiet h
