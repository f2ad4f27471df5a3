-- ===== src/Webhooks/Tests.antt =====
-- Deliveries to a server that fails, and to one that recovers.
use absolute_auth.Prelude.{ℕ, ◌≡◌, ◌<◌, refl, String, true, false, none, some, [], ◌∷◌, ◌++◌, ◌⊎◌}
use absolute_auth.JsMap.{get}
use absolute_auth.Webhooks.{
  Runtime, Retry, Reply, response, WebhookEvent, WebhookEndpoint, gave_up, delivered, caught,
  delivery_loop, deliver_to_endpoint, dispatch, failure, is_subscribed, silent, reported, rejected,
}
use absolute_auth.Webhooks.Laws.{
  requests, pause, delivery_stops, exhausted_delivery_stored, last_failure_kept,
}

abbrev runtime : Runtime
runtime = record {
  number_text = λ n. "503";
  callback_throws = λ e. false;
  status_in = λ s. some 503;
}

abbrev retry : Retry
retry = record { attempts = 2; initial_delay_ms = 1000; backoff_multiplier = 2 }

abbrev down : ℕ → Reply
down k = response false 503

abbrev error : ℕ → String
error k = "Webhook delivery returned 503"

abbrev endpoint : WebhookEndpoint
endpoint = record { events = none; secret = "s"; url = "https://a.example" }

abbrev envelope : WebhookEvent String
envelope = record { created_at = 0; data_ = "login"; id = "e1"; type_ = "login" }

delivery_stops_example :
    (1 < 2
      → caught runtime (down 1) ≡ none
      → delivery_loop runtime retry down ≡ (requests retry 0 2, delivered))
    × (◌≡◌ {A = ℕ} 2 2
        → caught runtime (down 1) ≡ some (some (error 1))
        → delivery_loop runtime retry down ≡ (requests retry 0 2, gave_up (some (error 1))))
    × (1 < 2
        → caught runtime (down 1) ≡ some none
        → delivery_loop runtime retry down ≡ (requests retry 0 2 ++ pause retry 1, delivered))
unfolding caught
delivery_stops_example = delivery_stops runtime retry down error 1 (λ k l. refl)

exhausted_delivery_stored_example :
    (◌≡◌ {A = ℕ} 2 2
      → caught runtime (down 1) ≡ some (some (error 1))
      → (runtime.callback_throws endpoint ≡ false
          → ((deliver_to_endpoint runtime retry down 9 endpoint envelope []).0 ≡ reported)
            × (get "e1" (deliver_to_endpoint runtime retry down 9 endpoint envelope []).1
                ≡ some (record {
                  attempts = 2;
                  created_at = 9;
                  endpoint_url = "https://a.example";
                  envelope = envelope;
                  last_error = error 1;
                  last_status = some 503;
                })))
        × (runtime.callback_throws endpoint ≡ true
            → deliver_to_endpoint runtime retry down 9 endpoint envelope [] ≡ (rejected, [])))
    × (1 < 2
        → (caught runtime (down 1) ≡ none) ⊎ (caught runtime (down 1) ≡ some none)
        → deliver_to_endpoint runtime retry down 9 endpoint envelope [] ≡ (silent, []))
unfolding caught
exhausted_delivery_stored_example =
    exhausted_delivery_stored runtime retry down error 1 9 endpoint envelope [] (λ k l. refl)

last_failure_kept_example :
    get "e1"
      (dispatch runtime retry (λ e. down) (λ e. 9) envelope (endpoint ∷ [] ++ endpoint ∷ []) [])
    ≡ some (failure runtime retry 9 endpoint envelope (some (error 1)))
unfolding delivery_loop is_subscribed
last_failure_kept_example =
    last_failure_kept runtime retry (λ e. down) (λ e. 9) envelope (endpoint ∷ []) endpoint
      (some (error 1)) [] refl refl refl
