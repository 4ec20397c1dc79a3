-- ===== src/Examples/Admin.antt =====
-- The messages between containers, the events of the broker and the requests of administrators.
use go_pkg.Common.{
  ◌↔◌, ◌⊎◌, ◌≤◌, length, true, false, ◌≡◌, refl, Bytes, bytes, is_empty, if◌then◌else◌, Option,
  none, some, List, [], ◌∷◌, ◌++◌,
}
use mathlib.Core.List.{Memᴰ}
use go_pkg.Broadcast.{
  Params, create, publish, is_for_all, is_valid_input, handled_at, PubsubMessage,
}
use go_pkg.Broadcast.Transport.{copies, published_is_handled}
use go_pkg.CallbackPubsub
use go_pkg.CallbackPubsub.{
  TransportEvent, emits, logs, turns, shuts_down, new_pubsub_transport, queue_size,
}
use go_pkg.CallbackPubsub.Delivery.{jobs_of, let_in, IsSpaced, handed_over_in_order}
use go_pkg.AdminApi.{Call, Answer, Route, unauthorized, require_api_key, trim_space, api}
use go_pkg.AdminApi.Keys.{calls_need_key}

-- The parameters themselves stand for their encoding.
abbrev packed : Params → Params
packed p = p

abbrev unpacked : Bytes → Params → Option Params
unpacked t p = some p

abbrev news : Params
news = Params.send_to_user (bytes "ann") (bytes "news") (some (bytes "hello"))

published_is_handled_example :
    ((create packed unpacked news ≡ none) ↔ (is_valid_input news ≡ false))
    × ((msg : PubsubMessage Params)
        → create packed unpacked news ≡ some msg
        → let sent = publish (λ c. true) (is_for_all news) (bytes "c1" ∷ bytes "c2" ∷ []) msg in
          (sent.1 ≡ true)
          × ((id : Bytes)
              → handled_at packed unpacked id sent.0 ≡ (
                  if is_for_all news
                  then news ∷ []
                  else copies id (bytes "c1" ∷ bytes "c2" ∷ []) news)))
published_is_handled_example =
    published_is_handled packed unpacked (λ p. refl) news (bytes "c1" ∷ bytes "c2" ∷ [])

abbrev all_done : Call → Answer
all_done c = Answer.done

abbrev keys : List Bytes
keys = bytes "k1" ∷ bytes "k2" ∷ []

calls_need_key_example :
    (require_api_key all_done [] keys (bytes "Bearer k2 ") Route.post_cleanup ≡ (unauthorized, []))
    ⊎ ((rest : Bytes) × (bytes "Bearer k2 " ≡ bytes "Bearer " ++ rest)
        × (is_empty (trim_space all_done [] rest) ≡ false)
        × Memᴰ (trim_space all_done [] rest) keys
        × (require_api_key all_done [] keys (bytes "Bearer k2 ") Route.post_cleanup
            ≡ api all_done [] Route.post_cleanup))
calls_need_key_example = calls_need_key all_done [] keys (bytes "Bearer k2 ") Route.post_cleanup

abbrev broker_events : List TransportEvent
broker_events =
    emits (bytes "on_close_connection") (bytes "1")
    ∷ turns false
    ∷ emits (bytes "on_read_error") (bytes "2")
    ∷ logs 0 100
    ∷ logs 100 107
    ∷ logs 0 108
    ∷ shuts_down
    ∷ []

handed_over_in_order_example :
    let t = new_pubsub_transport (bytes "pw") in
    let r = CallbackPubsub.run t broker_events in
    (jobs_of r.delivered ++ r.queue ≡ let_in t broker_events)
    × (length r.queue ≤ queue_size)
    × IsSpaced r.logged
handed_over_in_order_example = handed_over_in_order (bytes "pw") broker_events
