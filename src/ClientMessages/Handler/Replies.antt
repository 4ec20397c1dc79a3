-- ===== src/ClientMessages/Handler/Replies.antt =====
-- What the handler answers and does, on every branch.
use go_pkg.Common.{
  ◌+◌, ◌<◌, ◌≡◌, Bool, true, false, ◌||◌, is_empty, str_eq, none, some, [], ◌++◌, if◌then◌else◌,
  arith,
}
use go_pkg.Common.Table.{get, get-put_self}
use go_pkg.Domain.{Auth}
use go_pkg.Message.{WebsocketRequest, WebsocketResponse, message_type_heartbeat, message_type_ack}
use go_pkg.ClientMessages.Window.{msg_deduplicate_ttl, within, is_duplicate}
use go_pkg.ClientMessages.Handler.{
  outcome_rate_limited, outcome_dedup, Handler, World, Reply, app_response, call_app,
  check_duplicate, handle_app, dispatch, rate_limited,
}

-- A message that is neither a heartbeat nor an ack.
abbrev pub IsAppMessage : WebsocketRequest → Type 0
IsAppMessage msg =
    (str_eq msg.msg_type message_type_heartbeat ≡ false)
    × (str_eq msg.msg_type message_type_ack ≡ false)

-- A message beyond the rate limit has no effect and changes nothing, whatever its type, and only
-- an application message is told so.
pub rate_limited_is_inert :
    (w : World) (h : Handler) (auth : Auth) (msg : WebsocketRequest)
    → dispatch w h auth msg false
      ≡ some (
        record {
          response =
              if str_eq msg.msg_type message_type_heartbeat || str_eq msg.msg_type message_type_ack
              then none
              else some (rate_limited w msg);
          label = outcome_rate_limited;
          effects = [];
        },
        h,
      )
unfolding dispatch
rate_limited_is_inert w h auth msg = ground arith

-- Where an application message is answered, with a reply, an error or the rate limit, the response
-- carries the new ID and names the message that it answers.
pub response_names_request :
    (w : World) (h : Handler) (auth : Auth) (msg : WebsocketRequest) (allowed : Bool) (r : Reply)
    (h' : Handler) (res : WebsocketResponse)
    → IsAppMessage msg
    → dispatch w h auth msg allowed ≡ some (r, h')
    → r.response ≡ some res
    → (res.id ≡ w.res_id) × (res.response_to_id ≡ msg.id)
unfolding dispatch handle_app call_app app_response check_duplicate
response_names_request w h auth msg allowed r h' res is_app e f = ground (arith, is_app, e, f)

-- Of two application messages with non-empty IDs and equal dedup keys, of which the first was no
-- duplicate itself, the second is not given to the application if it comes within the TTL, also
-- where it comes from another session: the key is the message ID and the session ID put together.
pub duplicate_not_handled :
    (w w' : World) (h : Handler) (a b : Auth) (msg msg' : WebsocketRequest)
    → IsAppMessage msg'
    → is_empty msg.id ≡ false
    → is_empty msg'.id ≡ false
    → msg.id ++ a.instance_id ≡ msg'.id ++ b.instance_id
    → within msg_deduplicate_ttl w.now (get (msg.id ++ a.instance_id) h.deduplicator) ≡ false
    → w'.now < w.now + msg_deduplicate_ttl
    → dispatch w' (handle_app w h a msg).1 b msg' true
      ≡ some (
        record { response = none; label = outcome_dedup; effects = [] },
        (handle_app w h a msg).1,
      )
unfolding dispatch handle_app call_app check_duplicate is_duplicate within
duplicate_not_handled w w' h a b msg msg' is_app id id' same fresh soon = ground (
  arith,
  is_app,
  id,
  id',
  same,
  fresh,
  soon,
  get-put_self (msg.id ++ a.instance_id) w.now h.deduplicator,
)
