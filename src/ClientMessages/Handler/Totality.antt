-- ===== src/ClientMessages/Handler/Totality.antt =====
-- The handler ends for every input, and what becomes of an ack.
use go_pkg.Common.{
  ℕ, ◌≡◌, refl, sym, subst, Bool, true, false, Bytes, is_empty, str_eq, Option, none, some, List,
  [], Bool-cases, Option-cases, inl, inr, arith, ◌⊎◌,
}
use go_pkg.Common.Table.{get, get-del_self}
use go_pkg.Domain.{Auth}
use go_pkg.Wire.Frame.{Outcome, ok, err, panic, WireError}
use go_pkg.Wire.Decode.{decode}
use go_pkg.Wire.Safety.{decode-ne-panic}
use go_pkg.Message.{
  WebsocketRequest, msg_type_from_frame, unmarshall_request, message_type_heartbeat,
  message_type_ack,
}
use go_pkg.Acks.{resolve_remote_ack}
use go_pkg.Acks.Safety.{
  IsSound, resolved, resolve_ack_found, resolved-IsSound, unknown_unchanged, remote_unchanged,
}
use go_pkg.RateLimit.{Env, get_limiter}
use go_pkg.ClientMessages.Handler.Replies.{rate_limited_is_inert}
use go_pkg.ClientMessages.Handler.{
  outcome_ok, hearbeat_res_msg, Effect, Handler, World, Reply, check_duplicate, call_app,
  handle_app, route_remote_ack, handle_ack, handle_heartbeat, dispatch, invalid_message,
  handle_message_bytes,
}

-- What is left of a run that does not panic and keeps the ack manager sound.
abbrev Ends : {A : Type 0} → Option (A × Handler) → Type 0
Ends {A} o = (r : A) × (h : Handler) × (o ≡ some (r, h)) × IsSound h.ack_manager

Outcome-cases :
    {A : Type 0} (o : Outcome A)
    → ((a : A) × (o ≡ ok a)) ⊎ ((e : WireError) × (o ≡ err e)) ⊎ (o ≡ panic)
Outcome-cases (ok a) = inl (a, refl)
Outcome-cases (err e) = inr (inl (e, refl))
Outcome-cases panic = inr (inr refl)

abbrev heartbeat_reply : List Effect → Reply
heartbeat_reply effects = record {
  response = some hearbeat_res_msg;
  label = outcome_ok;
  effects = effects;
}

abbrev ack_reply : List Effect → Reply
ack_reply effects = record { response = none; label = outcome_ok; effects = effects }

handle_ack-Ends :
    (h : Handler) (ack_id : Bytes) → IsSound h.ack_manager → Ends (handle_ack h ack_id)
unfolding handle_ack
handle_ack-Ends h ack_id s = elim (Bool-cases (is_empty ack_id)) [
  | inl e ↦ ([], h, rw (e, handle_ack) refl, s)
  | inr e ↦ elim (Option-cases (get ack_id (h.ack_manager).pending)) [
    | inr (ch, f) ↦ (
      [],
      record h { ack_manager = resolved h.ack_manager ack_id ch },
      rw (e, resolve_ack_found h.ack_manager ack_id ch s f, handle_ack) refl,
      resolved-IsSound h.ack_manager ack_id ch s f,
    )
    | inl f ↦ (
      route_remote_ack h.ack_manager ack_id,
      record h { ack_manager = (resolve_remote_ack h.ack_manager ack_id).1 },
      rw (e, unknown_unchanged h.ack_manager ack_id f, handle_ack) refl,
      remote_unchanged h.ack_manager ack_id s,
    )
  ]
]

heartbeat_keeps_acks :
    (w : World) (h : Handler) (auth : Auth)
    → ((handle_heartbeat w h auth).1).ack_manager ≡ h.ack_manager
unfolding handle_heartbeat
heartbeat_keeps_acks w h auth = refl

app_keeps_acks :
    (w : World) (h : Handler) (auth : Auth) (msg : WebsocketRequest)
    → ((handle_app w h auth msg).1).ack_manager ≡ h.ack_manager
unfolding handle_app check_duplicate call_app
app_keeps_acks w h auth msg = ground arith

dispatch-Ends :
    (w : World) (h : Handler) (auth : Auth) (msg : WebsocketRequest) (allowed : Bool)
    → IsSound h.ack_manager
    → Ends (dispatch w h auth msg allowed)
unfolding dispatch
dispatch-Ends w h auth msg false s = (_, h, rate_limited_is_inert w h auth msg, s)
dispatch-Ends w h auth msg true s = elim (Bool-cases (str_eq msg.msg_type message_type_heartbeat)) [
  | inl e ↦ (
    heartbeat_reply (handle_heartbeat w h auth).0,
    (handle_heartbeat w h auth).1,
    rw (e, dispatch) refl,
    subst IsSound (sym (heartbeat_keeps_acks w h auth)) s,
  )
  | inr e ↦ elim (Bool-cases (str_eq msg.msg_type message_type_ack)) [
    | inl f ↦
        let (effects, h', done, s') = handle_ack-Ends h msg.binary s in
        (ack_reply effects, h', rw (e, f, done, dispatch) refl, s')
    | inr f ↦ (
      (handle_app w h auth msg).0,
      (handle_app w h auth msg).1,
      rw (e, f, dispatch) refl,
      subst IsSound (sym (app_keeps_acks w h auth msg)) s,
    )
  ]
]

-- From a sound ack manager the handler ends with a reply for every client message, of any bytes,
-- and leaves a sound one: it neither reads out of range nor closes a channel twice.
pub handler_never_panics :
    (c : Env) (w : World) (h : Handler) (auth : Auth) (client_msg : Bytes)
    → IsSound h.ack_manager
    → (r : Reply) × (h' : Handler) × (handle_message_bytes c w h auth client_msg ≡ some (r, h'))
      × IsSound h'.ack_manager
unfolding handle_message_bytes unmarshall_request
handler_never_panics c w h auth client_msg s = elim (Outcome-cases (decode client_msg)) [
  | inl (f, e) ↦
      let msg : WebsocketRequest = record {
        id = f.id;
        msg_type = msg_type_from_frame f;
        binary = f.binary;
      } in
      let (lim, limiter) = get_limiter c h.rate_limiter auth in
      let (r, h', done, s') =
        dispatch-Ends w (record h { rate_limiter = limiter }) auth msg (w.allow lim) s in
      (r, h', rw (e, handle_message_bytes, unmarshall_request) done, s')
  | inr (inl (x, e)) ↦
      (invalid_message w h auth x, h, rw (e, handle_message_bytes, unmarshall_request) refl, s)
  | inr (inr e) ↦ absurd (decode-ne-panic client_msg e)
]

-- From a sound manager, an ack that is pending here is resolved by the client's ack with no other
-- effect, and the entries that say where to route acks stay as they were, one for this ack
-- included.
pub local_ack_keeps_entry :
    (h : Handler) (ack_id : Bytes) (ch : ℕ)
    → IsSound h.ack_manager
    → is_empty ack_id ≡ false
    → get ack_id (h.ack_manager).pending ≡ some ch
    → (h' : Handler) × (handle_ack h ack_id ≡ some ([], h'))
      × (get ack_id (h'.ack_manager).pending ≡ none)
      × ((h'.ack_manager).remote_acks ≡ (h.ack_manager).remote_acks)
unfolding handle_ack
local_ack_keeps_entry h ack_id ch s e f = (
  record h { ack_manager = resolved h.ack_manager ack_id ch },
  rw (e, resolve_ack_found h.ack_manager ack_id ch s f, handle_ack) refl,
  get-del_self ack_id (h.ack_manager).pending,
  refl,
)
