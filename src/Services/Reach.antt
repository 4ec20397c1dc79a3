-- ===== src/Services/Reach.antt =====
-- A message to a session reaches it across containers, by the phase that the session is in there.
use go_pkg.Common.{
  ℕ, Bool, true, false, ◌≡◌, ap, ◌∙◌, Bytes, is_empty, Option, none, some, is_some, if◌then◌else◌,
  List, [], ◌∷◌, arith, Option-cases, inl, inr,
}
use go_pkg.Common.Nested.{get2}
use go_pkg.Domain.{Auth, Conn, user_websocket_auth}
use go_pkg.Connections.{get_connection}
use go_pkg.MsgHub.{is_registered}
use go_pkg.Routing.{find_session_conn, find_in_repo}
use go_pkg.Delivery
use go_pkg.Delivery.{Payload, Effect, saves, send_or_save_message_hub, wrap_bytes}
use go_pkg.ActiveConns.{Rows, Row, get_instance_connection, is_fresh}
use go_pkg.Lifecycle.{Container, World}
use go_pkg.Lifecycle.Admission.{has_empty_part}
use go_pkg.Lifecycle.Sessions.{Phase, absent, live, away, Agrees}
use go_pkg.Services.{done, service_panicked, instance_of, act_on_session, send_to_session}
use go_pkg.Broadcast.{is_valid_input}

-- What the holding container does with the message once it arrives.
abbrev pub IsHandled :
    (Conn → Bool) → World → Auth → Payload → Option (List Effect) → Phase → Type 0
IsHandled send_ok w a payload result absent = ⊥
IsHandled send_ok w a payload result live =
    (conn : Conn) × (get_connection w.here.conns a ≡ some conn)
    × (result ≡ some (send_or_save_message_hub send_ok conn payload))
IsHandled send_ok w a payload result away =
    result ≡ some (saves a.user_id a.instance_id payload ∷ [])

abbrev pub NotAbsent : Phase → Type 0
NotAbsent absent = ⊥
NotAbsent live = Unit {0}
NotAbsent away = Unit {0}

module _ (send_ok : Conn → Bool) (id : Bytes) (a : Auth) (msg_type payload : Bytes) where
  -- A container without the session finds the holder by the row.
  sent_to_holder :
      (here : Container) (rows : Rows) (row : Row) (cutoff now : ℕ)
      → has_empty_part a ≡ false
      → get_connection here.conns a ≡ none
      → get2 a.user_id a.instance_id rows ≡ some row
      → is_fresh cutoff now row ≡ true
      → is_empty row.holder_id ≡ false
      → (p : Option Bytes)
      → send_to_session here.conns here.hub send_ok
          (instance_of rows cutoff now a.user_id a.instance_id true)
          id
          a.user_id
          a.instance_id
          msg_type
          p
        ≡ (if is_some p then done [] (row.holder_id ∷ []) else service_panicked [])
  unfolding is_valid_input send_to_session act_on_session instance_of get_instance_connection
      find_session_conn find_in_repo user_websocket_auth
  sent_to_holder here rows row cutoff now parts nothing at fresh held p =
      ground (arith, parts, nothing, at, fresh, held)

  arrives_live :
      (w : World) (conn : Conn)
      → has_empty_part a ≡ false
      → get_connection w.here.conns a ≡ some conn
      → Delivery.send_to_session w.here.conns w.here.hub send_ok id a.user_id a.instance_id msg_type
          payload
        ≡ some (send_or_save_message_hub send_ok conn (wrap_bytes id [] msg_type payload))
  unfolding Delivery.send_to_session user_websocket_auth
  arrives_live w conn parts found = ground (arith, parts, found)

  arrives_away :
      (w : World)
      → has_empty_part a ≡ false
      → get_connection w.here.conns a ≡ none
      → is_some (get2 a.user_id a.instance_id w.here.hub.registry) ≡ true
      → Delivery.send_to_session w.here.conns w.here.hub send_ok id a.user_id a.instance_id msg_type
          payload
        ≡ some (saves a.user_id a.instance_id (wrap_bytes id [] msg_type payload) ∷ [])
  unfolding Delivery.send_to_session user_websocket_auth is_registered
  arrives_away w parts nothing registered = ground (arith, parts, nothing, registered)

  -- A message for a session of another container, which is live or away there as `Lifecycle` keeps
  -- it and whose row is fresh: the service sends it to that container and no other, and that container sends it on
  -- the session's connection, with the saving task behind a failed send, or saves it for the session
  -- that is away. That is for a payload that is not nil: with a nil one the service panics.
  pub session_message_arrives :
      (here : Container) (there : World) (p : Phase) (cutoff now : ℕ)
      → has_empty_part a ≡ false
      → NotAbsent p
      → Agrees there a p
      → ((row : Row)
          → get2 a.user_id a.instance_id there.rows ≡ some row
          → is_fresh cutoff now row ≡ true)
      → is_empty there.here.id ≡ false
      → get_connection here.conns a ≡ none
      → (send_to_session here.conns here.hub send_ok
            (instance_of there.rows cutoff now a.user_id a.instance_id true)
            id
            a.user_id
            a.instance_id
            msg_type
            (some payload)
          ≡ done [] (there.here.id ∷ []))
        × (send_to_session here.conns here.hub send_ok
              (instance_of there.rows cutoff now a.user_id a.instance_id true)
              id
              a.user_id
              a.instance_id
              msg_type
              none
            ≡ service_panicked [])
        × IsHandled send_ok there a
            (wrap_bytes id [] msg_type payload)
            (Delivery.send_to_session there.here.conns there.here.hub send_ok id a.user_id
              a.instance_id msg_type payload)
            p
  session_message_arrives here there absent cutoff now parts known h fresh named nothing =
      absurd known
  session_message_arrives here there live cutoff now parts known ((row, at, st, held), c, r) fresh
        named nothing =
      elim (Option-cases (get_connection there.here.conns a)) [
        | inl gone ↦ absurd (ground (arith, c, gone))
        | inr (conn, found) ↦ (
          sent_to_holder here there.rows row cutoff now parts nothing at (fresh row at)
                (ap is_empty held ∙ named) (some payload)
              ∙ ap (λ h. done [] (h ∷ [])) held,
          sent_to_holder here there.rows row cutoff now parts nothing at (fresh row at)
              (ap is_empty held ∙ named) none,
          (conn, found, arrives_live there conn parts found),
        )
      ]
  session_message_arrives here there away cutoff now parts known ((row, at, st, held), c, r) fresh
        named nothing =
      (
        sent_to_holder here there.rows row cutoff now parts nothing at (fresh row at)
              (ap is_empty held ∙ named) (some payload)
            ∙ ap (λ h. done [] (h ∷ [])) held,
        sent_to_holder here there.rows row cutoff now parts nothing at (fresh row at)
            (ap is_empty held ∙ named) none,
        arrives_away there parts c r,
      )
