-- ===== src/Routing/Sending/Cleanup.antt =====
-- No ack is left behind by a call that does not wait for it.
use go_pkg.Common.{
  ℕ, ◌≡◌, ◌≢◌, ◌⊎◌, refl, ◌++◌, is_empty, Bool, true, false, Bytes, Option, none, some, List, [],
  ◌∷◌, Bool-cases, Option-cases, inl, inr, arith,
}
use go_pkg.Common.Table.{get, get-put_self, get-del_self}
use go_pkg.Domain.{Auth, Conn, user_websocket_auth}
use go_pkg.Connections.{ConnectionMap, get_connection, get_all_user_conn}
use go_pkg.Acks.{AckManager, create_ack, ack_prefix, register_remote_ack}
use go_pkg.Acks.Safety.{IsSound, create_ack-IsSound, resolve_ack_found}
use go_pkg.Delivery.{
  Effect, with_ack, send_to_conn_with_ack, send_to_session_with_ack, send_to_user_with_ack,
}
use go_pkg.Broadcast.{content, is_valid_input}
use go_pkg.Routing.{
  Routes, QueryResult, InstanceResult, SessionAction, locally, callback_notfound, transferring,
  target_container, SessionResult, acts, failed, panicked, find_user_conn, find_in_repo,
  find_session_conn, is_nil,
}
use go_pkg.Routing.Sending.{
  Stage, returns_error, returns_false, waits, panics, Message, World, give_up, session_local,
  session_acts, session_with_ack, user_acts, user_with_ack,
}

-- A call that returns has taken its ack out, one that waits has its channel in, and one panics only
-- where `CanPanic` says so.
abbrev pub IsClean : Type 0 → Bytes → ℕ → Stage → Type 0
IsClean CanPanic ack_id ch (returns_error acks) = get ack_id acks.pending ≡ none
IsClean CanPanic ack_id ch (returns_false acks) = get ack_id acks.pending ≡ none
IsClean CanPanic ack_id ch (waits k c acks) =
    (k ≡ ack_id) × (c ≡ ch) × (get k acks.pending ≡ some c)
IsClean CanPanic ack_id ch panics = CanPanic

give_up-IsClean :
    (CanPanic : Type 0) (with_error : Bool) (ack_id : Bytes) (ch : ℕ) (acks : AckManager)
    → IsSound acks
    → get ack_id acks.pending ≡ some ch
    → IsClean CanPanic ack_id ch (give_up with_error ack_id acks)
unfolding give_up
give_up-IsClean CanPanic true ack_id ch acks s e =
    rw (resolve_ack_found acks ack_id ch s e, give_up) (get-del_self ack_id acks.pending)
give_up-IsClean CanPanic false ack_id ch acks s e =
    rw (resolve_ack_found acks ack_id ch s e, give_up) (get-del_self ack_id acks.pending)

-- A session's name with no empty part.
abbrev pub IsNamed : Auth → Type 0
IsNamed auth = (is_empty auth.user_id ≡ false) × (is_empty auth.instance_id ≡ false)

-- A local send leaves the pending acks: only the remote entries change.
session_ack_sent :
    (m : ConnectionMap) (acks : AckManager) (send_ok : Conn → Bool) (id : Bytes) (auth : Auth)
    (msg_type payload k source : Bytes)
    → IsNamed auth
    → (r : List Effect × AckManager) × (send_to_session_with_ack m acks send_ok id auth.user_id
          auth.instance_id msg_type payload k source
        ≡ some r)
      × ((r.1).pending ≡ acks.pending)
unfolding send_to_session_with_ack user_websocket_auth send_to_conn_with_ack register_remote_ack
session_ack_sent m acks send_ok id auth msg_type payload k source named = (
  send_to_conn_with_ack m acks send_ok auth (with_ack id msg_type payload k) k source,
  ground (arith, named),
  ground arith,
)

user_ack-pending :
    (m : ConnectionMap) (acks : AckManager) (send_ok : Conn → Bool) (id user_id : Bytes)
    (msg_type payload k source : Bytes)
    → ((send_to_user_with_ack m acks send_ok id user_id msg_type payload k source).1).pending
      ≡ acks.pending
unfolding send_to_user_with_ack register_remote_ack
user_ack-pending m acks send_ok id user_id msg_type payload k source = ground arith

user_ack_nobody :
    (m : ConnectionMap) (acks : AckManager) (send_ok : Conn → Bool) (id user_id : Bytes)
    (msg_type payload k source : Bytes)
    → is_nil (get_all_user_conn m user_id) ≡ true
    → (send_to_user_with_ack m acks send_ok id user_id msg_type payload k source).1 ≡ acks
unfolding send_to_user_with_ack
user_ack_nobody m acks send_ok id user_id msg_type payload k source h = ground (arith, h)

session_local-IsClean :
    (CanPanic : Type 0) (m : ConnectionMap) (w : World) (auth : Auth) (msg : Message)
    (ack_id : Bytes) (ch : ℕ) (acks : AckManager)
    → IsNamed auth
    → IsSound acks
    → get ack_id acks.pending ≡ some ch
    → IsClean CanPanic ack_id ch ((session_local m w auth msg ack_id ch acks).stage)
unfolding session_local
session_local-IsClean CanPanic m w auth msg ack_id ch acks named s e =
    let (r, sent, kept) =
      session_ack_sent m acks w.send_ok w.id auth msg.msg_type (content msg.payload) ack_id
        w.container_id named in
    elim (Option-cases (get_connection m auth)) [
      | inl f ↦ rw (sent, f, session_local) (give_up-IsClean CanPanic false ack_id ch acks s e)
      | inr (conn, f) ↦ rw (sent, f, session_local) (refl, refl, rw kept e)
    ]

-- A nil payload for a session of another container.
abbrev pub NilAbroad : Message → SessionResult → Type 0
NilAbroad msg r = (msg.payload ≡ none) × ((c : Bytes) × (r ≡ acts (target_container c)))

session_acts-IsClean :
    (m : ConnectionMap) (w : World) (auth : Auth) (msg : Message) (ack_id : Bytes) (ch : ℕ)
    (acks : AckManager) (action : SessionAction)
    → IsNamed auth
    → IsSound acks
    → get ack_id acks.pending ≡ some ch
    → IsClean
        (NilAbroad msg (acts action))
        ack_id
        ch
        ((session_acts m w auth msg ack_id ch acks action).stage)
unfolding session_acts is_valid_input
session_acts-IsClean m w auth msg ack_id ch acks locally named s e =
    session_local-IsClean (NilAbroad msg (acts locally)) m w auth msg ack_id ch acks named s e
session_acts-IsClean m w auth msg ack_id ch acks callback_notfound named s e =
    give_up-IsClean (NilAbroad msg (acts callback_notfound)) false ack_id ch acks s e
session_acts-IsClean m w auth msg ack_id ch acks transferring named s e =
    elim (Bool-cases w.save_ok) [
      | inl f ↦ rw f (give_up-IsClean (NilAbroad msg (acts transferring)) false ack_id ch acks s e)
      | inr f ↦ rw f (give_up-IsClean (NilAbroad msg (acts transferring)) true ack_id ch acks s e)
    ]
session_acts-IsClean m w auth msg ack_id ch acks (target_container c) named s e =
    elim (Option-cases msg.payload) [
      | inl empty ↦ rw (empty, session_acts) (refl, (c, refl))
      | inr (p, full) ↦ rw (full, session_acts) (refl, refl, e)
    ]

-- A nil payload for a user of other containers.
abbrev pub NilToOthers : Message → Option Routes → Type 0
NilToOthers msg r =
    (msg.payload ≡ none)
    × ((routes : Routes) × (r ≡ some routes) × (is_nil routes.containers ≡ false))

user_here_alone :
    (CanPanic : Type 0) (m : ConnectionMap) (w : World) (user_id : Bytes) (msg : Message)
    (ack_id : Bytes) (ch : ℕ) (acks : AckManager) (here : Bool)
    → IsSound acks
    → get ack_id acks.pending ≡ some ch
    → IsClean CanPanic ack_id ch (
        (user_acts m w user_id msg ack_id ch acks
          (record { local_action = here; containers = [] })).stage)
unfolding user_acts
user_here_alone CanPanic m w user_id msg ack_id ch acks false s e =
    give_up-IsClean CanPanic false ack_id ch acks s e
user_here_alone CanPanic m w user_id msg ack_id ch acks true s e =
    elim (Bool-cases (is_nil (get_all_user_conn m user_id))) [
      | inl f ↦
          rw
            (
              f,
              user_ack_nobody m acks w.send_ok w.id user_id msg.msg_type (content msg.payload)
                  ack_id w.container_id f,
            )
            (give_up-IsClean CanPanic false ack_id ch acks s e)
      | inr f ↦ rw f (
        refl,
        refl,
        rw
            (user_ack-pending m acks w.send_ok w.id user_id msg.msg_type (content msg.payload)
              ack_id w.container_id)
            e,
      )
    ]

user_acts-IsClean :
    (m : ConnectionMap) (w : World) (user_id : Bytes) (msg : Message) (ack_id : Bytes) (ch : ℕ)
    (acks : AckManager) (here : Bool) (containers : List Bytes)
    → IsSound acks
    → get ack_id acks.pending ≡ some ch
    → let routes : Routes = record { local_action = here; containers = containers } in
      IsClean
        (NilToOthers msg (some routes))
        ack_id
        ch
        ((user_acts m w user_id msg ack_id ch acks routes).stage)
unfolding user_acts is_valid_input
user_acts-IsClean m w user_id msg ack_id ch acks here [] s e =
    let routes : Routes = record { local_action = here; containers = [] } in
    user_here_alone (NilToOthers msg (some routes)) m w user_id msg ack_id ch acks here s e
user_acts-IsClean m w user_id msg ack_id ch acks false (c ∷ cs) s e =
    elim (Option-cases msg.payload) [
      | inl empty ↦
          rw (empty, user_acts)
            (refl, (record { local_action = false; containers = c ∷ cs }, refl, refl))
      | inr (p, full) ↦ rw (full, user_acts) (refl, refl, e)
    ]
user_acts-IsClean m w user_id msg ack_id ch acks true (c ∷ cs) s e =
    elim (Option-cases msg.payload) [
      | inl empty ↦
          rw (empty, user_acts)
            (refl, (record { local_action = true; containers = c ∷ cs }, refl, refl))
      | inr (p, full) ↦
          rw (full, user_acts)
            (
              refl,
              refl,
              rw
                  (user_ack-pending m acks w.send_ok w.id user_id msg.msg_type p ack_id
                    w.container_id)
                  e,
            )
    ]

SessionResult-cases :
    (r : SessionResult) → ((a : SessionAction) × (r ≡ acts a)) ⊎ (r ≡ failed) ⊎ (r ≡ panicked)
SessionResult-cases (acts a) = inl (a, refl)
SessionResult-cases failed = inr (inl refl)
SessionResult-cases panicked = inr (inr refl)

named-ne-panicked :
    (m : ConnectionMap) (u i : Bytes) (t : Bool) (row : InstanceResult)
    → is_empty u ≡ false
    → is_empty i ≡ false
    → find_session_conn m u i t row ≢ panicked
unfolding find_session_conn find_in_repo user_websocket_auth
named-ne-panicked m u i t row h k e = ground (arith, h, k, e)

new_ack :
    (acks : AckManager) (nano_id : Bytes)
    → get (create_ack acks nano_id).0 ((create_ack acks nano_id).2).pending ≡ some acks.made
unfolding create_ack
new_ack acks nano_id = get-put_self (ack_prefix ++ nano_id) acks.made acks.pending

-- From a sound ack manager, for a session whose name has no empty part: however the session is
-- found and whatever fails, `SendToSessionWithAck` has taken its new ack out of the pending ones where
-- it returns without a wait, waits only on the channel of its pending ack, and does not panic unless
-- the payload is nil and the session is found at another container.
pub session_ack_cleaned_up :
    (m : ConnectionMap) (acks : AckManager) (w : World) (auth : Auth) (msg : Message)
    (row : InstanceResult)
    → IsSound acks
    → IsNamed auth
    → IsClean
        (NilAbroad msg (find_session_conn m auth.user_id auth.instance_id true row))
        (create_ack acks w.nano_id).0
        (create_ack acks w.nano_id).1
        ((session_with_ack m acks w auth msg row).stage)
unfolding session_with_ack create_ack
session_ack_cleaned_up m acks w auth msg row s named =
    let r = find_session_conn m auth.user_id auth.instance_id true row in
    let made = create_ack-IsSound acks w.nano_id s in
    let there = new_ack acks w.nano_id in
    elim (SessionResult-cases r) [
      | inl (action, f) ↦
          rw (f, session_with_ack) (session_acts-IsClean m w auth msg _ _ _ action named made there)
      | inr (inl f) ↦
          rw (f, session_with_ack) (give_up-IsClean (NilAbroad msg failed) true _ _ _ made there)
      | inr (inr f) ↦
          absurd (named-ne-panicked m auth.user_id auth.instance_id true row named.0 named.1 f)
    ]

-- From a sound ack manager: wherever the user's sessions are and whatever fails,
-- `SendToUserWithAck` has taken its new ack out of the pending ones where it returns without a wait,
-- waits only on the channel of its pending ack, and does not panic unless the payload is nil and
-- the message goes to another container.
pub user_ack_cleaned_up :
    (m : ConnectionMap) (acks : AckManager) (w : World) (user_id : Bytes) (msg : Message)
    (query : QueryResult)
    → IsSound acks
    → IsClean
        (NilToOthers msg (find_user_conn m w.container_id user_id query))
        (create_ack acks w.nano_id).0
        (create_ack acks w.nano_id).1
        ((user_with_ack m acks w user_id msg query).stage)
unfolding user_with_ack create_ack
user_ack_cleaned_up m acks w user_id msg query s =
    let made = create_ack-IsSound acks w.nano_id s in
    let there = new_ack acks w.nano_id in
    elim (Option-cases (find_user_conn m w.container_id user_id query)) [
      | inl f ↦ rw (f, user_with_ack) (give_up-IsClean (NilToOthers msg none) true _ _ _ made there)
      | inr (routes, f) ↦
          rw (f, user_with_ack)
            (user_acts-IsClean m w user_id msg _ _ _ routes.local_action routes.containers made
              there)
    ]
