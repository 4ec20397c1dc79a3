-- ===== src/Delivery/Reach.antt =====
-- Which sessions of this container a message reaches.
use mathlib.Core.List.{Memᴰ}
use mathlib.Core.List.Memᴰ
use go_pkg.Common.{
  none, ◌⊎◌, ℕ, ◌≡◌, refl, sym, ap, Bool, true, false, inl, inr, Bytes, is_empty, str_eq,
  str_eq_iff, some, is_some, List, [], ◌∷◌, ◌++◌, if◌then◌else◌, Bool-cases, Option-cases, arith,
}
use go_pkg.Common.Table.{Table, get, keys}
use go_pkg.Common.Nested.{get2}
use go_pkg.Domain.{Conn}
use go_pkg.Connections.{ConnectionMap, get_connection, get_all_user_conn}
use go_pkg.Connections.WellFormed.{IsWellFormed}
use go_pkg.Connections.Listing.{get_all_user_conn_exact}
use go_pkg.MsgHub.{Hub, is_registered, get_sessions}
use go_pkg.Delivery.{
  Payload, Effect, sends, submits_save, saves, wrap_bytes, send_or_save_message_hub, send_each,
  save_each, send_to_user, send_to_users,
}

mem-send_each :
    (send_ok : Conn → Bool) (conns : List Conn) (payload : Payload) {c : Conn}
    → Memᴰ c conns
    → Memᴰ (sends c payload) (send_each send_ok conns payload)
      × ((send_ok c ≡ false) → Memᴰ (submits_save c.auth payload) (send_each send_ok conns payload))
unfolding send_each send_or_save_message_hub
mem-send_each send_ok [] payload h = elim h [ ]
mem-send_each send_ok (conn ∷ conns) payload (Memᴰ.head e) = (
  Memᴰ.head (ap (λ x. sends x payload) e),
  λ fails. Memᴰ.tail (rw (sym e, fails) (Memᴰ.head refl)),
)
mem-send_each send_ok (conn ∷ conns) payload (Memᴰ.tail h) =
    let (sent, kept) = mem-send_each send_ok conns payload h in
    (
      Memᴰ.append_right (send_or_save_message_hub send_ok conn payload) sent,
      λ fails. Memᴰ.append_right (send_or_save_message_hub send_ok conn payload) (kept fails),
    )

mem-save_each :
    (user_id : Bytes) (instance_ids : List Bytes) (payload : Payload) {i : Bytes}
    → Memᴰ i instance_ids
    → Memᴰ (saves user_id i payload) (save_each user_id instance_ids payload)
unfolding save_each
mem-save_each user_id [] payload h = elim h [ ]
mem-save_each user_id (j ∷ instance_ids) payload (Memᴰ.head e) =
    Memᴰ.head (ap (λ x. saves user_id x payload) e)
mem-save_each user_id (j ∷ instance_ids) payload (Memᴰ.tail h) =
    Memᴰ.tail (mem-save_each user_id instance_ids payload h)

mem-keys : (i : Bytes) (t : Table ℕ) → is_some (get i t) ≡ true → Memᴰ i (keys t)
unfolding get
mem-keys i [] h = cc
mem-keys i ((j, gen) ∷ t) h = elim (Bool-cases (str_eq j i)) [
  | inl e ↦ Memᴰ.head (sym ((str_eq_iff j i).0 e))
  | inr e ↦ Memᴰ.tail (mem-keys i t (ground (arith, e, h)))
]

registered-mem :
    (hub : Hub) (u i : Bytes) → is_registered hub u i ≡ true → Memᴰ i (get_sessions hub u)
unfolding is_registered get_sessions get2
registered-mem hub u i h = elim (Option-cases (get u hub.registry)) [
  | inl e ↦ absurd (ground (arith, e, h))
  | inr (t, e) ↦ rw (e, get_sessions) (mem-keys i t (ground (arith, e, h)))
]

-- On a well-formed connection map, for a user with a non-empty ID and any of the user's sessions: if
-- it has a live connection here, a message to the user is sent to it and, where that fails, handed to
-- the saving task; if it is temporarily disconnected here, the message is saved for it.
pub send_to_user_reaches :
    (m : ConnectionMap) (hub : Hub) (send_ok : Conn → Bool) (id u msg_type payload i : Bytes)
    → IsWellFormed m
    → is_empty u ≡ false
    → let effects = send_to_user m hub send_ok id u msg_type payload in
      let ws_res = wrap_bytes id [] msg_type payload in
      let live = get_connection m (record { user_id = u; instance_id = i }) in
      ((live ≡ none)
        ⊎ ((c : Conn) × (live ≡ some c)
            × Memᴰ (sends c ws_res) effects
            × ((send_ok c ≡ true) ⊎ Memᴰ (submits_save c.auth ws_res) effects)))
      × ((is_registered hub u i ≡ false) ⊎ Memᴰ (saves u i ws_res) effects)
unfolding send_to_user
send_to_user_reaches m hub send_ok id u msg_type payload i w named =
    let ws_res = wrap_bytes id [] msg_type payload in
    let sent = send_each send_ok (get_all_user_conn m u) ws_res in
    let saved = save_each u (get_sessions hub u) ws_res in
    (
      elim (Option-cases (get_connection m (record { user_id = u; instance_id = i }))) [
        | inl e ↦ inl e
        | inr (c, e) ↦
            let (here, kept) =
              mem-send_each send_ok (get_all_user_conn m u) ws_res
                ((get_all_user_conn_exact m u c w named).1 (i, e)) in
            inr (
              c,
              e,
              Memᴰ.append_left saved here,
              elim (Bool-cases (send_ok c)) [
                | inl ok ↦ inl ok
                | inr fails ↦ inr (Memᴰ.append_left saved (kept fails))
              ],
            )
      ],
      elim (Bool-cases (is_registered hub u i)) [
        | inl away ↦ inr (
            Memᴰ.append_right sent
              (mem-save_each u (get_sessions hub u) ws_res (registered-mem hub u i away)))
        | inr unknown ↦ inl unknown
      ],
    )

-- Whether an effect saves a message for a session that is temporarily disconnected.
abbrev pub is_save : Effect → Bool
is_save (saves u i payload) = true
is_save e = false

unfoldable pub any_save : List Effect → Bool
any_save [] = false
any_save (e ∷ es) = if is_save e then true else any_save es

any_save-append :
    (es fs : List Effect) → any_save es ≡ false → any_save fs ≡ false → any_save (es ++ fs) ≡ false
unfolding any_save
any_save-append [] fs h k = k
any_save-append (e ∷ es) fs h k = ground (arith, any_save-append es fs, h, k)

any_save-send_each :
    (send_ok : Conn → Bool) (conns : List Conn) (payload : Payload)
    → any_save (send_each send_ok conns payload) ≡ false
unfolding send_each send_or_save_message_hub any_save
any_save-send_each send_ok [] payload = refl
any_save-send_each send_ok (conn ∷ conns) payload =
    any_save-append (send_or_save_message_hub send_ok conn payload)
      (send_each send_ok conns payload) (ground arith) (any_save-send_each send_ok conns payload)

-- The handler of a message to several users saves it for no session that is temporarily
-- disconnected here.
pub send_to_users_saves_nothing :
    (m : ConnectionMap) (send_ok : Conn → Bool) (id : Bytes) (users : List Bytes)
    (msg_type payload : Bytes)
    → any_save (send_to_users m send_ok id users msg_type payload) ≡ false
unfolding send_to_users any_save
send_to_users_saves_nothing m send_ok id [] msg_type payload = refl
send_to_users_saves_nothing m send_ok id (u ∷ users) msg_type payload =
    any_save-append (send_each send_ok (get_all_user_conn m u) (wrap_bytes id [] msg_type payload))
      (send_to_users m send_ok id users msg_type payload)
      (any_save-send_each send_ok (get_all_user_conn m u) (wrap_bytes id [] msg_type payload))
      (send_to_users_saves_nothing m send_ok id users msg_type payload)
