-- ===== src/Shutdown.antt =====
-- The graceful end of a container: core/service/websocket/mediator/service/3.shutdown.go. `transition_ok` tells for
-- which connections the row can be written; one that cannot is logged.
pub mod Keyed
pub mod Handover
use go_pkg.Common.{
  ℕ, Bool, true, Bytes, Option, none, some, List, [], ◌∷◌, ◌++◌, map, if◌then◌else◌,
}
use go_pkg.Domain.{Auth, Conn, Status, connected, temp_disconnected, transferring}
use go_pkg.Connections.{get_all_anonymous_conn, get_all_authenticated_conn}
use go_pkg.Acks
use go_pkg.Acks.{AckManager}
use go_pkg.ActiveConns.{Rows, Row, update_status_transferring, get_instance_connection}
use go_pkg.Lifecycle.{World, Faults, Effect, on_close}

-- A loop that closes: each connection is open, so its callback runs.
unfoldable pub close_conns : World → List Conn → ℕ → Faults → World × List Effect
close_conns w [] now f = (w, [])
close_conns w (conn ∷ conns) now f =
    let first = on_close w conn.auth now f in
    let rest = close_conns first.0 conns now f in (rest.0, first.1 ++ rest.1)

-- `transitionConnectionToTransferring`, for each connection.
unfoldable pub transition_all : Rows → List Conn → (Conn → Bool) → Rows
transition_all rows [] transition_ok = rows
transition_all rows (conn ∷ conns) transition_ok =
    transition_all
      (if transition_ok conn
        then update_status_transferring rows conn.auth.user_id conn.auth.instance_id
        else rows)
      conns transition_ok

-- `transferingConns` keeps who they were.
pub record Ended : Type 0 where
  pub world : World
  pub acks : AckManager
  pub transfering_conns : List Auth
  pub effects : List Effect

unfoldable pub mark_shutting_down : World → World
mark_shutting_down w = record w { here = record w.here { shutting_down = true } }

-- Steps 3 to 5, once the acks are cancelled.
unfoldable pub hand_over : World → AckManager → (Conn → Bool) → ℕ → Faults → Ended
unfolding close_conns transition_all
hand_over w acks transition_ok now f =
    let (closed, anonymous) = close_conns w (get_all_anonymous_conn w.here.conns) now f in
    let all_auth_conns = get_all_authenticated_conn closed.here.conns in
    let moved : World = record closed {
      rows = transition_all closed.rows all_auth_conns transition_ok;
    } in
    let (ended, named) = close_conns moved (get_all_authenticated_conn moved.here.conns) now f in
    record {
      world = ended;
      acks = acks;
      transfering_conns = map (λ conn. conn.auth) all_auth_conns;
      effects = anonymous ++ named;
    }

-- `Shutdown`: `none` is the panic of closing a channel twice.
unfoldable pub shutdown : World → AckManager → (Conn → Bool) → ℕ → Faults → Option Ended
unfolding mark_shutting_down hand_over
shutdown w acks transition_ok now f = elim (Acks.shutdown acks) [
  | none ↦ none
  | some acks' ↦ some (hand_over (mark_shutting_down w) acks' transition_ok now f)
]

-- `checkTransferingConns`: the sessions that no container has taken over; a row that is not found
-- is logged.
unfoldable pub check_transfering_conns : Rows → ℕ → ℕ → List Auth → List Auth
check_transfering_conns rows cutoff now [] = []
check_transfering_conns rows cutoff now (a ∷ auths) =
    let rest = check_transfering_conns rows cutoff now auths in
    elim (get_instance_connection rows cutoff now a.user_id a.instance_id) [
      | none ↦ rest
      | some row ↦ elim row.status [
        | transferring ↦ a ∷ rest
        | connected ↦ rest
        | temp_disconnected ↦ rest
      ]
    ]
