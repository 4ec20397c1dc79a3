-- ===== src/MsgHub.antt =====
-- core/service/websocket/msg-hub/service.go: the registry of temporarily disconnected sessions
-- and the pending messages behind it. A registration's timer is a task of the worker pool: it
-- fires, or it ends because its context is cancelled. The context of a registration is named by
-- the generation that the registration drew. A timer may fire although its context is cancelled,
-- since `select` takes either of two ready cases.
pub mod Registry
pub mod Pending
use go_pkg.Common.{
  ℕ, zero, suc, ◌+◌, Bool, true, false, Bytes, Option, none, some, List, [], ◌∷◌, ◌++◌,
  if◌then◌else◌, ◌==◌, ◌||◌, length, is_some, leb, ltb, max, map,
}
use go_pkg.Common.Table.{Table, get, put, del, keys}
use go_pkg.Common.Nested.{get2, put2, del2}

-- A timer task, as `registerWithTTL` submits it.
pub record Timer : Type 0 where
  pub user_id : Bytes
  pub instance_id : Bytes
  pub gen : ℕ

pub record Hub : Type 0 where
  pub registry : Table (Table ℕ)
  pub gen_seq : ℕ
  pub timers : List Timer
  pub cancelled : List ℕ
  pub expired : List Timer

abbrev pub new : Hub
new = record { registry = []; gen_seq = 0; timers = []; cancelled = []; expired = [] }

-- `prev.cancel()`, where there is a previous registration.
abbrev pub cancel : Option ℕ → List ℕ → List ℕ
cancel none gens = gens
cancel (some gen) gens = gen ∷ gens

unfoldable pub register : Hub → Bytes → Bytes → Hub
register h user_id instance_id =
    let gen = h.gen_seq + 1 in
    record h {
      registry = put2 user_id instance_id gen h.registry;
      gen_seq = gen;
      timers = record { user_id = user_id; instance_id = instance_id; gen = gen } ∷ h.timers;
      cancelled = cancel (get2 user_id instance_id h.registry) h.cancelled;
    }

unfoldable pub deregister : Hub → Bytes → Bytes → Hub
deregister h user_id instance_id = record h {
  registry = del2 user_id instance_id h.registry;
  cancelled = cancel (get2 user_id instance_id h.registry) h.cancelled;
}

unfoldable pub is_registered : Hub → Bytes → Bytes → Bool
is_registered h user_id instance_id = is_some (get2 user_id instance_id h.registry)

unfoldable pub get_sessions : Hub → Bytes → List Bytes
get_sessions h user_id = elim (get user_id h.registry) [ none ↦ [] | some m ↦ keys m ]

abbrev pub is_gen : Option ℕ → ℕ → Bool
is_gen none gen = false
is_gen (some g) gen = g == gen

-- The timer's branch of the `select`: the entry goes if it is still this registration's, and
-- `onExpired` runs. `expired` lists its calls.
unfoldable pub expire : Hub → Timer → Hub
expire h t =
    let h' = record h { expired = t ∷ h.expired } in
    if is_gen (get2 t.user_id t.instance_id h.registry) t.gen
    then record h' { registry = del2 t.user_id t.instance_id h.registry }
    else h'

-- The generations in the registry, whose contexts `Shutdown` cancels.
abbrev pub inner_gens : Table ℕ → List ℕ
inner_gens [] = []
inner_gens ((instance_id, gen) ∷ m) = gen ∷ inner_gens m

abbrev pub gens : Table (Table ℕ) → List ℕ
gens [] = []
gens ((user_id, m) ∷ registry) = inner_gens m ++ gens registry

unfoldable pub shutdown : Hub → Hub
shutdown h = record h { registry = []; cancelled = gens h.registry ++ h.cancelled }

pub data HubOp : Type 0 where
  registers : Bytes → Bytes → HubOp
  deregisters : Bytes → Bytes → HubOp
  expires : Timer → HubOp
  shuts_down : HubOp

unfoldable pub step : Hub → HubOp → Hub
step h (registers user_id instance_id) = register h user_id instance_id
step h (deregisters user_id instance_id) = deregister h user_id instance_id
step h (expires t) = expire h t
step h shuts_down = shutdown h

unfoldable pub run : Hub → List HubOp → Hub
run h [] = h
run h (op ∷ ops) = run (step h op) ops
