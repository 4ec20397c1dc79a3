-- ===== src/ActiveConns.antt =====
-- The table of active connections: core/repository/impl-postgres/active_conn. Its primary key is
-- (user_id, instance_id), so the rows are nested tables. Each SQL statement is one step; a statement that
-- fails is the callers' concern. Times are in seconds.
pub mod Rows
use go_pkg.Common.{
  ℕ, ◌+◌, ◌*◌, Bool, ◌&&◌, Bytes, Option, none, some, List, [], ◌∷◌, ◌++◌, if◌then◌else◌, ltb,
  length, is_some,
}
use go_pkg.Common.Table.{Table, get, put, del, values}
use go_pkg.Common.Nested.{get2, put2, del2}
use go_pkg.Domain.{CoreType, Status, connected, transferring}
use go_pkg.Routing.{InstanceResult, found, failing, record_not_found, other_error}
use go_pkg.Routing

-- entities.ActiveConnection, without its key.
pub record Row : Type 0 where
  pub holder_id : Bytes
  pub connection_type : CoreType
  pub status : Status
  pub connected_at : ℕ
  pub last_heartbeat : ℕ
  pub ttl : ℕ

abbrev pub Rows : Type 0
Rows = Table (Table Row)

-- `GlobalHeartbeatRateDuration`.
abbrev pub heartbeat_rate : ℕ
heartbeat_rate = 30

abbrev pub ttl_from : ℕ → ℕ
ttl_from now = now + 2 * heartbeat_rate + 1

-- The row after `INSERT … ON CONFLICT DO UPDATE`: an old one keeps its `connected_at`.
abbrev pub upserted : Option Row → Bytes → CoreType → ℕ → Row
upserted none holder t now = record {
  holder_id = holder;
  connection_type = t;
  status = connected;
  connected_at = now;
  last_heartbeat = now;
  ttl = ttl_from now;
}
upserted (some row) holder t now = record row {
  holder_id = holder;
  connection_type = t;
  status = connected;
  last_heartbeat = now;
  ttl = ttl_from now;
}

unfoldable pub add_connection : Rows → Bytes → Bytes → Bytes → CoreType → ℕ → Rows
add_connection rows holder user_id instance_id t now =
    put2 user_id instance_id (upserted (get2 user_id instance_id rows) holder t now) rows

unfoldable pub remove_connection : Rows → Bytes → Bytes → Rows
remove_connection rows user_id instance_id = del2 user_id instance_id rows

-- `UPDATE … WHERE user_id = … AND instance_id = …`: no row, no change.
unfoldable pub update : Rows → Bytes → Bytes → (Row → Row) → Rows
update rows user_id instance_id f = elim (get2 user_id instance_id rows) [
  | none ↦ rows
  | some row ↦ put2 user_id instance_id (f row) rows
]

unfoldable pub update_heart_beat : Rows → Bytes → Bytes → ℕ → Rows
unfolding update
update_heart_beat rows user_id instance_id now =
    update rows user_id instance_id (λ row. record row { last_heartbeat = now; ttl = ttl_from now })

unfoldable pub update_status : Rows → Bytes → Bytes → Status → Rows
unfolding update
update_status rows user_id instance_id s =
    update rows user_id instance_id (λ row. record row { status = s })

unfoldable pub update_status_transferring : Rows → Bytes → Bytes → Rows
unfolding update
update_status_transferring rows user_id instance_id =
    update rows user_id instance_id (λ row. record row { status = transferring; holder_id = [] })

-- `last_heartbeat > now - cutoff`.
unfoldable pub is_fresh : ℕ → ℕ → Row → Bool
is_fresh cutoff now row = ltb now (row.last_heartbeat + cutoff)

abbrev pub if_fresh : ℕ → ℕ → Option Row → Option Row
if_fresh cutoff now none = none
if_fresh cutoff now (some row) = if is_fresh cutoff now row then some row else none

-- `none` is the error RecordNotFound.
unfoldable pub get_instance_connection : Rows → ℕ → ℕ → Bytes → Bytes → Option Row
get_instance_connection rows cutoff now user_id instance_id =
    if_fresh cutoff now (get2 user_id instance_id rows)

abbrev pub inner_rows : Option (Table Row) → Table Row
inner_rows none = []
inner_rows (some t) = t

unfoldable pub fresh_rows : ℕ → ℕ → Table Row → Table Row
fresh_rows cutoff now [] = []
fresh_rows cutoff now ((instance_id, row) ∷ t) =
    let rest = fresh_rows cutoff now t in
    if is_fresh cutoff now row then (instance_id, row) ∷ rest else rest

unfoldable pub get_active_connections : Rows → ℕ → ℕ → Bytes → Table Row
unfolding fresh_rows
get_active_connections rows cutoff now user_id =
    fresh_rows cutoff now (inner_rows (get user_id rows))

unfoldable pub count_active_connections : Rows → ℕ → ℕ → Bytes → ℕ
unfolding fresh_rows
count_active_connections rows cutoff now user_id =
    length (fresh_rows cutoff now (inner_rows (get user_id rows)))

-- A count for each user that was asked for, zeros filled in.
unfoldable pub count_active_connections_batch : Rows → ℕ → ℕ → List Bytes → Table ℕ
count_active_connections_batch rows cutoff now [] = []
count_active_connections_batch rows cutoff now (u ∷ us) =
    put u (count_active_connections rows cutoff now u)
      (count_active_connections_batch rows cutoff now us)

unfoldable pub count_total_active_connections : Rows → ℕ → ℕ → ℕ
count_total_active_connections [] cutoff now = 0
count_total_active_connections ((u, t) ∷ rows) cutoff now =
    length (fresh_rows cutoff now t) + count_total_active_connections rows cutoff now

-- `DELETE … WHERE ttl < NOW()`.
unfoldable pub drop_expired : ℕ → Table Row → Table Row
drop_expired now [] = []
drop_expired now ((instance_id, row) ∷ t) =
    let rest = drop_expired now t in if ltb row.ttl now then rest else (instance_id, row) ∷ rest

unfoldable pub clean_up_expired_connections : ℕ → Rows → Rows
clean_up_expired_connections now [] = []
clean_up_expired_connections now ((u, t) ∷ rows) =
    (u, drop_expired now t) ∷ clean_up_expired_connections now rows
