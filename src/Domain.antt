-- ===== src/Domain.antt =====
-- Who is connected and how: export/types and core/domain/value-object. Metadata is left out.
use go_pkg.Common.{
  ℕ, Bool, ◌&&◌, Bytes, is_empty, str_eq, Option, none, some, [], if◌then◌else◌, ◌||◌,
}

pub record Auth : Type 0 where
  pub user_id : Bytes
  pub instance_id : Bytes

unfoldable pub is_anonymous : Auth → Bool
is_anonymous a = is_empty a.user_id

-- The factories panic on an empty part: `none`.
unfoldable pub user_websocket_auth : Bytes → Bytes → Option Auth
user_websocket_auth user_id instance_id =
    if is_empty user_id || is_empty instance_id
    then none
    else some (record { user_id = user_id; instance_id = instance_id })

unfoldable pub anonymous_user_websocket_auth : Bytes → Option Auth
anonymous_user_websocket_auth instance_id =
    if is_empty instance_id then none else some (record { user_id = []; instance_id = instance_id })

-- The sessions that the maps tell apart.
unfoldable pub same_session : Auth → Auth → Bool
same_session a b = str_eq a.user_id b.user_id && str_eq a.instance_id b.instance_id

pub data CoreType : Type 0 where
  gobwas long_polling : CoreType

pub data Status : Type 0 where
  connected temp_disconnected transferring : Status

-- A live connection: `handle` is the identity of the Go object behind the interface.
pub record Conn : Type 0 where
  pub auth : Auth
  pub core_type : CoreType
  pub handle : ℕ
