-- ===== src/PendingRows.antt =====
-- The table of pending messages: core/repository/impl-postgres/pending_message. Its primary key is
-- (session_key, send_at). Each SQL statement is one step.
pub mod Reading
pub mod Members
pub mod Repository
use go_pkg.Common.{
  ℕ, ◌+◌, Bool, true, false, ◌&&◌, ◌||◌, Bytes, bytes, str_eq, List, [], ◌∷◌, ◌++◌, map,
  if◌then◌else◌, ltb, leb, ◌==◌,
}

pub record Row : Type 0 where
  pub session_key : Bytes
  pub send_at : ℕ
  pub message : Bytes
  pub expires_at : ℕ

unfoldable pub session_key_of : Bytes → Bytes → Bytes
session_key_of user_id instance_id = user_id ++ (bytes ":" ++ instance_id)

-- Whether the primary key is in the table.
unfoldable pub is_taken : Bytes → ℕ → List Row → Bool
is_taken key at [] = false
is_taken key at (row ∷ rows) =
    (str_eq row.session_key key && row.send_at == at) || is_taken key at rows

-- `INSERT … ON CONFLICT (session_key, send_at) DO NOTHING`.
unfoldable pub create : List Row → Bytes → Bytes → ℕ → Bytes → ℕ → List Row
unfolding session_key_of is_taken
create rows user_id instance_id send_at message expires_at =
    let key = session_key_of user_id instance_id in
    if is_taken key send_at rows
    then rows
    else record { session_key = key; send_at = send_at; message = message; expires_at = expires_at }
      ∷ rows

-- The rows of a session, in the order of `ORDER BY send_at ASC`.
unfoldable pub insert : Row → List Row → List Row
insert row [] = row ∷ []
insert row (x ∷ xs) =
    let rest = insert row xs in if ltb x.send_at row.send_at then x ∷ rest else row ∷ (x ∷ xs)

unfoldable pub selected : Bytes → List Row → List Row
unfolding insert
selected key [] = []
selected key (row ∷ rows) =
    let rest = selected key rows in if str_eq row.session_key key then insert row rest else rest

-- The scanning loop, which takes the last `send_at` for the greatest.
unfoldable pub scan : ℕ → List Row → List Bytes × ℕ
scan max_at [] = ([], max_at)
scan max_at (row ∷ rows) = let rest = scan row.send_at rows in (row.message ∷ rest.0, rest.1)

unfoldable pub get_all : List Row → Bytes → Bytes → List Bytes × ℕ
unfolding session_key_of selected scan
get_all rows user_id instance_id = scan 0 (selected (session_key_of user_id instance_id) rows)

unfoldable pub delete_up_to : List Row → Bytes → Bytes → ℕ → List Row
unfolding session_key_of
delete_up_to [] user_id instance_id n = []
delete_up_to (row ∷ rows) user_id instance_id n =
    let rest = delete_up_to rows user_id instance_id n in
    if str_eq row.session_key (session_key_of user_id instance_id) && leb row.send_at n
    then rest
    else row ∷ rest

unfoldable pub delete_all : List Row → Bytes → Bytes → List Row
unfolding session_key_of
delete_all [] user_id instance_id = []
delete_all (row ∷ rows) user_id instance_id =
    let rest = delete_all rows user_id instance_id in
    if str_eq row.session_key (session_key_of user_id instance_id) then rest else row ∷ rest

-- `DELETE … WHERE expires_at < NOW()`.
unfoldable pub clean_up_expired_pending_messages : ℕ → List Row → List Row
clean_up_expired_pending_messages now [] = []
clean_up_expired_pending_messages now (row ∷ rows) =
    let rest = clean_up_expired_pending_messages now rows in
    if ltb row.expires_at now then rest else row ∷ rest
