-- ===== src/ActiveConns/Rows.antt =====
-- What each statement leaves at every key of the table.
use go_pkg.Common.{
  ℕ, ◌≡◌, ◌&&◌, Bool, Bytes, Option, none, some, if◌then◌else◌, str_eq, str_eq_iff, arith,
  Option-cases, inl, inr,
}
use go_pkg.Common.Nested.{get2, get2-put2, get2-del2}
use go_pkg.Domain.{CoreType, Status}
use go_pkg.ActiveConns.{
  Row, Rows, upserted, add_connection, remove_connection, update, update_status,
}

abbrev pub same_key : Bytes → Bytes → Bytes → Bytes → Bool
same_key u i w j = str_eq u w && str_eq i j

pub get2-add_connection :
    (rows : Rows) (holder u i w j : Bytes) (t : CoreType) (now : ℕ)
    → get2 w j (add_connection rows holder u i t now)
      ≡ (if same_key u i w j then some (upserted (get2 u i rows) holder t now) else get2 w j rows)
unfolding add_connection
get2-add_connection rows holder u i w j t now =
    get2-put2 u i w j (upserted (get2 u i rows) holder t now) rows

pub get2-remove_connection :
    (rows : Rows) (u i w j : Bytes)
    → get2 w j (remove_connection rows u i) ≡ (if same_key u i w j then none else get2 w j rows)
unfolding remove_connection
get2-remove_connection rows u i w j = get2-del2 u i w j rows

abbrev pub map_row : (Row → Row) → Option Row → Option Row
map_row f none = none
map_row f (some row) = some (f row)

pub get2-update :
    (rows : Rows) (u i w j : Bytes) (f : Row → Row)
    → get2 w j (update rows u i f)
      ≡ (if same_key u i w j then map_row f (get2 w j rows) else get2 w j rows)
unfolding update
get2-update rows u i w j f = elim (Option-cases (get2 u i rows)) [
  | inl e ↦ ground (arith, e, str_eq_iff u w, str_eq_iff i j)
  | inr (row, e) ↦ ground (arith, e, get2-put2 u i w j (f row) rows, str_eq_iff u w, str_eq_iff i j)
]

pub get2-update_status :
    (rows : Rows) (u i w j : Bytes) (s : Status)
    → get2 w j (update_status rows u i s) ≡ (
        if same_key u i w j
        then map_row (λ row. record row { status = s }) (get2 w j rows)
        else get2 w j rows)
unfolding update_status
get2-update_status rows u i w j s = get2-update rows u i w j (λ row. record row { status = s })
