-- ===== src/Examples/Pending.antt =====
-- Pending messages, over the table of PostgreSQL.
use mathlib.Core.List.{Memᴰ}
use go_pkg.Common.{◌≡◌, ◌↔◌, ◌⊎◌, refl, true, false, bytes, str_eq, List, [], ◌∷◌, arith}
use go_pkg.PendingRows
use go_pkg.PendingRows.{session_key_of, create, insert, selected, scan, get_all}
use go_pkg.PendingRows.Repository.{postgres_repo}
use go_pkg.MsgHub.Pending.{Row, PendingMessageRepo, consume_read, consume_delete, saves_all}
use go_pkg.MsgHub.Pending.Kept.{consume_loses_nothing}

abbrev repo : PendingMessageRepo (List PendingRows.Row)
repo = postgres_repo (bytes "ann") (bytes "tab") 900

-- A row of the session and one of another.
abbrev stored : List PendingRows.Row
stored =
    record { session_key = bytes "ann:tab"; send_at = 5; message = 1 ∷ []; expires_at = 800 }
    ∷ record { session_key = bytes "bob:tv"; send_at = 9; message = 4 ∷ []; expires_at = 800 }
    ∷ []

abbrev late_row : Row
late_row = (7, 2 ∷ [])

consume_loses_nothing_example :
    (Memᴰ late_row ((5, 1 ∷ []) ∷ []) ↔ repo.Holds stored late_row)
    × (repo.Holds (consume_delete repo (saves_all repo stored (late_row ∷ [])) 5 true) late_row
        ↔ (Memᴰ late_row (late_row ∷ []) ⊎ ((true ≡ false) × Memᴰ late_row ((5, 1 ∷ []) ∷ []))))
unfolding consume_read postgres_repo selected get_all scan session_key_of str_eq insert
consume_loses_nothing_example =
    consume_loses_nothing repo stored ((5, 1 ∷ []) ∷ []) 5 (late_row ∷ []) true late_row refl
      (omega arith, tt) (tt, tt)
