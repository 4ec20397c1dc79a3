-- ===== src/PendingRows/Repository.antt =====
-- The table of PostgreSQL as the repository of pending messages of one session.
use mathlib.Core.List.{Memᴰ}
use go_pkg.Common.{
  ℕ, ◌≤◌, ◌≡◌, ◌∙◌, ◌↔◌, ◌⊎◌, inl, inr, refl, sym, ap, subst, Bool, true, ◌&&◌, not, Bytes,
  str_eq_refl, List, map, ltb, leb, Bool-cases, arith,
}
use go_pkg.PendingRows.{
  Row, session_key_of, is_taken, create, selected, get_all, delete_up_to, delete_all,
}
use go_pkg.PendingRows.Reading.{selected-IsSortedFrom, max_of_scan}
use go_pkg.MsgHub.Pending
use go_pkg.MsgHub.Pending.{PendingMessageRepo}
use go_pkg.PendingRows.Members.{
  seen, is_own, IsStored, mem-filter, true-ne-false, mem-selected, delete_up_to-filter,
  delete_all-filter, mem-All, mem-map, taken_row,
}

module _ (u i : Bytes) (expires_at : ℕ) where
  abbrev pub rows_of : List Row → List Pending.Row × ℕ
  rows_of rows = (map seen (selected (session_key_of u i) rows), (get_all rows u i).1)

  pub rows_of-IsStored :
      (rows : List Row) (r : Pending.Row)
      → Memᴰ r (rows_of rows).0 ↔ IsStored (session_key_of u i) rows r
  rows_of-IsStored rows r =
      let key = session_key_of u i in
      let (to, from) = mem-map r (selected key rows) in
      (
        λ h.
            let (row, m, e) = to h in
            let (k, own) = (mem-selected key row rows).0 m in (row, k, own, e),
        λ (row, k, own, e). from (row, (mem-selected key row rows).1 (k, own), e),
      )

  pub below_max :
      (rows : List Row) (r : Pending.Row)
      → IsStored (session_key_of u i) rows r
      → r.0 ≤ (rows_of rows).1
  unfolding get_all
  below_max rows r (row, k, own, e) =
      let key = session_key_of u i in
      let max = (max_of_scan 0 (selected key rows) (selected-IsSortedFrom key rows)).1 in
      subst (λ x. x.0 ≤ (rows_of rows).1) e
        (mem-All (λ x. x.send_at ≤ (rows_of rows).1) row (selected key rows) max
          ((mem-selected key row rows).1 (k, own)))

  pub created-IsStored :
      (rows : List Row) (at : ℕ) (msg : Bytes) (r : Pending.Row)
      → ((m : Bytes) → IsStored (session_key_of u i) rows (at, m) → ⊥)
      → IsStored (session_key_of u i) (create rows u i at msg expires_at) r
        ↔ (IsStored (session_key_of u i) rows r ⊎ (r ≡ (at, msg)))
  unfolding create
  created-IsStored rows at msg r free =
      let key = session_key_of u i in
      elim (Bool-cases (is_taken key at rows)) [
        | inl taken ↦ let (m, stored) = taken_row key at rows taken in absurd (free m stored)
        | inr open_key ↦ rw open_key (
          λ (row, k, own, e). elim k [
            | Memᴰ.head same ↦ inr (sym e ∙ ap seen same)
            | Memᴰ.tail old ↦ inl (row, old, own, e)
          ],
          λ h. elim h [
            | inl (row, k, own, e) ↦ (row, Memᴰ.tail k, own, e)
            | inr e ↦ (_, Memᴰ.head refl, str_eq_refl key, sym e)
          ],
        )
      ]

  pub left-IsStored :
      (rows : List Row) (n : ℕ) (r : Pending.Row)
      → IsStored (session_key_of u i) (delete_up_to rows u i n) r
        ↔ (IsStored (session_key_of u i) rows r × (ltb n r.0 ≡ true))
  left-IsStored rows n r =
      let key = session_key_of u i in
      let keeps : Row → Bool = λ row. not (is_own key row && leb row.send_at n) in
      (
        λ (row, k, own, e).
            let (m, kept) =
              (mem-filter keeps row rows).0 (subst (Memᴰ row) (delete_up_to-filter rows u i n) k) in
            ((row, m, own, e), subst (λ x. ltb n x.0 ≡ true) e (ground (arith, own, kept))),
        λ ((row, k, own, e), late).
            let late' : ltb n row.send_at ≡ true = subst (λ x. ltb n x.0 ≡ true) (sym e) late in
            (
              row,
              subst (Memᴰ row) (sym (delete_up_to-filter rows u i n))
                  ((mem-filter keeps row rows).1 (k, ground (arith, own, late'))),
              own,
              e,
            ),
      )

  pub none-IsStored :
      (rows : List Row) (r : Pending.Row)
      → IsStored (session_key_of u i) (delete_all rows u i) r
      → ⊥
  none-IsStored rows r (row, k, own, e) =
      let key = session_key_of u i in
      let (m, other) =
        (mem-filter (λ x. not (is_own key x)) row rows).0
          (subst (Memᴰ row) (delete_all-filter rows u i) k) in
      true-ne-false (ground (arith, own, other))

  -- The pending messages of one session in the table, where all that is saved goes at one time.
  unfoldable pub postgres_repo : PendingMessageRepo (List Row)
  postgres_repo = record {
    create = λ rows at msg. create rows u i at msg expires_at;
    get_all = rows_of;
    delete_up_to = λ rows n. delete_up_to rows u i n;
    delete_all = λ rows. delete_all rows u i;
    Holds = λ rows r. IsStored (session_key_of u i) rows r;
    get_all-Holds = rows_of-IsStored;
    max_send_at = below_max;
    create-Holds = created-IsStored;
    delete_up_to-Holds = left-IsStored;
    delete_all-Holds = none-IsStored;
  }
