-- ===== src/PendingRows/Members.antt =====
-- Which rows of the pending messages are selected and deleted.
use mathlib.Core.List.{Memᴰ}
use go_pkg.Common.{
  ℕ, ◌≡◌, ◌∙◌, ◌↔◌, ◌⊎◌, inl, inr, refl, sym, ap, subst, Bool, true, false, ◌&&◌, not, Bytes,
  str_eq, List, [], ◌∷◌, map, if◌then◌else◌, ltb, leb, ◌==◌, All, Bool-cases, arith,
}
use go_pkg.PendingRows.{Row, session_key_of, is_taken, insert, selected, delete_up_to, delete_all}
use go_pkg.MsgHub.Pending
use go_pkg.MsgHub.Pending.{PendingMessageRepo}

-- What the hub sees of a row.
abbrev pub seen : Row → Pending.Row
seen row = (row.send_at, row.message)

abbrev pub is_own : Bytes → Row → Bool
is_own key row = str_eq row.session_key key

-- A row with the key that the hub sees as this.
abbrev pub IsStored : Bytes → List Row → Pending.Row → Type 0
IsStored key rows r = (row : Row) × Memᴰ row rows × (is_own key row ≡ true) × (seen row ≡ r)

pub true-ne-false : true ≡ false → ⊥
true-ne-false h = cc

mem-insert : (x row : Row) (xs : List Row) → Memᴰ x (insert row xs) ↔ ((x ≡ row) ⊎ Memᴰ x xs)
unfolding insert
mem-insert x row [] = (
  λ h. elim h [ Memᴰ.head e ↦ inl e | Memᴰ.tail k ↦ elim k [ ] ],
  λ h. elim h [ inl e ↦ Memᴰ.head e | inr k ↦ elim k [ ] ],
)
mem-insert x row (y ∷ ys) = elim (Bool-cases (ltb y.send_at row.send_at)) [
  | inl before ↦
      let (to, from) = mem-insert x row ys in
      rw before (
        λ h. elim h [
          | Memᴰ.head e ↦ inr (Memᴰ.head e)
          | Memᴰ.tail k ↦ elim (to k) [ inl e ↦ inl e | inr m ↦ inr (Memᴰ.tail m) ]
        ],
        λ h. elim h [
          | inl e ↦ Memᴰ.tail (from (inl e))
          | inr (Memᴰ.head e) ↦ Memᴰ.head e
          | inr (Memᴰ.tail m) ↦ Memᴰ.tail (from (inr m))
        ],
      )
  | inr after ↦ rw after (
    λ h. elim h [ Memᴰ.head e ↦ inl e | Memᴰ.tail k ↦ inr k ],
    λ h. elim h [ inl e ↦ Memᴰ.head e | inr k ↦ Memᴰ.tail k ],
  )
]

-- Keeping the rows that pass a test.
pub filter : (Row → Bool) → List Row → List Row
filter p [] = []
filter p (row ∷ rows) = let rest = filter p rows in if p row then row ∷ rest else rest

pub mem-filter :
    (p : Row → Bool) (x : Row) (rows : List Row)
    → Memᴰ x (filter p rows) ↔ (Memᴰ x rows × (p x ≡ true))
unfolding filter
mem-filter p x [] = (λ h. elim h [ ], λ h. elim h.0 [ ])
mem-filter p x (row ∷ rows) =
    let (to, from) = mem-filter p x rows in
    elim (Bool-cases (p row)) [
      | inl passes ↦ rw passes (
        λ h. elim h [
          | Memᴰ.head e ↦ (Memᴰ.head e, ap p e ∙ passes)
          | Memᴰ.tail k ↦ (Memᴰ.tail (to k).0, (to k).1)
        ],
        λ h. elim h.0 [ Memᴰ.head e ↦ Memᴰ.head e | Memᴰ.tail k ↦ Memᴰ.tail (from (k, h.1)) ],
      )
      | inr fails ↦ rw fails (
        λ h. (Memᴰ.tail (to h).0, (to h).1),
        λ h. elim h.0 [
          | Memᴰ.head e ↦ absurd (true-ne-false (sym h.1 ∙ ap p e ∙ fails))
          | Memᴰ.tail k ↦ from (k, h.1)
        ],
      )
    ]

pub mem-selected :
    (key : Bytes) (x : Row) (rows : List Row)
    → Memᴰ x (selected key rows) ↔ (Memᴰ x rows × (is_own key x ≡ true))
unfolding selected
mem-selected key x [] = (λ h. elim h [ ], λ h. elim h.0 [ ])
mem-selected key x (row ∷ rows) =
    let (to, from) = mem-selected key x rows in
    elim (Bool-cases (str_eq row.session_key key)) [
      | inl own ↦
          let (split, join) = mem-insert x row (selected key rows) in
          rw own (
            λ h. elim (split h) [
              | inl e ↦ (Memᴰ.head e, ap (is_own key) e ∙ own)
              | inr k ↦ (Memᴰ.tail (to k).0, (to k).1)
            ],
            λ h. elim h.0 [ Memᴰ.head e ↦ join (inl e) | Memᴰ.tail k ↦ join (inr (from (k, h.1))) ],
          )
      | inr other ↦ rw other (
        λ h. (Memᴰ.tail (to h).0, (to h).1),
        λ h. elim h.0 [
          | Memᴰ.head e ↦ absurd (true-ne-false (sym h.1 ∙ ap (is_own key) e ∙ other))
          | Memᴰ.tail k ↦ from (k, h.1)
        ],
      )
    ]

-- What is deleted is what a filter leaves out.
pub delete_up_to-filter :
    (rows : List Row) (u i : Bytes) (n : ℕ)
    → delete_up_to rows u i n
      ≡ filter (λ row. not (is_own (session_key_of u i) row && leb row.send_at n)) rows
unfolding delete_up_to filter
delete_up_to-filter [] u i n = refl
delete_up_to-filter (row ∷ rows) u i n = ground (arith, delete_up_to-filter rows u i n)

pub delete_all-filter :
    (rows : List Row) (u i : Bytes)
    → delete_all rows u i ≡ filter (λ row. not (is_own (session_key_of u i) row)) rows
unfolding delete_all filter
delete_all-filter [] u i = refl
delete_all-filter (row ∷ rows) u i = ground (arith, delete_all-filter rows u i)

pub mem-All : (P : Row → Type 0) (x : Row) (rows : List Row) → All P rows → Memᴰ x rows → P x
mem-All P x [] h m = elim m [ ]
mem-All P x (row ∷ rows) h (Memᴰ.head e) = subst P (sym e) h.0
mem-All P x (row ∷ rows) h (Memᴰ.tail m) = mem-All P x rows h.1 m

pub mem-map :
    (r : Pending.Row) (rows : List Row)
    → Memᴰ r (map seen rows) ↔ ((row : Row) × Memᴰ row rows × (seen row ≡ r))
mem-map r [] = (λ h. elim h [ ], λ (row, m, e). elim m [ ])
mem-map r (row ∷ rows) =
    let (to, from) = mem-map r rows in
    (
      λ h. elim h [
        | Memᴰ.head e ↦ (row, Memᴰ.head refl, sym e)
        | Memᴰ.tail k ↦ let (x, m, e) = to k in (x, Memᴰ.tail m, e)
      ],
      λ (x, m, e). elim m [
        | Memᴰ.head same ↦ Memᴰ.head (sym e ∙ ap seen same)
        | Memᴰ.tail k ↦ Memᴰ.tail (from (x, k, e))
      ],
    )

-- A primary key that is taken is that of a row.
pub taken_row :
    (key : Bytes) (at : ℕ) (rows : List Row)
    → is_taken key at rows ≡ true
    → (m : Bytes) × IsStored key rows (at, m)
unfolding is_taken
taken_row key at [] h = absurd (true-ne-false (sym h))
taken_row key at (row ∷ rows) h =
    elim (Bool-cases (str_eq row.session_key key && row.send_at == at)) [
      | inl here ↦
          let same : row.send_at ≡ at = ground (arith, here) in
          (
            row.message,
            (row, Memᴰ.head refl, ground (arith, here), ap (λ n. (n, row.message)) same),
          )
      | inr further ↦
          let (m, (x, k, own, e)) = taken_row key at rows (ground (arith, h, further)) in
          (m, (x, Memᴰ.tail k, own, e))
    ]
