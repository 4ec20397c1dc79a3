-- ===== src/PendingRows/Reading.antt =====
-- What `Consume` reads from the table and deletes of it.
use go_pkg.Common.{
  ℕ, ◌+◌, ◌≤◌, Bool, ◌&&◌, ◌≡◌, refl, ap, ◌∙◌, Bytes, bytes, str_eq, str_eq_iff, List, [], ◌∷◌,
  ◌++◌, map, if◌then◌else◌, ltb, not, All, Bool-cases, inl, inr, arith,
}
use mathlib.Core.List.{append_assoc}
use go_pkg.PendingRows.{
  Row, session_key_of, is_taken, create, insert, selected, scan, get_all, delete_up_to,
}

-- How often a row stands in a list, by a test of the row.
pub count_if : (Row → Bool) → List Row → ℕ
count_if p [] = 0
count_if p (row ∷ rows) = (if p row then 1 else 0) + count_if p rows

abbrev pub IsSortedFrom : ℕ → List Row → Type 0
IsSortedFrom n [] = Unit {0}
IsSortedFrom n (row ∷ rows) = (n ≤ row.send_at) × IsSortedFrom row.send_at rows

insert-IsSortedFrom :
    (row : Row) (xs : List Row) (n : ℕ)
    → n ≤ row.send_at
    → IsSortedFrom n xs
    → IsSortedFrom n (insert row xs)
unfolding insert
insert-IsSortedFrom row [] n h s = (h, tt)
insert-IsSortedFrom row (x ∷ xs) n h s = elim (Bool-cases (ltb x.send_at row.send_at)) [
  | inl before ↦ rw before (s.0, insert-IsSortedFrom row xs x.send_at (ground arith) s.1)
  | inr after ↦ rw after (h, (ground arith, s.1))
]

pub selected-IsSortedFrom : (key : Bytes) (rows : List Row) → IsSortedFrom 0 (selected key rows)
unfolding selected
selected-IsSortedFrom key [] = tt
selected-IsSortedFrom key (row ∷ rows) = elim (Bool-cases (str_eq row.session_key key)) [
  | inl own ↦
      rw own (
        insert-IsSortedFrom row (selected key rows) 0 (omega arith)
          (selected-IsSortedFrom key rows))
  | inr other ↦ rw other (selected-IsSortedFrom key rows)
]

count_if-insert :
    (p : Row → Bool) (row : Row) (xs : List Row)
    → count_if p (insert row xs) ≡ (if p row then 1 else 0) + count_if p xs
unfolding count_if insert
count_if-insert p row [] = refl
count_if-insert p row (x ∷ xs) = ground (arith, count_if-insert p row xs)

count_if-selected :
    (p : Row → Bool) (key : Bytes) (rows : List Row)
    → count_if p (selected key rows) ≡ count_if (λ row. str_eq row.session_key key && p row) rows
unfolding count_if selected
count_if-selected p key [] = refl
count_if-selected p key (row ∷ rows) = elim (Bool-cases (str_eq row.session_key key)) [
  | inl own ↦ rw own (
      count_if-insert p row (selected key rows)
      ∙ ap (λ n. (if p row then 1 else 0) + n) (count_if-selected p key rows))
  | inr other ↦ rw other (omega (arith, count_if-selected p key rows))
]

messages_of_scan : (n : ℕ) (xs : List Row) → (scan n xs).0 ≡ map (λ row. row.message) xs
unfolding scan
messages_of_scan n [] = refl
messages_of_scan n (row ∷ xs) = ap (◌∷◌ row.message) (messages_of_scan row.send_at xs)

-- The last of a sorted list is the greatest.
pub max_of_scan :
    (n : ℕ) (xs : List Row)
    → IsSortedFrom n xs
    → (n ≤ (scan n xs).1) × All (λ row. row.send_at ≤ (scan n xs).1) xs
unfolding scan
max_of_scan n [] s = (omega arith, tt)
max_of_scan n (row ∷ xs) s =
    let rest = max_of_scan row.send_at xs s.1 in (omega (arith, rest.0), (rest.0, rest.1))

-- `GetAll` gives the messages of the session's rows, each as often as it is stored, in the
-- order of their `SendAt`, and a `SendAt` that is not less than any of theirs.
pub get_all_exact :
    (rows : List Row) (u i : Bytes)
    → (read : List Row) × ((get_all rows u i).0 ≡ map (λ row. row.message) read)
      × IsSortedFrom 0 read
      × All (λ row. row.send_at ≤ (get_all rows u i).1) read
      × ((p : Row → Bool)
          → count_if p read
            ≡ count_if (λ row. str_eq row.session_key (session_key_of u i) && p row) rows)
unfolding get_all
get_all_exact rows u i =
    let key = session_key_of u i in
    let sorted = selected-IsSortedFrom key rows in
    (
      selected key rows,
      messages_of_scan 0 (selected key rows),
      sorted,
      (max_of_scan 0 (selected key rows) sorted).1,
      λ p. count_if-selected p key rows,
    )

All-insert_inv :
    (P : Row → Type 0) (row : Row) (xs : List Row) → All P (insert row xs) → P row × All P xs
unfolding insert
All-insert_inv P row [] h = h
All-insert_inv P row (x ∷ xs) h = elim (Bool-cases (ltb x.send_at row.send_at)) [
  | inl before ↦
      let g = rw (before, insert) at h in
      let rest = All-insert_inv P row xs g.1 in (rest.0, (g.0, rest.1))
  | inr after ↦ rw (after, insert) at h
]

count_if-delete_up_to :
    (p : Row → Bool) (rows : List Row) (u i : Bytes) (n : ℕ)
    → All (λ row. row.send_at ≤ n) (selected (session_key_of u i) rows)
    → count_if p (delete_up_to rows u i n)
      ≡ count_if (λ row. not (str_eq row.session_key (session_key_of u i)) && p row) rows
unfolding count_if delete_up_to selected
count_if-delete_up_to p [] u i n h = refl
count_if-delete_up_to p (row ∷ rows) u i n h =
    elim (Bool-cases (str_eq row.session_key (session_key_of u i))) [
      | inl own ↦
          let below =
            All-insert_inv (λ r. r.send_at ≤ n) row (selected (session_key_of u i) rows)
              (rw (own, selected) at h) in
          ground (arith, own, below.0, count_if-delete_up_to p rows u i n below.1)
      | inr other ↦
          ground (arith, other, count_if-delete_up_to p rows u i n (rw (other, selected) at h))
    ]

-- `DeleteUpTo` with the `SendAt` that `GetAll` has just returned leaves no row with the session's key,
-- and every row with another key as often as before. Two sessions can have one key: then the rows
-- of the other go too.
pub consumed_exactly :
    (p : Row → Bool) (rows : List Row) (u i : Bytes)
    → count_if p (delete_up_to rows u i (get_all rows u i).1)
      ≡ count_if (λ row. not (str_eq row.session_key (session_key_of u i)) && p row) rows
unfolding get_all
consumed_exactly p rows u i =
    let key = session_key_of u i in
    count_if-delete_up_to p rows u i (get_all rows u i).1
      (max_of_scan 0 (selected key rows) (selected-IsSortedFrom key rows)).1

-- A message that is saved while another of the same session has the same `SendAt` is dropped: `Create`
-- changes nothing and reports no error.
pub same_time_is_dropped :
    (rows : List Row) (u i : Bytes) (at : ℕ) (first second : Bytes) (e d : ℕ)
    → create (create rows u i at first e) u i at second d ≡ create rows u i at first e
unfolding create is_taken
same_time_is_dropped rows u i at first second e d =
    ground (arith, str_eq_iff (session_key_of u i) (session_key_of u i))

-- Two sessions whose IDs give one key when they are joined by a colon share their pending messages.
pub sessions_share_messages :
    (rows : List Row) (u v i : Bytes)
    → get_all rows (u ++ (bytes ":" ++ v)) i ≡ get_all rows u (v ++ (bytes ":" ++ i))
unfolding get_all session_key_of
sessions_share_messages rows u v i =
    ap (λ key. scan 0 (selected key rows)) (append_assoc u (bytes ":" ++ v) (bytes ":" ++ i))
