-- ===== src/Common/Table.antt =====
-- Go maps with string keys, as association lists. A key stands in a table once if every table
-- is built from the empty one by `put` and `del`.
use go_pkg.Common.Tests.{if◌then◌else◌}
use go_pkg.Common.Text.{Bytes, str_eq, str_eq_iff, str_eq_refl}
use mathlib.Core.Path.{◌≡◌, refl}
use mathlib.Core.Bool.{Bool, true, false}
use mathlib.Core.Option.{Option, none, some}
use mathlib.Core.List.{List, [], ◌∷◌, map}
use native.Mathlib.Omega.{arith}

abbrev pub Table {ℓ} : Type ℓ → Type ℓ
Table V = List (Bytes × V)

module _ {ℓ} {V : Type ℓ} where
  unfoldable pub get : Bytes → Table V → Option V
  get k [] = none
  get k ((j, v) ∷ m) = if str_eq j k then some v else get k m

  unfoldable pub put : Bytes → V → Table V → Table V
  put k v [] = (k, v) ∷ []
  put k v ((j, w) ∷ m) = if str_eq j k then (k, v) ∷ m else (j, w) ∷ put k v m

  -- `delete(m, k)`.
  unfoldable pub del : Bytes → Table V → Table V
  del k [] = []
  del k ((j, w) ∷ m) = let rest = del k m in if str_eq j k then rest else (j, w) ∷ rest

  -- `len(m) == 0`.
  abbrev pub no_entries : Table V → Bool
  no_entries [] = true
  no_entries (e ∷ m) = false

  abbrev pub values : Table V → List V
  values = map (λ e. e.1)

  abbrev pub keys : Table V → List Bytes
  keys = map (λ e. e.0)

  pub get-nil : (k : Bytes) → get k [] ≡ none
  unfolding get
  get-nil k = refl

  pub get-put :
      (j k : Bytes) (v : V) (m : Table V)
      → get j (put k v m) ≡ (if str_eq k j then some v else get j m)
  unfolding get put
  get-put j k v [] = refl
  get-put j k v ((i, w) ∷ m) =
      ground (arith, str_eq_iff k j, str_eq_iff i k, str_eq_iff i j, get-put j k v m)

  pub get-del :
      (j k : Bytes) (m : Table V) → get j (del k m) ≡ (if str_eq k j then none else get j m)
  unfolding get del
  get-del j k [] = ground arith
  get-del j k ((i, w) ∷ m) =
      ground (arith, str_eq_iff k j, str_eq_iff i k, str_eq_iff i j, get-del j k m)

  pub get-put_self : (k : Bytes) (v : V) (m : Table V) → get k (put k v m) ≡ some v
  get-put_self k v m = rw (get-put, str_eq_refl k) refl

  pub get-del_self : (k : Bytes) (m : Table V) → get k (del k m) ≡ none
  get-del_self k m = rw (get-del, str_eq_refl k) refl

  pub no_entries-put : (k : Bytes) (v : V) (m : Table V) → no_entries (put k v m) ≡ false
  unfolding put
  no_entries-put k v [] = refl
  no_entries-put k v ((j, w) ∷ m) = ground arith

  -- A table with no entries has no value at any key.
  pub get-no_entries : (k : Bytes) (m : Table V) → no_entries m ≡ true → get k m ≡ none
  unfolding get
  get-no_entries k [] h = refl
  get-no_entries k (e ∷ m) h = cc
