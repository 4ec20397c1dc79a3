-- ===== src/Common/Unique.antt =====
-- Tables in which a key stands once, as in every Go map.
use go_pkg.Common.Tests.{Bool-cases}
use go_pkg.Common.Text.{Bytes, str_eq, str_eq_iff, str_eq_refl, str_eq_sym}
use go_pkg.Common.Table.{Table, get, put, del, values, get-put, get-del}
use mathlib.Core.Path.{◌≡◌, refl}
use mathlib.Core.Logic.{inl, inr}
use mathlib.Core.Option.{none, some}
use mathlib.Core.List.{[], ◌∷◌, Memᴰ}
use native.Mathlib.Omega.{arith}

module _ {ℓ} {V : Type ℓ} where
  abbrev pub Unique : Table V → Type ℓ
  Unique [] = Unit
  Unique ((k, v) ∷ m) = (get k m ≡ none) × Unique m

  pub Unique-put : (k : Bytes) (v : V) (m : Table V) → Unique m → Unique (put k v m)
  unfolding put get
  Unique-put k v [] u = (refl, tt)
  Unique-put k v ((j, w) ∷ m) u = elim (Bool-cases (str_eq j k)) [
    | inl e ↦ rw e (rw ((str_eq_iff j k).0 e) at u.0, u.1)
    | inr e ↦ rw e (rw (get-put j k v m, str_eq_sym k j, e) u.0, Unique-put k v m u.1)
  ]

  pub Unique-del : (k : Bytes) (m : Table V) → Unique m → Unique (del k m)
  unfolding del
  Unique-del k [] u = tt
  Unique-del k ((j, w) ∷ m) u = elim (Bool-cases (str_eq j k)) [
    | inl e ↦ rw e (Unique-del k m u.1)
    | inr e ↦ rw e (rw (get-del j k m, str_eq_sym k j, e) u.0, Unique-del k m u.1)
  ]

  pub mem-values_of_get : (k : Bytes) (m : Table V) {v : V} → get k m ≡ some v → Memᴰ v (values m)
  unfolding get
  mem-values_of_get k [] h = cc
  mem-values_of_get k ((j, w) ∷ m) h = elim (Bool-cases (str_eq j k)) [
    | inl e ↦ Memᴰ.head (ground arith)
    | inr e ↦ Memᴰ.tail (mem-values_of_get k m (ground arith))
  ]

  pub get_of_mem-values :
      (m : Table V) {v : V} → Unique m → Memᴰ v (values m) → (k : Bytes) × (get k m ≡ some v)
  unfolding get
  get_of_mem-values [] u h = elim h [ ]
  get_of_mem-values ((j, w) ∷ m) u (Memᴰ.head e) = (j, rw (str_eq_refl j, e))
  get_of_mem-values ((j, w) ∷ m) u (Memᴰ.tail h) =
      let (k, g) = get_of_mem-values m u.1 h in (k, ground (arith, str_eq_iff j k, u.0))
