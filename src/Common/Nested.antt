-- ===== src/Common/Nested.antt =====
-- Two-level Go maps, `map[string]map[string]V`, whose empty inner maps are deleted.
use go_pkg.Common.Tests.{if◌then◌else◌}
use go_pkg.Common.Text.{Bytes, str_eq, str_eq_iff}
use go_pkg.Common.Table.{
  Table, get, put, del, no_entries, get-put, get-del, get-nil, get-no_entries,
}
use mathlib.Core.Path.{◌≡◌}
use mathlib.Core.Bool.{◌&&◌}
use mathlib.Core.Option.{Option, none, some}
use mathlib.Core.List.{[]}
use native.Mathlib.Omega.{arith}

module _ {ℓ} {V : Type ℓ} where
  abbrev pub inner : Bytes → Table (Table V) → Table V
  inner u m = elim (get u m) [ none ↦ [] | some t ↦ t ]

  -- `v, ok := m[u][i]`.
  unfoldable pub get2 : Bytes → Bytes → Table (Table V) → Option V
  get2 u i m = elim (get u m) [ none ↦ none | some t ↦ get i t ]

  -- `m[u][i] = v`, with the inner map made where it is missing.
  unfoldable pub put2 : Bytes → Bytes → V → Table (Table V) → Table (Table V)
  put2 u i v m = put u (put i v (inner u m)) m

  unfoldable pub keep_inner : Bytes → Table V → Table (Table V) → Table (Table V)
  keep_inner u t m = if no_entries t then del u m else put u t m

  -- `delete(m[u], i)`, and `delete(m, u)` where nothing is left.
  unfoldable pub del2 : Bytes → Bytes → Table (Table V) → Table (Table V)
  del2 u i m = elim (get u m) [ none ↦ m | some t ↦ keep_inner u (del i t) m ]

  pub get2-put2 :
      (u i w j : Bytes) (v : V) (m : Table (Table V))
      → get2 w j (put2 u i v m) ≡ (if str_eq u w && str_eq i j then some v else get2 w j m)
  unfolding get2 put2
  get2-put2 u i w j v m = ground (
    arith,
    get-put w u (put i v (inner u m)) m,
    get-put j i v (inner u m),
    get-nil {V = V} j,
    str_eq_iff u w,
    str_eq_iff i j,
  )

  get-keep_inner :
      (w u : Bytes) (t : Table V) (m : Table (Table V))
      → get w (keep_inner u t m)
        ≡ (if str_eq u w then (if no_entries t then none else some t) else get w m)
  unfolding keep_inner
  get-keep_inner w u t m = ground (arith, get-put w u t m, get-del w u m)

  pub get2-del2 :
      (u i w j : Bytes) (m : Table (Table V))
      → get2 w j (del2 u i m) ≡ (if str_eq u w && str_eq i j then none else get2 w j m)
  unfolding get2 del2
  get2-del2 u i w j m =
      let t = del i (inner u m) in
      ground (
        arith,
        get-keep_inner w u t m,
        get-del j i (inner u m),
        get-no_entries j t,
        str_eq_iff u w,
        str_eq_iff i j,
      )
