-- ===== src/AdminApi/Keys.antt =====
-- Who reaches the services, and how often a request calls one.
use go_pkg.Common.{
  ◌⊎◌, true, false, not, ◌||◌, ◌≡◌, Bytes, bytes, is_empty, str_eq, str_eq_iff, some, List, [], ◌∷◌,
  ◌++◌, arith, Bool-cases, Option-cases, inl, inr, ◌==◌,
}
use mathlib.Core.List.{Memᴰ}
use go_pkg.AdminApi.{
  Call, Answer, unauthorized, Route, api, after_prefix, trim_space, match_any_key, require_api_key,
}

module _ (svc : Call → Answer) (key : Bytes) where
  after_prefix_sound : (p s rest : Bytes) → after_prefix svc key p s ≡ some rest → s ≡ p ++ rest
  unfolding after_prefix
  after_prefix_sound [] s rest h = cc
  after_prefix_sound (p ∷ ps) [] rest h = cc
  after_prefix_sound (p ∷ ps) (c ∷ s) rest h = elim (Bool-cases (p == c)) [
    | inl same ↦ ground (arith, same, h, after_prefix_sound ps s rest)
    | inr other ↦ absurd (ground (arith, other, h))
  ]

  mem-match :
      (got : Bytes) (keys : List Bytes) → match_any_key svc key got keys ≡ true → Memᴰ got keys
  unfolding match_any_key
  mem-match got [] h = cc
  mem-match got (k ∷ ks) h = elim (Bool-cases (str_eq got k)) [
    | inl same ↦ Memᴰ.head ((str_eq_iff got k).0 same)
    | inr other ↦ Memᴰ.tail (mem-match got ks (ground (arith, other, h)))
  ]

  -- A request that is not refused for its key carries a key behind "Bearer ", up to space around it, that is not
  -- empty and one of those configured, and is then handled by its route; every other request is
  -- answered as unauthorized and calls no service.
  pub calls_need_key :
      (keys : List Bytes) (authz : Bytes) (route : Route)
      → (require_api_key svc key keys authz route ≡ (unauthorized, []))
        ⊎ ((rest : Bytes) × (authz ≡ bytes "Bearer " ++ rest)
            × (is_empty (trim_space svc key rest) ≡ false)
            × Memᴰ (trim_space svc key rest) keys
            × (require_api_key svc key keys authz route ≡ api svc key route))
  unfolding require_api_key
  calls_need_key keys authz route =
      elim (Option-cases (after_prefix svc key (bytes "Bearer ") authz)) [
        | inl none_there ↦ inl (ground (arith, none_there))
        | inr (rest, found) ↦
            let got = trim_space svc key rest in
            elim (Bool-cases (is_empty got || not (match_any_key svc key got keys))) [
              | inl bad ↦ inl (ground (arith, found, bad))
              | inr good ↦ inr (
                rest,
                after_prefix_sound (bytes "Bearer ") authz rest found,
                ground (arith, good),
                mem-match got keys (ground (arith, good)),
                ground (arith, found, good),
              )
            ]
      ]
