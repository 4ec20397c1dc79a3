-- ===== src/Labels/Bounded.antt =====
-- No client makes up a label.
use go_pkg.Common.{
  ◌⊎◌, ◌≤◌, true, ◌||◌, ◌≡◌, sym, Bytes, bytes, is_empty, str_eq, str_eq_iff, some, List, [], ◌∷◌,
  ltb, ◌==◌, length, arith, Bool-cases, Option-cases, inl, inr,
}
use mathlib.Core.List.{Memᴰ}
use go_pkg.Labels.{
  max_msg_type_len, is_printable_ascii, in_allowlist, system_label, app_label, sanitize_msg_type,
}

mem-allowlist : (raw : Bytes) (es : List Bytes) → in_allowlist raw es ≡ true → Memᴰ raw es
unfolding in_allowlist
mem-allowlist raw [] h = cc
mem-allowlist raw (e ∷ es) h = elim (Bool-cases (str_eq e raw)) [
  | inl same ↦ Memᴰ.head (sym ((str_eq_iff e raw).0 same))
  | inr other ↦ Memᴰ.tail (mem-allowlist raw es (ground (arith, other, h)))
]

system_labels :
    (raw label : Bytes)
    → system_label raw ≡ some label
    → (label ≡ bytes "heartbeat") ⊎ (label ≡ bytes "ack")
unfolding system_label
system_labels [] label h = cc
system_labels (c ∷ []) label h = elim (Bool-cases (c == 202)) [
  | inl heartbeat ↦ inl (ground (arith, heartbeat, h))
  | inr other ↦ elim (Bool-cases (c == 203)) [
    | inl ack ↦ inr (ground (arith, other, ack, h))
    | inr neither ↦ absurd (ground (arith, other, neither, h))
  ]
]
system_labels (c ∷ d ∷ s) label h = cc

app_labels :
    (raw : Bytes) (allowlist : List Bytes)
    → (app_label raw allowlist ≡ bytes "other")
      ⊎ ((app_label raw allowlist ≡ raw)
          × Memᴰ raw allowlist
          × (length raw ≤ max_msg_type_len)
          × (is_printable_ascii raw ≡ true))
unfolding app_label
app_labels raw allowlist = elim (Bool-cases (is_empty raw || ltb max_msg_type_len (length raw))) [
  | inl bad ↦ inl (ground (arith, bad))
  | inr good ↦ elim (Bool-cases (in_allowlist raw allowlist)) [
    | inr unknown ↦ inl (ground (arith, good, unknown))
    | inl known ↦ elim (Bool-cases (is_printable_ascii raw)) [
      | inr ugly ↦ inl (ground (arith, good, known, ugly))
      | inl printable ↦ inr (
        ground (arith, good, known, printable),
        mem-allowlist raw allowlist known,
        ground (arith, good),
        printable,
      )
    ]
  ]
]

-- Whatever a client sends as the type of its message, the label is one of the three of the system or an
-- entry of the allowlist, of printable characters and 32 at most: clients add no label.
pub label_is_known :
    (raw : Bytes) (allowlist : List Bytes)
    → let label = sanitize_msg_type raw allowlist in
      ((label ≡ bytes "heartbeat") ⊎ (label ≡ bytes "ack"))
      ⊎ ((label ≡ bytes "other")
          ⊎ ((label ≡ raw)
              × Memᴰ raw allowlist
              × (length raw ≤ max_msg_type_len)
              × (is_printable_ascii raw ≡ true)))
unfolding sanitize_msg_type
label_is_known raw allowlist = elim (Option-cases (system_label raw)) [
  | inl none_there ↦ rw (none_there, sanitize_msg_type) (inr (app_labels raw allowlist))
  | inr (label, e) ↦ rw (e, sanitize_msg_type) (inl (system_labels raw label e))
]
