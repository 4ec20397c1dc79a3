-- ===== src/Broadcast/Transport.antt =====
-- A message is handled where it was sent, with what it was sent with.
use go_pkg.Common.{
  ◌↔◌, true, false, not, ◌≡◌, refl, sym, subst, Bytes, str_eq, str_eq_refl, Option, none, some,
  List, [], ◌∷◌, if◌then◌else◌, arith, Bool-cases, inl, inr,
}
use go_pkg.Broadcast.{
  Params, msg_type_of, is_valid_input, is_for_all, PubsubMessage, channel_name, broadcast_channel,
  publish_each, publish, one_of, targeted_types, types_for_all, marshal, create, handle_msg,
  handle_broadcast_msg, handled_at,
}

-- Every message has the case of its own `switch` and none of the other.
dispatched :
    (p : Params)
    → (one_of (msg_type_of p) targeted_types ≡ not (is_for_all p))
      × (one_of (msg_type_of p) types_for_all ≡ is_for_all p)
unfolding msg_type_of is_for_all str_eq
dispatched (Params.send_to_user u t p) = (refl, refl)
dispatched (Params.send_to_session u i t p) = (refl, refl)
dispatched (Params.disconnect_session u i) = (refl, refl)
dispatched (Params.disconnect_user u) = (refl, refl)
dispatched (Params.send_to_users us t p) = (refl, refl)
dispatched (Params.send_to_session_with_ack u i t p a s) = (refl, refl)
dispatched (Params.send_to_user_with_ack u t p a s) = (refl, refl)
dispatched (Params.ack_resolved a) = (refl, refl)
dispatched (Params.resume_session u i) = (refl, refl)
dispatched (Params.send_to_anonymous all is t p) = (refl, refl)
dispatched (Params.send_to_authenticated t p) = (refl, refl)
dispatched (Params.send_to_all t p) = (refl, refl)

channel_name-injective : (a b : Bytes) → str_eq (channel_name a) (channel_name b) ≡ str_eq a b
unfolding channel_name str_eq
channel_name-injective a b = refl

-- A message once for each time that the container is named.
pub copies : Bytes → List Bytes → Params → List Params
copies container_id [] p = []
copies container_id (c ∷ cs) p =
    let rest = copies container_id cs p in if str_eq c container_id then p ∷ rest else rest

module _ {B : Type 0} (pack : Params → B) (unpack : Bytes → B → Option Params)
    (unpack-pack : (p : Params) → unpack (msg_type_of p) (pack p) ≡ some p) where
  abbrev message : Params → PubsubMessage B
  message p = record { msg_type = msg_type_of p; payload = pack p }

  handled_once :
      (p : Params)
      → (handle_msg pack unpack (message p) ≡ (if is_for_all p then [] else p ∷ []))
        × (handle_broadcast_msg pack unpack (message p) ≡ (if is_for_all p then p ∷ [] else []))
  unfolding handle_msg handle_broadcast_msg
  handled_once p =
      let d = dispatched p in
      elim (Bool-cases (is_for_all p)) [
        | inl all ↦ (ground (arith, all, d, unpack-pack p), ground (arith, all, d, unpack-pack p))
        | inr one ↦ (ground (arith, one, d, unpack-pack p), ground (arith, one, d, unpack-pack p))
      ]

  targeted_handled :
      (p : Params) (id : Bytes) (targets : List Bytes)
      → is_for_all p ≡ false
      → handled_at pack unpack id (publish_each (λ c. true) (message p) targets).0
        ≡ copies id targets p
  unfolding handled_at publish_each copies
  targeted_handled p id [] one = refl
  targeted_handled p id (c ∷ cs) one =
      let h = handled_once p in
      ground (arith, one, h, channel_name-injective c id, targeted_handled p id cs one)

  for_all_handled :
      (p : Params) (id : Bytes)
      → is_for_all p ≡ true
      → handled_at pack unpack id (publish_each (λ c. true) (message p) (broadcast_channel ∷ [])).0
        ≡ p ∷ []
  unfolding handled_at publish_each
  for_all_handled p id all =
      let h = handled_once p in ground (arith, all, h, str_eq_refl (channel_name broadcast_channel))

  all_published :
      (msg : PubsubMessage B) (targets : List Bytes)
      → (publish_each (λ c. true) msg targets).1 ≡ true
  unfolding publish_each
  all_published msg [] = refl
  all_published msg (c ∷ cs) = all_published msg cs

  created : (p : Params) (msg : PubsubMessage B) → create pack unpack p ≡ some msg → msg ≡ message p
  unfolding create marshal
  created p msg h = elim (Bool-cases (is_valid_input p)) [
    | inl valid ↦ ground (arith, valid, h)
    | inr nil ↦ absurd (ground (arith, nil, h))
  ]

  create_panics_iff : (p : Params) → (create pack unpack p ≡ none) ↔ (is_valid_input p ≡ false)
  unfolding create marshal
  create_panics_iff p = (λ h. ground (arith, h), λ h. ground (arith, h))

  sent_and_handled :
      (p : Params) (targets : List Bytes)
      → let sent = publish (λ c. true) (is_for_all p) targets (message p) in
        (sent.1 ≡ true)
        × ((id : Bytes)
            → handled_at pack unpack id sent.0
              ≡ (if is_for_all p then p ∷ [] else copies id targets p))
  unfolding publish
  sent_and_handled p targets = elim (Bool-cases (is_for_all p)) [
    | inl all ↦ rw all (refl, λ id. for_all_handled p id all)
    | inr one ↦ rw one (all_published (message p) targets, λ id. targeted_handled p id targets one)
  ]

  -- A message that is published with no failure calls its handler with its parameters: one to certain containers at
  -- each of them as often as it is named and nowhere else, one to all at every container once. Creating it
  -- panics exactly if it has a payload that is nil.
  pub published_is_handled :
      (p : Params) (targets : List Bytes)
      → ((create pack unpack p ≡ none) ↔ (is_valid_input p ≡ false))
        × ((msg : PubsubMessage B)
            → create pack unpack p ≡ some msg
            → let sent = publish (λ c. true) (is_for_all p) targets msg in
              (sent.1 ≡ true)
              × ((id : Bytes)
                  → handled_at pack unpack id sent.0
                    ≡ (if is_for_all p then p ∷ [] else copies id targets p)))
  published_is_handled p targets = (
    create_panics_iff p,
    λ msg h.
        subst
          (λ m.
            let sent = publish (λ c. true) (is_for_all p) targets m in
            (sent.1 ≡ true)
            × ((id : Bytes)
                → handled_at pack unpack id sent.0
                  ≡ (if is_for_all p then p ∷ [] else copies id targets p)))
          (sym (created p msg h)) (sent_and_handled p targets),
  )
