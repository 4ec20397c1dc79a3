-- ===== src/LongPolling/Moves.antt =====
-- What each operation of a poll takes from the queue.
use go_pkg.Common.{
  ℕ, zero, suc, ◌-◌, ◌≤◌, Bool, true, false, ◌≡◌, refl, ap, sym, ◌∙◌, Bytes, Option, none, some,
  List, [], ◌∷◌, ◌++◌, if◌then◌else◌, length, take, drop, ◌==◌, Bool-cases, Option-cases,
  List-cases, inl, inr, arith,
}
use mathlib.Core.List.{append-nil}
use go_pkg.LongPolling.{
  LongPollingConn, set_channel_ttl, close, stop_idle_timer, reset_idle_timer, tagged, remove,
  expire, tick, fetch_many, block_fetch_one, lp_queue_size, lp_channel_ttl, reply_of, PollReply,
  messages, no_content, gone, PollStage, found_conn, paused, waiting, got_first, drained, rearmed,
  refreshed, replied, first_drained, after_wait, poll,
}

take-drop : (n : ℕ) (xs : List Bytes) → take n xs ++ drop n xs ≡ xs
take-drop zero xs = refl
take-drop (suc n) [] = refl
take-drop (suc n) (x ∷ xs) = ap (◌∷◌ x) (take-drop n xs)

length-take : (n : ℕ) (xs : List Bytes) → length (take n xs) ≤ n
length-take zero xs = omega arith
length-take (suc n) [] = omega arith
length-take (suc n) (x ∷ xs) = omega (arith, length-take n xs)

-- The messages of the ghost list, and those that one poll took.
unfoldable pub messages_of : List (Bytes × Option ℕ) → List Bytes
messages_of [] = []
messages_of ((m, by) ∷ ts) = m ∷ messages_of ts

unfoldable pub is_by : ℕ → Option ℕ → Bool
is_by i none = false
is_by i (some j) = j == i

unfoldable pub taken_by : ℕ → List (Bytes × Option ℕ) → List Bytes
taken_by i [] = []
taken_by i ((m, by) ∷ ts) = let rest = taken_by i ts in if is_by i by then m ∷ rest else rest

abbrev pub given : PollReply → List Bytes
given (messages ms) = ms
given no_content = []
given gone = []

-- What a poll has taken, at the end what it answers with.
abbrev pub held : PollStage → List Bytes
held found_conn = []
held paused = []
held waiting = []
held (got_first m) = m ∷ []
held (drained ms) = ms
held (rearmed ms) = ms
held (refreshed ms) = ms
held (replied r) = given r

pub messages_of-append :
    (ts : List (Bytes × Option ℕ)) (by : Option ℕ) (ms : List Bytes)
    → messages_of (ts ++ tagged by ms) ≡ messages_of ts ++ ms
unfolding messages_of tagged
messages_of-append [] by [] = refl
messages_of-append [] by (m ∷ ms) = ap (◌∷◌ m) (messages_of-append [] by ms)
messages_of-append ((m, b) ∷ ts) by ms = ap (◌∷◌ m) (messages_of-append ts by ms)

pub own_added :
    (i : ℕ) (by : Option ℕ) (ts : List (Bytes × Option ℕ)) (ms : List Bytes)
    → is_by i by ≡ true
    → taken_by i (ts ++ tagged by ms) ≡ taken_by i ts ++ ms
unfolding taken_by tagged
own_added i by [] [] h = refl
own_added i by [] (m ∷ ms) h = rw h (ap (◌∷◌ m) (own_added i by [] ms h))
own_added i by ((m, b) ∷ ts) ms h = elim (Bool-cases (is_by i b)) [
  | inl own ↦ rw own (ap (◌∷◌ m) (own_added i by ts ms h))
  | inr other ↦ rw other (own_added i by ts ms h)
]

pub others_kept :
    (i : ℕ) (by : Option ℕ) (ts : List (Bytes × Option ℕ)) (ms : List Bytes)
    → is_by i by ≡ false
    → taken_by i (ts ++ tagged by ms) ≡ taken_by i ts
unfolding taken_by tagged
others_kept i by [] [] h = refl
others_kept i by [] (m ∷ ms) h = rw h (others_kept i by [] ms h)
others_kept i by ((m, b) ∷ ts) ms h = elim (Bool-cases (is_by i b)) [
  | inl own ↦ rw own (ap (◌∷◌ m) (others_kept i by ts ms h))
  | inr other ↦ rw other (others_kept i by ts ms h)
]

-- What an operation takes from the front of the queue, for a poll or as its key goes.
abbrev pub Moves : Option ℕ → List Bytes → LongPollingConn → LongPollingConn → Type 0
Moves by ms c c' = (c'.taken ≡ c.taken ++ tagged by ms) × (c.queue ≡ ms ++ c'.queue)

unmoved :
    (by : Option ℕ) (c c' : LongPollingConn)
    → c'.taken ≡ c.taken
    → c'.queue ≡ c.queue
    → Moves by [] c c'
unfolding tagged
unmoved by c c' h k = (h ∙ sym (append-nil c.taken), sym k)

remove-Moves :
    (c : LongPollingConn) (n : ℕ) (by : Option ℕ) → Moves by (take n c.queue) c (remove c n by)
unfolding remove
remove-Moves c n by = (refl, sym (take-drop n c.queue))

pub expire-Moves : (c : LongPollingConn) → (ms : List Bytes) × Moves none ms c (expire c)
unfolding expire
expire-Moves c = elim (Option-cases c.ttl) [
  | inl endless ↦ ([], rw (endless, expire) (unmoved none c c refl refl))
  | inr (n, e) ↦ rw (e, expire) (after n)
]
  where
    after :
        (n : ℕ)
        → (ms : List Bytes) × Moves none ms c (elim n [
          | zero ↦ remove c (length c.queue) none
          | suc zero ↦ remove c (length c.queue) none
          | suc (suc n) ↦ record c { ttl = some (suc n) }
        ])
    after zero = (take (length c.queue) c.queue, remove-Moves c (length c.queue) none)
    after (suc zero) = (take (length c.queue) c.queue, remove-Moves c (length c.queue) none)
    after (suc (suc n)) = ([], unmoved none c (record c { ttl = some (suc n) }) refl refl)

held-first_drained : (ms : List Bytes) → held (first_drained ms) ≡ ms
held-first_drained [] = refl
held-first_drained (m ∷ ms) = refl

given-reply_of : (closed : Bool) (ms : List Bytes) → given (reply_of closed ms) ≡ ms
unfolding reply_of
given-reply_of true [] = refl
given-reply_of false [] = refl
given-reply_of closed (m ∷ ms) = refl

fetch_many-Moves :
    (c : LongPollingConn) (i n : ℕ) (ok : Bool)
    → let r = fetch_many c i n ok in Moves (some i) r.0 c r.1 × (length r.0 ≤ n)
unfolding fetch_many
fetch_many-Moves c i n true = (remove-Moves c n (some i), length-take n c.queue)
fetch_many-Moves c i n false = (unmoved (some i) c c refl refl, omega arith)

abbrev taken_first : Option Bytes → List Bytes
taken_first none = []
taken_first (some m) = m ∷ []

block_fetch_one-Moves :
    (c : LongPollingConn) (i : ℕ) (ok : Bool)
    → let r = block_fetch_one c i ok in Moves (some i) (taken_first r.0) c r.1
unfolding block_fetch_one tagged
block_fetch_one-Moves c i ok = elim (List-cases c.queue) [
  | inl empty ↦ rw (empty, block_fetch_one) (sym (append-nil c.taken), sym empty)
  | inr (m, rest, e) ↦ elim (Bool-cases ok) [
    | inl fine ↦
        rw (e, fine, block_fetch_one)
          (ap (λ q. c.taken ++ tagged (some i) (take 1 q)) e, ap (λ q. m ∷ drop 1 q) (sym e))
    | inr failed ↦ rw (e, failed, block_fetch_one) (sym (append-nil c.taken), sym e)
  ]
]

held-after_wait : (first : Option Bytes) → held (after_wait first) ≡ taken_first first
held-after_wait none = refl
held-after_wait (some m) = refl

queue-ttl :
    (by : Option ℕ) (c : LongPollingConn) (n : ℕ) (ok : Bool)
    → Moves by [] c (set_channel_ttl c n ok)
unfolding set_channel_ttl
queue-ttl by c n ok = unmoved by c (set_channel_ttl c n ok) (ground arith) (ground arith)

pub queue-close : (by : Option ℕ) (c : LongPollingConn) (ok : Bool) → Moves by [] c (close c ok)
unfolding close set_channel_ttl
queue-close by c ok = unmoved by c (close c ok) (ground arith) (ground arith)

pub queue-tick : (by : Option ℕ) (c : LongPollingConn) (ok : Bool) → Moves by [] c (tick c ok)
unfolding tick close set_channel_ttl
queue-tick by c ok = unmoved by c (tick c ok) (ground arith) (ground arith)

queue-reset : (by : Option ℕ) (c : LongPollingConn) → Moves by [] c (reset_idle_timer c)
unfolding reset_idle_timer
queue-reset by c = unmoved by c (reset_idle_timer c) (ground arith) (ground arith)

-- What one operation of a poll takes is added to what the poll holds, which stays bounded.
unfoldable pub Takes : ℕ → LongPollingConn → PollStage → LongPollingConn → PollStage → Type 0
Takes i c st c' st' =
    (ms : List Bytes) × Moves (some i) ms c c'
    × (held st' ≡ held st ++ ms)
    × (length (held st) ≤ lp_queue_size → length (held st') ≤ lp_queue_size)

pub poll-Takes :
    (c : LongPollingConn) (i : ℕ) (st : PollStage) (ok : Bool)
    → let r = poll c i st ok in Takes i c st r.0 r.1
unfolding Takes poll stop_idle_timer
poll-Takes c i found_conn ok = ([], unmoved (some i) c (stop_idle_timer c) refl refl, refl, λ h. h)
poll-Takes c i paused ok =
    let r = fetch_many c i lp_queue_size ok in
    let (moves, few) = fetch_many-Moves c i lp_queue_size ok in
    (
      r.0,
      moves,
      held-first_drained r.0,
      λ h. omega (arith, few, ap (length {A = Bytes}) (held-first_drained r.0)),
    )
poll-Takes c i waiting ok =
    let r = block_fetch_one c i ok in
    (
      taken_first r.0,
      block_fetch_one-Moves c i ok,
      held-after_wait r.0,
      λ h. omega (arith, one r.0, ap (length {A = Bytes}) (held-after_wait r.0)),
    )
  where
    one : (first : Option Bytes) → length (taken_first first) ≤ 1
    one none = omega arith
    one (some m) = omega arith
poll-Takes c i (got_first m) ok =
    let (moves, few) = fetch_many-Moves c i (lp_queue_size - 1) ok in
    ((fetch_many c i (lp_queue_size - 1) ok).0, moves, refl, λ h. omega (arith, few))
poll-Takes c i (drained ms) ok = ([], queue-reset (some i) c, sym (append-nil ms), λ h. h)
poll-Takes c i (rearmed ms) ok =
    ([], queue-ttl (some i) c lp_channel_ttl ok, sym (append-nil ms), λ h. h)
poll-Takes c i (refreshed ms) ok = (
  [],
  unmoved (some i) c c refl refl,
  given-reply_of c.closed ms ∙ sym (append-nil ms),
  λ h. omega (arith, h, ap (length {A = Bytes}) (given-reply_of c.closed ms)),
)
poll-Takes c i (replied r) ok =
    ([], unmoved (some i) c c refl refl, sym (append-nil (given r)), λ h. h)
