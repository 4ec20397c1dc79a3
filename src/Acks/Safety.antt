-- ===== src/Acks/Safety.antt =====
-- No channel is closed twice.
use go_pkg.Common.{
  ℕ, suc, ◌<◌, ◌≡◌, refl, sym, ◌∙◌, subst, true, false, none, some, List, [], ◌∷◌, ◌++◌, Bytes, All,
  Option-cases, inl, inr, arith,
}
use go_pkg.Common.Table.{Table, get, del, values}
use go_pkg.Common.Unique.{Unique, Unique-put, Unique-del}
use go_pkg.Acks.{
  AckManager, new, member, close, create_ack, ack_prefix, resolve_ack, wait_for_ack,
  resolve_remote_ack, register_remote_ack, close_all, shutdown, AckEvent, creates, resolves,
  resolves_remote, times_out, registers_remote, shuts_down, step, run,
}
use go_pkg.Acks.Channels.{
  AreOpen, above-not_member, Below-suc, Below-put, Below-del, AreOpen-put, AreOpen-del, member-get,
  not_member-del-get, open_get, AreOpen-close,
}

pub record IsSound (m : AckManager) : Type 0 where
  pub unique : Unique m.pending
  pub open_channels : AreOpen m.closed (values m.pending)
  pub pending_made : All (λ c. c < m.made) (values m.pending)
  pub closed_made : All (λ c. c < m.made) m.closed

pub create_ack-IsSound :
    (m : AckManager) (nano_id : Bytes) → IsSound m → IsSound (create_ack m nano_id).2
unfolding create_ack
create_ack-IsSound m nano_id h =
    let k = ack_prefix ++ nano_id in
    record {
      unique = Unique-put k m.made m.pending h.unique;
      open_channels =
          AreOpen-put k m.made m.closed m.pending (above-not_member m.made m.closed h.closed_made)
            (above-not_member m.made (values m.pending) h.pending_made) h.open_channels;
      pending_made =
          Below-put k (suc m.made) m.made m.pending (omega arith)
            (Below-suc m.made (values m.pending) h.pending_made);
      closed_made = Below-suc m.made m.closed h.closed_made;
    }

pub below_get :
    (k : Bytes) (n c : ℕ) (t : Table ℕ) → All (λ x. x < n) (values t) → get k t ≡ some c → c < n
unfolding get
below_get k n c [] b h = cc
below_get k n c ((j, w) ∷ t) b h = ground (arith, below_get k n c t b.1)

-- A removed key leaves a sound manager, whether its channel is closed or left to the timeout.
del-IsSound :
    (m : AckManager) (k : Bytes) → IsSound m → IsSound (record m { pending = del k m.pending })
del-IsSound m k h = record {
  unique = Unique-del k m.pending h.unique;
  open_channels = AreOpen-del k m.closed m.pending h.open_channels;
  pending_made = Below-del k m.made m.pending h.pending_made;
  closed_made = h.closed_made;
}

-- The manager after a resolved ack.
abbrev pub resolved : AckManager → Bytes → ℕ → AckManager
resolved m k ch = record m { pending = del k m.pending; closed = ch ∷ m.closed }

pub resolve_ack_found :
    (m : AckManager) (k : Bytes) (ch : ℕ)
    → IsSound m
    → get k m.pending ≡ some ch
    → resolve_ack m k ≡ some (true, resolved m k ch)
unfolding resolve_ack close
resolve_ack_found m k ch h e = ground (arith, open_get k ch m.closed m.pending h.open_channels)

pub resolved-IsSound :
    (m : AckManager) (k : Bytes) (ch : ℕ)
    → IsSound m
    → get k m.pending ≡ some ch
    → IsSound (resolved m k ch)
resolved-IsSound m k ch h e = record {
  unique = Unique-del k m.pending h.unique;
  open_channels =
      AreOpen-close ch m.closed (values (del k m.pending))
        (AreOpen-del k m.closed m.pending h.open_channels)
        (not_member-del-get k ch m.closed m.pending h.open_channels e);
  pending_made = Below-del k m.made m.pending h.pending_made;
  closed_made = (below_get k m.made ch m.pending h.pending_made e, h.closed_made);
}

abbrev Closes : List ℕ → AckManager → AckManager → Type 0
Closes cs m m' =
    (m'.pending ≡ m.pending)
    × (m'.remote_acks ≡ m.remote_acks)
    × All (λ c. c < m.made) m'.closed
    × (m'.made ≡ m.made)
    × ((c : ℕ) → member c (cs ++ m.closed) ≡ true → member c m'.closed ≡ true)

pub close_open :
    (c : ℕ) (m : AckManager)
    → member c m.closed ≡ false
    → close c m ≡ some (record m { closed = c ∷ m.closed })
unfolding close
close_open c m h = ground arith

member_move : (c x : ℕ) (cs zs : List ℕ) → member c (cs ++ x ∷ zs) ≡ member c (x ∷ (cs ++ zs))
unfolding member
member_move c x [] zs = refl
member_move c x (d ∷ cs) zs = ground (arith, member_move c x cs zs)

close_all-Closes :
    (cs : List ℕ) (m : AckManager)
    → AreOpen m.closed cs
    → All (λ c. c < m.made) cs
    → All (λ c. c < m.made) m.closed
    → (m' : AckManager) × (close_all cs m ≡ some m') × Closes cs m m'
unfolding close_all
close_all-Closes [] m o b d = (m, refl, (refl, refl, d, refl, λ c h. h))
close_all-Closes (x ∷ cs) m o b d =
    let m1 : AckManager = record m { closed = x ∷ m.closed } in
    let (m', e, (p, r, below, made, all)) =
      close_all-Closes cs m1 (AreOpen-close x m.closed cs o.2 o.1) b.1 (b.0, d) in
    (
      m',
      rw (close_open x m o.0, close_all) e,
      (p, r, below, made, λ c h. all c (member_move c x cs m.closed ∙ h)),
    )

member_append : (c : ℕ) (cs zs : List ℕ) → member c cs ≡ true → member c (cs ++ zs) ≡ true
unfolding member
member_append c [] zs h = cc
member_append c (d ∷ cs) zs h = ground (arith, member_append c cs zs)

pub unknown_unchanged :
    (m : AckManager) (k : Bytes) → get k m.pending ≡ none → resolve_ack m k ≡ some (false, m)
unfolding resolve_ack
unknown_unchanged m k e = ground arith

pub remote_unchanged : (m : AckManager) (k : Bytes) → IsSound m → IsSound (resolve_remote_ack m k).1
unfolding resolve_remote_ack
remote_unchanged m k h = elim (Option-cases (get k m.remote_acks)) [
  | inl e ↦ rw (e, resolve_remote_ack) h
  | inr (source, e) ↦
      rw (e, resolve_remote_ack)
        (record {
          unique = h.unique;
          open_channels = h.open_channels;
          pending_made = h.pending_made;
          closed_made = h.closed_made;
        })
]

-- Every channel of a pending ack is closed, and nothing is pending any more.
abbrev pub IsShutDown : AckManager → AckManager → Type 0
IsShutDown m m' =
    (m'.pending ≡ [])
    × (m'.remote_acks ≡ [])
    × ((k : Bytes) (ch : ℕ) → get k m.pending ≡ some ch → member ch m'.closed ≡ true)

-- From a sound manager `Shutdown` does not panic: it closes the channel of every pending ack,
-- which wakes its waiter, and leaves no pending and no remote ack.
pub shutdown_wakes_all :
    (m : AckManager)
    → IsSound m
    → (m' : AckManager) × (shutdown m ≡ some m') × IsSound m' × IsShutDown m m'
unfolding shutdown
shutdown_wakes_all m h =
    let (m', e, (p, r, below, made, all)) =
      close_all-Closes (values m.pending) (record m { pending = []; remote_acks = [] })
        h.open_channels h.pending_made h.closed_made in
    (
      m',
      e,
      record {
        unique = subst Unique (sym p) tt;
        open_channels = subst (λ t. AreOpen m'.closed (values t)) (sym p) tt;
        pending_made = subst (λ t. All (λ c. c < m'.made) (values t)) (sym p) tt;
        closed_made = subst (λ n. All (λ c. c < n) m'.closed) (sym made) below;
      },
      (
        p,
        r,
        λ k ch g.
            all ch (member_append ch (values m.pending) m.closed (member-get k ch m.pending g)),
      ),
    )

pub step-IsSound :
    (m : AckManager) (e : AckEvent)
    → IsSound m
    → (m' : AckManager) × (step m e ≡ some m') × IsSound m'
unfolding step wait_for_ack register_remote_ack
step-IsSound m (creates nano_id) h = (_, refl, create_ack-IsSound m nano_id h)
step-IsSound m (resolves k) h = elim (Option-cases (get k m.pending)) [
  | inl e ↦ (m, rw (unknown_unchanged m k e, step), h)
  | inr (ch, e) ↦
      (resolved m k ch, rw (resolve_ack_found m k ch h e, step), resolved-IsSound m k ch h e)
]
step-IsSound m (resolves_remote k) h = (_, refl, remote_unchanged m k h)
step-IsSound m (times_out k ch) h = (_, refl, del-IsSound m k h)
step-IsSound m (registers_remote k source) h = (
  _,
  refl,
  record {
    unique = h.unique;
    open_channels = h.open_channels;
    pending_made = h.pending_made;
    closed_made = h.closed_made;
  },
)
step-IsSound m shuts_down h = let (m', e, s, d) = shutdown_wakes_all m h in (m', e, s)

run-IsSound :
    (m : AckManager) (es : List AckEvent)
    → IsSound m
    → (m' : AckManager) × (run m es ≡ some m') × IsSound m'
unfolding run
run-IsSound m [] h = (m, refl, h)
run-IsSound m (e ∷ es) h =
    let (m1, e1, h1) = step-IsSound m e h in
    let (m2, e2, h2) = run-IsSound m1 es h1 in (m2, rw (e1, run) e2, h2)

-- From a new manager, no order of creating, resolving, timing out, registering and shutting down
-- closes a channel twice, whatever the IDs are, and the manager is left sound.
pub run_never_panics : (es : List AckEvent) → (m : AckManager) × (run new es ≡ some m) × IsSound m
run_never_panics es =
    run-IsSound new es
      (record { unique = tt; open_channels = tt; pending_made = tt; closed_made = tt })
