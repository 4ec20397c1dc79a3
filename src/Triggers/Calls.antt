-- ===== src/Triggers/Calls.antt =====
-- A callback of one connection runs once, those of all at every close.
use go_pkg.Common.{
  ℕ, ◌≡◌, refl, ◌∙◌, Bytes, str_eq, Option, none, some, List, [], ◌∷◌, ◌++◌, if◌then◌else◌,
}
use go_pkg.Common.Table.{get, get-put, get-del}
use go_pkg.Domain.{Auth}
use go_pkg.Triggers.{OnCloseStuff, trigger_key, register_close, register_all, own_call, do_close}

pub data TriggerOp : Type 0 where
  registers : Auth → ℕ → TriggerOp
  registers_all : ℕ → TriggerOp
  does : Auth → TriggerOp

abbrev pub step : OnCloseStuff → TriggerOp → OnCloseStuff
step o (registers a f) = register_close o a f
step o (registers_all f) = register_all o f
step o (does a) = (do_close o a).1

pub run : OnCloseStuff → List TriggerOp → OnCloseStuff
run o [] = o
run o (x ∷ xs) = run (step o x) xs

-- The callback that was registered last for a key and not run since.
pub waiting : Bytes → Option ℕ → List TriggerOp → Option ℕ
waiting key f [] = f
waiting key f (registers a g ∷ xs) =
    waiting key (if str_eq (trigger_key a) key then some g else f) xs
waiting key f (registers_all g ∷ xs) = waiting key f xs
waiting key f (does a ∷ xs) = waiting key (if str_eq (trigger_key a) key then none else f) xs

-- Those for all, in the order of their registration.
pub for_all : List ℕ → List TriggerOp → List ℕ
for_all fs [] = fs
for_all fs (registers a g ∷ xs) = for_all fs xs
for_all fs (registers_all g ∷ xs) = for_all (fs ++ g ∷ []) xs
for_all fs (does a ∷ xs) = for_all fs xs

get-run :
    (o : OnCloseStuff) (key : Bytes) (f : Option ℕ) (xs : List TriggerOp)
    → get key o.fns_map ≡ f
    → get key (run o xs).fns_map ≡ waiting key f xs
unfolding run waiting register_close register_all do_close
get-run o key f [] h = h
get-run o key f (registers a g ∷ xs) h =
    get-run (register_close o a g) key (if str_eq (trigger_key a) key then some g else f) xs
      (get-put key (trigger_key a) g o.fns_map ∙ rw h refl)
get-run o key f (registers_all g ∷ xs) h = get-run (register_all o g) key f xs h
get-run o key f (does a ∷ xs) h =
    get-run (do_close o a).1 key (if str_eq (trigger_key a) key then none else f) xs
      (get-del key (trigger_key a) o.fns_map ∙ rw h refl)

fns_all-run : (o : OnCloseStuff) (xs : List TriggerOp) → (run o xs).fns_all ≡ for_all o.fns_all xs
unfolding run for_all register_close register_all do_close
fns_all-run o [] = refl
fns_all-run o (registers a g ∷ xs) = fns_all-run (register_close o a g) xs
fns_all-run o (registers_all g ∷ xs) = fns_all-run (register_all o g) xs
fns_all-run o (does a ∷ xs) = fns_all-run (do_close o a).1 xs

-- After any registrations and closes, a close of a connection calls the callback that was registered last for its
-- key, if no close of that key came since, and then all those for every connection in the order
-- of their registration.
pub do_close-calls :
    (o : OnCloseStuff) (a : Auth) (xs : List TriggerOp)
    → (do_close (run o xs) a).0
      ≡ own_call (waiting (trigger_key a) (get (trigger_key a) o.fns_map) xs)
        ++ for_all o.fns_all xs
unfolding do_close
do_close-calls o a xs =
    rw (get-run o (trigger_key a) (get (trigger_key a) o.fns_map) xs refl, fns_all-run o xs) refl
