-- ===== src/Triggers.antt =====
-- The callbacks of connections: core/service/websocket/ws-event-trigger. A callback is its number; what one of those for a
-- new connection answers is the argument `refuses`. `RegisterAll` and `Do` read `fnsAll` without the
-- lock; here it is written before.
pub mod Calls
use go_pkg.Common.{
  ℕ, Bool, true, false, Bytes, bytes, Option, none, some, List, [], ◌∷◌, ◌++◌, if◌then◌else◌,
}
use go_pkg.Common.Table.{Table, get, put, del, values}
use go_pkg.Domain.{Auth}

-- `onNewStuffFn.Do`: the callbacks that were called, and whether one refused.
unfoldable pub call_until_refused : (ℕ → Bool) → List ℕ → List ℕ × Bool
call_until_refused refuses [] = ([], false)
call_until_refused refuses (f ∷ fs) =
    let rest = call_until_refused refuses fs in
    if refuses f then (f ∷ [], true) else (f ∷ rest.0, rest.1)

abbrev pub OnNewStuff : Type 0
OnNewStuff = Table ℕ

unfoldable pub register_new : OnNewStuff → Bytes → ℕ → OnNewStuff
register_new o key f = put key f o

unfoldable pub deregister_new : OnNewStuff → Bytes → OnNewStuff
deregister_new o key = del key o

unfoldable pub do_new : OnNewStuff → (ℕ → Bool) → List ℕ × Bool
unfolding call_until_refused
do_new o refuses = call_until_refused refuses (values o)

pub record OnCloseStuff : Type 0 where
  pub fns_map : Table ℕ
  pub auths_map : Table Auth
  pub fns_all : List ℕ

abbrev pub nothing_registered : OnCloseStuff
nothing_registered = record { fns_map = []; auths_map = []; fns_all = [] }

-- `authKey`.
unfoldable pub trigger_key : Auth → Bytes
trigger_key a = a.user_id ++ (bytes ":" ++ a.instance_id)

unfoldable pub get_stuffs : OnCloseStuff → List Auth
get_stuffs o = values o.auths_map

unfoldable pub register_close : OnCloseStuff → Auth → ℕ → OnCloseStuff
unfolding trigger_key
register_close o a f = record o {
  fns_map = put (trigger_key a) f o.fns_map;
  auths_map = put (trigger_key a) a o.auths_map;
}

unfoldable pub register_all : OnCloseStuff → ℕ → OnCloseStuff
register_all o f = record o { fns_all = o.fns_all ++ f ∷ [] }

abbrev pub own_call : Option ℕ → List ℕ
own_call none = []
own_call (some f) = f ∷ []

-- `onCloseStuffFn.Do`, with the callbacks that are called.
unfoldable pub do_close : OnCloseStuff → Auth → List ℕ × OnCloseStuff
unfolding trigger_key
do_close o a =
    let key = trigger_key a in
    (
      own_call (get key o.fns_map) ++ o.fns_all,
      record o { fns_map = del key o.fns_map; auths_map = del key o.auths_map },
    )
