-- ===== src/Endpoints.antt =====
-- The two endpoints that let a client in, core/service/websocket/mediator/delivery/1.issue_tmp_token.go and
-- 2.gobwas_endpoint.go, and the tokens between them, core/service/websocket/exchange-token over pkg/cache and its
-- adapter of valkey. The encoding of an `Auth` (msgpack) and the keyed hash are arguments of the section, and so are the
-- limiter of golang.org/x/time/rate and whether a call of valkey, of the socket server or of the database succeeds.
-- A key of valkey is gone once its time is over. Cookies and headers of the answers are left out.
pub mod Entry
use go_pkg.Common.{
  ℕ, ◌+◌, Bool, true, false, Bytes, bytes, is_empty, Option, none, some, List, [], ◌∷◌, ◌++◌,
  if◌then◌else◌, ltb,
}
use go_pkg.Common.Table.{Table, get, put, del}
use go_pkg.Domain.{Auth, Conn, gobwas, user_websocket_auth, anonymous_user_websocket_auth}
use go_pkg.AnonInstance.{mint_or_read_anonymous_instance_id}
use go_pkg.IpLimiter
use go_pkg.Lifecycle.{
  Env, Faults, World, Effect, NewOutcome, accepted, refused, panics, on_new, on_close,
}

-- A value of valkey with the time at which it goes.
pub record Stored : Type 0 where
  pub value : Bytes
  pub gone_at : ℕ

-- `SET key value EX ttl`.
unfoldable pub set : Table Stored → Bytes → Bytes → ℕ → ℕ → Bool → Bool × Table Stored
set store key value ttl now ok =
    if ok
    then (true, put key (record { value = value; gone_at = now + ttl }) store)
    else (false, store)

abbrev pub value_at : ℕ → Option Stored → Option Bytes
value_at now none = none
value_at now (some s) = if ltb now s.gone_at then some s.value else none

-- `GETDEL key`: an error is "not found", and whether the key went is not known then; here it stays.
unfoldable pub get_del : Table Stored → Bytes → ℕ → Bool → Option Bytes × Table Stored
get_del store key now ok =
    if ok then (value_at now (get key store), del key store) else (none, store)

-- `tokenTTL`, in seconds.
abbrev pub token_ttl : ℕ
token_ttl = 10

pub record Request : Type 0 where
  pub authorization : Bytes
  pub pipewave_id : Bytes
  pub client_ip : Bytes

-- What the application's `InspectToken` answers.
pub data Inspection : Type 0 where
  not_implemented rejects : Inspection
  inspected : Bytes → Bool → Inspection

pub data IssueReply : Type 0 where
  unauthorized too_many_requests bad_request not_exchanged issue_panics : IssueReply
  issued : Bytes → Bytes → IssueReply

pub data GwReply : Type 0 where
  missing_token invalid_token upgrade_failed register_failed gw_panics : GwReply
  connected : GwReply

-- What the application's callback for a new connection answers, and whether it is asked before the core's.
pub data AppCall : Type 0 where
  not_set : AppCall
  asked_first asked_last : Bool → AppCall

module _ (encode_auth : Auth → Bytes) (decode_auth : Bytes → Option Auth) where
  -- `Exchange`: the token is a new nano ID.
  unfoldable pub exchange : Table Stored → Bytes → Auth → ℕ → Bool → Option Bytes × Table Stored
  unfolding set
  exchange store nano_id a now ok =
      let (setable, store') = set store nano_id (encode_auth a) token_ttl now ok in
      (if setable then some nano_id else none, store')

  abbrev pub decoded : Option Bytes → Option Auth
  decoded none = none
  decoded (some b) = decode_auth b

  -- `ScanConnToken`: both its errors are `none`.
  unfoldable pub scan_conn_token : Table Stored → Bytes → ℕ → Bool → Option Auth × Table Stored
  unfolding get_del
  scan_conn_token store conn_tmp_token now ok =
      let (found, store') = get_del store conn_tmp_token now ok in (decoded found, store')

  abbrev pub issue_reply : Bytes → Option Bytes × Table Stored → IssueReply × Table Stored
  issue_reply anon_instance_id (none, store) = (not_exchanged, store)
  issue_reply anon_instance_id (some token, store) = (issued token anon_instance_id, store)

  abbrev pub exchanged :
      Table Stored → Bytes → Bytes → ℕ → Bool → Option Auth → IssueReply × Table Stored
  exchanged store nano_id anon_instance_id now ok none = (issue_panics, store)
  exchanged store nano_id anon_instance_id now ok (some a) =
      issue_reply anon_instance_id (exchange store nano_id a now ok)

  -- From step 2 on, behind the limiter.
  unfoldable pub inspect_and_exchange :
      (Bytes → Bytes)
      → Table Stored
      → Request
      → Inspection
      → Bytes
      → Bytes
      → ℕ
      → Bool
      → IssueReply × Table Stored
  unfolding exchange
  inspect_and_exchange mac store r inspection token_id anon_id now ok = elim inspection [
    | not_implemented ↦ (issue_panics, store)
    | rejects ↦ (unauthorized, store)
    | inspected username is_anonymous ↦
        if is_anonymous
        then (let id = mint_or_read_anonymous_instance_id mac now anon_id r.pipewave_id in
            exchanged store token_id id now ok (anonymous_user_websocket_auth id))
        else if is_empty r.pipewave_id
        then (bad_request, store)
        else exchanged store token_id [] now ok (user_websocket_auth username r.pipewave_id)
  ]

  -- `IssueTmpToken`, with the limiter per address.
  unfoldable pub issue_tmp_token :
      {L : Type 0}
      → L
      → (L → ℕ → Bool × L)
      → (Bytes → Bytes)
      → Table (IpLimiter.Entry L)
      → Table Stored
      → Request
      → Inspection
      → Bytes
      → Bytes
      → ℕ
      → Bool
      → IssueReply × Table (IpLimiter.Entry L) × Table Stored
  unfolding inspect_and_exchange
  issue_tmp_token fresh limiter_allow mac limiters store r inspection token_id anon_id now ok =
      if is_empty r.authorization
      then (unauthorized, limiters, store)
      else (let (allowed, limiters') =
            IpLimiter.allow fresh limiter_allow limiters r.client_ip now in
          if allowed
          then (let (reply, store') =
                inspect_and_exchange mac store r inspection token_id anon_id now ok in
              (reply, limiters', store'))
          else (too_many_requests, limiters', store))

  -- `onNewStuff.Do`: the application's `OnNewConnection`, where it is set, and the core's callback; the
  -- order is that of a Go map, any. The first that refuses ends it.
  unfoldable pub do_new_stuff : AppCall → World → NewOutcome → NewOutcome
  do_new_stuff not_set w core = core
  do_new_stuff (asked_first admits) w core = if admits then core else refused w []
  do_new_stuff (asked_last admits) w (accepted w' effects) =
      if admits then accepted w' effects else refused w' effects
  do_new_stuff (asked_last admits) w (refused w' effects) = refused w' effects
  do_new_stuff (asked_last admits) w (panics w') = panics w'

  -- Step 4: a connection that is refused is closed, which runs the callback of closing.
  abbrev pub register_outcome : Auth → ℕ → Faults → NewOutcome → GwReply × World × List Effect
  register_outcome a now f (accepted w effects) = (connected, w, effects)
  register_outcome a now f (panics w) = (gw_panics, w, [])
  register_outcome a now f (refused w effects) =
      let (w', closing) = on_close w a now f in (register_failed, w', effects ++ closing)

  -- From step 2 on; `handle` is the new connection of the socket server, unless that refuses it.
  unfoldable pub connect :
      Env
      → World
      → Auth
      → ℕ
      → Bool
      → Option ℕ
      → AppCall
      → Faults
      → List Bytes
      → GwReply × World × List Effect
  unfolding do_new_stuff
  connect e w a now upgrade_ok handle app f pending =
      if upgrade_ok
      then elim handle [
        | none ↦ (register_failed, w, [])
        | some h ↦
            let conn : Conn = record { auth = a; core_type = gobwas; handle = h } in
            register_outcome a now f (do_new_stuff app w (on_new e w conn now f pending))
      ]
      else (upgrade_failed, w, [])

  abbrev pub connect_scanned :
      Env
      → World
      → ℕ
      → Bool
      → Option ℕ
      → AppCall
      → Faults
      → List Bytes
      → Option Auth
      → GwReply × World × List Effect
  connect_scanned e w now upgrade_ok handle app f pending none = (invalid_token, w, [])
  connect_scanned e w now upgrade_ok handle app f pending (some a) =
      connect e w a now upgrade_ok handle app f pending

  -- `GobwasEndpoint`.
  unfoldable pub gobwas_endpoint :
      Env
      → World
      → Table Stored
      → Bytes
      → ℕ
      → Bool
      → Bool
      → Option ℕ
      → AppCall
      → Faults
      → List Bytes
      → (GwReply × World × List Effect) × Table Stored
  unfolding scan_conn_token connect
  gobwas_endpoint e w store tk now scan_ok upgrade_ok handle app f pending =
      if is_empty tk
      then ((missing_token, w, []), store)
      else (let (scanned, store') = scan_conn_token store tk now scan_ok in
          (connect_scanned e w now upgrade_ok handle app f pending scanned, store'))
