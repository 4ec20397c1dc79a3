-- ===== src/ServerConfig.antt =====
-- The configuration of the server: server/config/config.go, from what the YAML files and the environment
-- give on. Durations are integers in milliseconds.
pub mod Loaded
use go_pkg.Common.{
  ℕ, Bool, true, false, ◌&&◌, ◌||◌, not, Bytes, bytes, is_empty, str_eq, Option, none, some, List,
  [], ◌∷◌, if◌then◌else◌,
}
use go_pkg.Common.Integers.{ℤ, pos, negsuc, is_positive, ltz}

pub record Jwt : Type 0 where
  pub jwks_url : Bytes
  pub public_key_pem_file : Bytes
  pub user_id_claim : Bytes
  pub metadata_claims : List Bytes

pub record Authn : Type 0 where
  pub mode : Bytes
  pub jwt : Jwt

pub record SyncRetry : Type 0 where
  pub max : ℤ
  pub backoff : ℤ

pub record Breaker : Type 0 where
  pub threshold : ℤ
  pub cooldown : ℤ

pub record Ping : Type 0 where
  pub enabled : Bool
  pub path : Bytes
  pub interval : ℤ
  pub timeout : ℤ
  pub boot_check : Bool
  pub fail_threshold : ℤ

pub record Signature : Type 0 where
  pub mode : Bytes
  pub signing_key_file : Bytes

pub record HandleMsg : Type 0 where
  pub mode : Bytes
  pub timeout : ℤ

pub record CallbackPubsub : Type 0 where
  pub driver : Bytes
  pub url : Bytes
  pub stream : Bytes
  pub subject_prefix : Bytes

pub record Callbacks : Type 0 where
  pub base_url : Bytes
  pub signature : Signature
  pub handle_message : HandleMsg
  pub sync_timeout : ℤ
  pub async_retry_max : ℤ
  pub async_backoff : List ℤ
  pub sync_retry : SyncRetry
  pub breaker : Breaker
  pub ping : Ping
  pub unhealthy_action : Bytes
  pub breaker_open_shutdown : ℤ
  pub transport : Bytes
  pub pubsub : CallbackPubsub

pub record ServerConfig : Type 0 where
  pub client_addr : Bytes
  pub admin_addr : Bytes
  pub api_keys : List Bytes
  pub repository : Bytes
  pub auth : Authn
  pub callbacks : Callbacks

-- `if s == "" { s = d }` and `if x <= 0 { x = d }`.
unfoldable pub or_text : Bytes → Bytes → Bytes
or_text d s = if is_empty s then d else s

unfoldable pub or_positive : ℕ → ℤ → ℤ
or_positive d x = if is_positive x then x else pos d

unfoldable pub default_ping : Ping → Ping
unfolding or_text or_positive
default_ping p =
    if p.enabled
    then record p {
      path = or_text (bytes "/pipewave/ping") p.path;
      interval = or_positive 30000 p.interval;
      timeout = or_positive 3000 p.timeout;
      fail_threshold = or_positive 3 p.fail_threshold;
      boot_check = true;
    }
    else p

unfoldable pub default_pubsub : Bytes → CallbackPubsub → CallbackPubsub
unfolding or_text
default_pubsub transport p =
    if str_eq transport (bytes "pubsub")
    then record p {
      driver = or_text (bytes "natsjs") p.driver;
      stream = or_text (bytes "PIPEWAVE_EVENTS") p.stream;
      subject_prefix = or_text (bytes "pipewave.events") p.subject_prefix;
    }
    else p

unfoldable pub default_callbacks : Callbacks → Callbacks
unfolding or_text or_positive default_ping default_pubsub
default_callbacks c = record {
  base_url = c.base_url;
  signature = record {
    mode = or_text (bytes "enabled") c.signature.mode;
    signing_key_file = or_text (bytes "webhook_ed25519.key") c.signature.signing_key_file;
  };
  handle_message = record {
    mode = or_text (bytes "sync") c.handle_message.mode;
    timeout = or_positive 5000 c.handle_message.timeout;
  };
  sync_timeout = or_positive 3000 c.sync_timeout;
  async_retry_max = or_positive 6 c.async_retry_max;
  async_backoff = c.async_backoff;
  sync_retry = record {
    max = or_positive 1 c.sync_retry.max;
    backoff = or_positive 100 c.sync_retry.backoff;
  };
  breaker = record {
    threshold = or_positive 5 c.breaker.threshold;
    cooldown = or_positive 10000 c.breaker.cooldown;
  };
  ping = default_ping c.ping;
  unhealthy_action = or_text (bytes "log-only") c.unhealthy_action;
  breaker_open_shutdown = c.breaker_open_shutdown;
  transport = or_text (bytes "webhook") c.transport;
  pubsub = default_pubsub (or_text (bytes "webhook") c.transport) c.pubsub;
}

-- `loadDefault`.
unfoldable pub load_default : ServerConfig → ServerConfig
unfolding or_text default_callbacks
load_default c = record {
  client_addr = or_text (bytes ":8080") c.client_addr;
  admin_addr = or_text (bytes ":8081") c.admin_addr;
  api_keys = c.api_keys;
  repository = or_text (bytes "postgres") c.repository;
  auth = record {
    mode = c.auth.mode;
    jwt = record c.auth.jwt { user_id_claim = or_text (bytes "sub") c.auth.jwt.user_id_claim };
  };
  callbacks = default_callbacks c.callbacks;
}

pub data ConfigError : Type 0 where
  no_api_keys bad_auth_mode no_jwt_key no_base_url : ConfigError
  no_pubsub_url bad_pubsub_driver bad_transport : ConfigError
  bad_handle_mode bad_signature_mode bad_repository bad_unhealthy_action bad_retry_max : ConfigError

abbrev pub no_keys : List Bytes → Bool
no_keys [] = true
no_keys (key ∷ keys) = false

-- The `switch` over the modes, and what each asks for.
unfoldable pub check_auth : Authn → Option ConfigError
check_auth a =
    if str_eq a.mode (bytes "webhook")
    then none
    else if str_eq a.mode (bytes "jwt")
    then if is_empty a.jwt.jwks_url && is_empty a.jwt.public_key_pem_file
      then some no_jwt_key
      else none
    else some bad_auth_mode

unfoldable pub check_transport : Bytes → CallbackPubsub → Option ConfigError
check_transport transport p =
    if str_eq transport (bytes "webhook")
    then none
    else if str_eq transport (bytes "pubsub")
    then if is_empty p.url
      then some no_pubsub_url
      else if str_eq p.driver (bytes "natsjs")
      then none
      else some bad_pubsub_driver
    else some bad_transport

abbrev pub one_of : Bytes → List Bytes → Bool
one_of s [] = false
one_of s (x ∷ xs) = str_eq s x || one_of s xs

abbrev pub check : Bool → ConfigError → Option ConfigError
check ok e = if ok then none else some e

-- The first error of several checks.
abbrev pub and_then : Option ConfigError → Option ConfigError → Option ConfigError
and_then none next = next
and_then (some e) next = some e

-- `validate`; `none` is the nil error.
unfoldable pub validate : ServerConfig → Option ConfigError
unfolding check_auth check_transport
validate c =
    let b = c.callbacks in
    and_then (check (not (no_keys c.api_keys)) no_api_keys) (
      and_then (check_auth c.auth) (
        and_then (check (not (is_empty b.base_url)) no_base_url) (
          and_then (check_transport b.transport b.pubsub) (
            and_then
              (check
                (one_of b.handle_message.mode
                  (bytes "sync" ∷ bytes "forward" ∷ bytes "disabled" ∷ []))
                bad_handle_mode)
              (and_then
                (check (one_of b.signature.mode (bytes "enabled" ∷ bytes "disabled" ∷ []))
                  bad_signature_mode)
                (and_then
                  (check (one_of c.repository (bytes "postgres" ∷ bytes "dynamodb" ∷ []))
                    bad_repository)
                  (and_then
                    (check (one_of b.unhealthy_action (bytes "shutdown" ∷ bytes "log-only" ∷ []))
                      bad_unhealthy_action)
                    (check (not (ltz b.sync_retry.max (pos 1))) bad_retry_max))))))))

pub data Loading : Type 0 where
  loaded : ServerConfig → Loading
  rejected : ConfigError → Loading

abbrev pub loading : ServerConfig → Option ConfigError → Loading
loading c none = loaded c
loading c (some e) = rejected e

-- `Load`, once the files are read.
unfoldable pub load : ServerConfig → Loading
unfolding load_default validate
load raw = let cfg = load_default raw in loading cfg (validate cfg)
