-- ===== src/Examples/Entering.antt =====
-- Clients that enter, and configurations that are loaded.
use go_pkg.Common.{
  ◌⊎◌, ◌↔◌, ◌≢◌, ℕ, ◌+◌, ◌≤◌, ◌<◌, ◌≡◌, refl, Bool, true, false, Bytes, bytes, is_empty, Option,
  none, some, List, [], ◌∷◌, ◌++◌, arith, str_eq, length, take, drop, take-append, drop-append,
}
use go_pkg.Common.Integers.{pos, is_negative, lez}
use go_pkg.Domain.{Auth, Conn, gobwas}
use go_pkg.IpLimiter
use go_pkg.Lifecycle.{Env, Faults, World, no_faults}
use go_pkg.Lifecycle.Sessions.Phases.{fresh_world}
use go_pkg.Endpoints.{
  Request, inspected, issued, invalid_token, issue_panics, issue_tmp_token, gobwas_endpoint,
  AppCall, asked_last,
}
use go_pkg.Endpoints.Entry.{Enters, token_opens_once}
use go_pkg.Webhook.Breaker
use go_pkg.Webhook.SyncCall.{Attempt, call_error, response, call, new_sync_caller}
use go_pkg.Webhook.SyncCall.Retry.{GotTwoHundred}
use go_pkg.ServerFns.{
  sanitize_call_error, TokenResp, to_inspection, inspect_token, on_new_connection,
}
use go_pkg.ServerFns.Answers.{told_what_was_meant, admission_needs_2xx, issue_never_panics}
use go_pkg.ServerConfig
use go_pkg.ServerConfig.{ServerConfig}
use go_pkg.ServerConfig.Loaded.{loaded-IsUsable}
use go_pkg.EnvConfig.{WorkerPoolConfig, default_worker_pool}
use go_pkg.EnvConfig.Validation.{check_worker_pool}
use go_pkg.EnvConfig.Thresholds.{pool_valid_iff}
use go_pkg.Examples.Endpoints.{env}

-- An encoding with the length of the user ID in front.
abbrev encode_auth : Auth → Bytes
encode_auth a = length a.user_id ∷ (a.user_id ++ a.instance_id)

abbrev decode_auth : Bytes → Option Auth
decode_auth [] = none
decode_auth (n ∷ s) = some (record { user_id = take n s; instance_id = drop n s })

decode-encode_auth : (a : Auth) → decode_auth (encode_auth a) ≡ some a
decode-encode_auth a = rw (take-append, drop-append) refl

abbrev mac : Bytes → Bytes
mac payload = 65 ∷ payload

abbrev always : ℕ → ℕ → Bool × ℕ
always used now = (true, used)

abbrev request : Request
request = record {
  authorization = bytes "jwt";
  pipewave_id = bytes "phone";
  client_ip = bytes "10.0.0.1";
}

abbrev her_phone : Conn
her_phone = record {
  auth = record { user_id = bytes "ann"; instance_id = bytes "phone" };
  core_type = gobwas;
  handle = 5;
}

token_opens_once_example :
    let reply =
      issue_tmp_token encode_auth decode_auth 0 always mac [] [] request
        (inspected (bytes "ann") false)
        (bytes "t1")
        (bytes "x")
        100
        true in
    let entered =
      gobwas_endpoint encode_auth decode_auth env
        (fresh_world (bytes "c1"))
        reply.2
        (bytes "t1")
        105
        true
        true
        (some 5)
        (asked_last true)
        no_faults
        [] in
    (reply.0 ≡ issued (bytes "t1") [])
    × Enters true (fresh_world (bytes "c1")) her_phone 105 entered.0
    × ((e' : Env) (w' : World) (again : ℕ) (ok up : Bool) (h : Option ℕ) (app' : AppCall)
          (g : Faults) (ps : List Bytes)
        → (gobwas_endpoint encode_auth decode_auth e' w' entered.1
            (bytes "t1")
            again
            ok
            up
            h
            app'
            g
            ps).0
          ≡ (invalid_token, w', []))
unfolding IpLimiter.allow
token_opens_once_example =
    token_opens_once encode_auth decode_auth decode-encode_auth 0 always mac [] [] request
      (bytes "ann") (bytes "t1") (bytes "x") 100 105 env (fresh_world (bytes "c1")) 5
      (asked_last true) no_faults [] refl refl refl refl refl (omega arith) refl

abbrev said : Bytes → Bytes
said body = body

told_what_was_meant_example :
    (bytes "banned" ≡ bytes "upstream error")
    ⊎ ((bytes "banned" ≡ bytes "handle_message" ++ bytes " rejected")
        ⊎ ((status : ℕ) × (body : Bytes) × (some (call_error 403 (bytes "banned"))
              ≡ some (call_error status body))
            × (400 ≤ status)
            × (status < 500)
            × (bytes "banned" ≡ said body)
            × (is_empty (bytes "banned") ≡ false)))
unfolding sanitize_call_error
told_what_was_meant_example =
    told_what_was_meant said (bytes "handle_message") (bytes "upstream error")
      (some (call_error 403 (bytes "banned"))) (bytes "banned") refl

abbrev welcomes : ℕ → Attempt
welcomes round = record {
  ctx_done = false;
  meanwhile = [];
  now = 10;
  post = response 200 [];
  during = [];
  later = 11;
  decodes = true;
}

admission_needs_2xx_example :
    let sync = new_sync_caller (Breaker.new 5 60) 1 in
    let r = on_new_connection said sync welcomes in
    (r.0 ≡ none
      → (r.1 ≡ bytes "on_new_connection_established" ∷ [])
        × ((k : ℕ) × ((call sync welcomes false).posts ≡ k + 1) × GotTwoHundred (welcomes k)))
    × ((msg : Bytes) → r.0 ≡ some msg → r.1 ≡ [])
admission_needs_2xx_example = admission_needs_2xx said (Breaker.new 5 60) 1 welcomes

abbrev nobody : TokenResp
nobody = record { user_id = []; is_anonymous = false }

issue_never_panics_example :
    (issue_tmp_token encode_auth decode_auth 0 always mac [] [] request
      (to_inspection
        (inspect_token said none (new_sync_caller (Breaker.new 5 60) 1) welcomes nobody).0)
      (bytes "t1")
      (bytes "x")
      100
      true).0
    ≢ issue_panics
issue_never_panics_example =
    issue_never_panics encode_auth decode_auth said (new_sync_caller (Breaker.new 5 60) 1) welcomes
      nobody 0 always mac [] [] request (bytes "t1") (bytes "x") 100 true

-- One byte of buffer and a lower threshold that is too high.
abbrev tiny : WorkerPoolConfig
tiny = record { workers = pos 0; buffer = pos 1; upper_threshold = pos 0; lower_threshold = pos 7 }

pool_valid_iff_example : (check_worker_pool (default_worker_pool tiny) ≡ none) ↔ (
    (is_negative tiny.workers ≡ false)
    × (is_negative tiny.buffer ≡ false)
    × (is_negative tiny.upper_threshold ≡ false)
    × (is_negative tiny.lower_threshold ≡ false))
pool_valid_iff_example = pool_valid_iff tiny

abbrev raw : ServerConfig
raw = record {
  client_addr = [];
  admin_addr = [];
  api_keys = bytes "k" ∷ [];
  repository = [];
  auth = record {
    mode = bytes "webhook";
    jwt = record {
      jwks_url = [];
      public_key_pem_file = [];
      user_id_claim = [];
      metadata_claims = [];
    };
  };
  callbacks = record {
    base_url = bytes "http://app";
    signature = record { mode = []; signing_key_file = [] };
    handle_message = record { mode = []; timeout = pos 0 };
    sync_timeout = pos 0;
    async_retry_max = pos 0;
    async_backoff = [];
    sync_retry = record { max = pos 0; backoff = pos 0 };
    breaker = record { threshold = pos 0; cooldown = pos 0 };
    ping = record {
      enabled = true;
      path = [];
      interval = pos 0;
      timeout = pos 0;
      boot_check = false;
      fail_threshold = pos 0;
    };
    unhealthy_action = [];
    breaker_open_shutdown = pos 0;
    transport = bytes "pubsub";
    pubsub = record { driver = []; url = bytes "nats://n"; stream = []; subject_prefix = [] };
  };
}

loaded-IsUsable_example :
    ServerConfig.Loaded.IsUsable (ServerConfig.load_default raw)
    × (ServerConfig.load (ServerConfig.load_default raw)
        ≡ ServerConfig.loaded (ServerConfig.load_default raw))
unfolding ServerConfig.load str_eq lez
loaded-IsUsable_example = loaded-IsUsable raw (ServerConfig.load_default raw) refl
