-- ===== src/EnvConfig.antt =====
-- The environment of the core: export/types/config.go and config_child.go. Every panic of `Validate` is a
-- constructor of `EnvError`. Durations are integers in seconds; integers are of 64 bits. A new container ID is an
-- argument, and so are compiling and matching of the regular expressions, which `regexp` does. The
-- blocks that are only read (headers, valkey, databases) are left out.
pub mod Validation
pub mod Thresholds
use go_pkg.Common.{
  ℕ, zero, suc, ◌+◌, ◌-◌, ◌*◌, ◌/◌, ◌%◌, Bool, true, false, ◌&&◌, ◌||◌, not, Bytes, bytes, is_empty,
  str_eq, Option, none, some, List, [], ◌∷◌, if◌then◌else◌, ltb, leb, length, ◌==◌,
}
use go_pkg.Common.Integers.{ℤ, pos, negsuc, is_positive, is_zero, is_negative, lez, ltz}

pub record Info : Type 0 where
  pub env : Bytes
  pub pod_name : Bytes
  pub container_id : Bytes

pub record Cors : Type 0 where
  pub enabled : Bool
  pub exactly_origins : List Bytes
  pub regex_origins : List Bytes

pub record ActiveConnection : Type 0 where
  pub heartbeat_cutoff : ℤ
  pub pending_msg_ttl : ℤ
  pub max_connections : ℤ

pub record PingChecker : Type 0 where
  pub ping_idle_after : ℤ
  pub pong_timeout : ℤ

pub record WorkerPoolConfig : Type 0 where
  pub workers : ℤ
  pub buffer : ℤ
  pub upper_threshold : ℤ
  pub lower_threshold : ℤ

pub record RateLimits : Type 0 where
  pub user_rate : ℤ
  pub user_burst : ℤ
  pub anonymous_rate : ℤ
  pub anonymous_burst : ℤ
  pub control_frame_rate : ℤ
  pub control_frame_burst : ℤ
  pub issue_token_ip_rate : ℤ
  pub issue_token_ip_burst : ℤ

pub record Otel : Type 0 where
  pub enabled : Bool
  pub exporter_type : Bytes
  pub file_path : Bytes
  pub collector_endpoint : Bytes

pub record Metrics : Type 0 where
  pub enabled : Bool
  pub port : ℤ
  pub path : Bytes
  pub msg_type_allowlist : List Bytes

-- `EnvType`: a block that is missing is nil.
pub record EnvType : Type 0 where
  pub info : Option Info
  pub active_connection : Option ActiveConnection
  pub ping_checker : Option PingChecker
  pub rate_limiter : Option RateLimits
  pub secret : Option Bytes
  pub worker_pool : Option WorkerPoolConfig
  pub cors : Option Cors
  pub otel : Option Otel
  pub metrics : Option Metrics

-- Where no block is missing, as `ensureNonNil` leaves it.
pub record Blocks : Type 0 where
  pub info : Info
  pub active_connection : ActiveConnection
  pub ping_checker : PingChecker
  pub rate_limiter : RateLimits
  pub secret : Bytes
  pub worker_pool : WorkerPoolConfig
  pub cors : Cors
  pub otel : Otel
  pub metrics : Metrics

abbrev pub or_zero : {A : Type 0} → A → Option A → A
or_zero z none = z
or_zero z (some x) = x

unfoldable pub ensure_non_nil : EnvType → Blocks
ensure_non_nil e = record {
  info = or_zero (record { env = []; pod_name = []; container_id = [] }) e.info;
  active_connection =
      or_zero
        (record { heartbeat_cutoff = pos 0; pending_msg_ttl = pos 0; max_connections = pos 0 })
        e.active_connection;
  ping_checker = or_zero (record { ping_idle_after = pos 0; pong_timeout = pos 0 }) e.ping_checker;
  rate_limiter =
      or_zero
        (record {
          user_rate = pos 0;
          user_burst = pos 0;
          anonymous_rate = pos 0;
          anonymous_burst = pos 0;
          control_frame_rate = pos 0;
          control_frame_burst = pos 0;
          issue_token_ip_rate = pos 0;
          issue_token_ip_burst = pos 0;
        })
        e.rate_limiter;
  secret = or_zero [] e.secret;
  worker_pool =
      or_zero
        (record {
          workers = pos 0;
          buffer = pos 0;
          upper_threshold = pos 0;
          lower_threshold = pos 0;
        })
        e.worker_pool;
  cors = or_zero (record { enabled = false; exactly_origins = []; regex_origins = [] }) e.cors;
  otel =
      or_zero
        (record { enabled = false; exporter_type = []; file_path = []; collector_endpoint = [] })
        e.otel;
  metrics =
      or_zero (record { enabled = false; port = pos 0; path = []; msg_type_allowlist = [] })
        e.metrics;
}

-- `if x == 0 { x = d }` and `if s == "" { s = d }`.
unfoldable pub or_int : ℤ → ℤ → ℤ
or_int d x = if is_zero x then d else x

unfoldable pub or_set : Bytes → Bytes → Bytes
or_set d s = if is_empty s then d else s

abbrev pub two_63 : ℕ
two_63 = 9223372036854775808

abbrev pub two_64 : ℕ
two_64 = 18446744073709551616

-- The int64 of an amount and its sign, modulo 2 ^ 64.
abbrev pub negated : ℕ → ℤ
negated zero = pos 0
negated (suc n) = negsuc n

unfoldable pub wrapped_pos : ℕ → ℤ
wrapped_pos n = let m = n % two_64 in if ltb m two_63 then pos m else negated (two_64 - m)

unfoldable pub wrapped_neg : ℕ → ℤ
wrapped_neg n = let m = n % two_64 in if leb m two_63 then negated m else pos (two_64 - m)

abbrev pub times : ℕ → ℤ → ℤ
times k (pos n) = wrapped_pos (n * k)
times k (negsuc n) = wrapped_neg ((n + 1) * k)

-- Division by 4, towards zero.
abbrev pub quarter : ℤ → ℤ
quarter (pos n) = pos (n / 4)
quarter (negsuc n) = negated ((n + 1) / 4)

abbrev pub at_least_one : ℤ → ℤ
at_least_one x = if is_positive x then x else pos 1

-- `x - 1`; the least int64 has none below it, and wraps.
abbrev pub less_one : ℤ → ℤ
less_one (pos zero) = negsuc 0
less_one (pos (suc n)) = pos n
less_one (negsuc n) = if leb two_63 (n + 1) then pos (two_63 - 1) else negsuc (n + 1)

unfoldable pub default_info : Bytes → Info → Info
unfolding or_set
default_info generated i = record i { container_id = or_set generated i.container_id }

unfoldable pub default_active_connection : ActiveConnection → ActiveConnection
unfolding or_int wrapped_pos wrapped_neg
default_active_connection a =
    let cutoff = or_int (pos 60) a.heartbeat_cutoff in
    record a {
      heartbeat_cutoff = cutoff;
      pending_msg_ttl = or_int (times 2 cutoff) a.pending_msg_ttl;
    }

unfoldable pub default_ping_checker : PingChecker → PingChecker
unfolding or_int
default_ping_checker p = record {
  ping_idle_after = or_int (pos 20) p.ping_idle_after;
  pong_timeout = or_int (pos 3) p.pong_timeout;
}

-- The last step of the pool's `loadDefault`.
unfoldable pub restore_order : WorkerPoolConfig → WorkerPoolConfig
restore_order w =
    if lez w.upper_threshold w.lower_threshold
    then record w { lower_threshold = less_one w.upper_threshold }
    else w

unfoldable pub default_worker_pool : WorkerPoolConfig → WorkerPoolConfig
unfolding or_int restore_order wrapped_pos wrapped_neg
default_worker_pool w =
    let buffer = or_int (pos 4096) w.buffer in
    restore_order (record w {
      buffer = buffer;
      upper_threshold = or_int (at_least_one (quarter (times 3 buffer))) w.upper_threshold;
      lower_threshold = or_int (quarter buffer) w.lower_threshold;
    })

unfoldable pub default_rate_limiter : RateLimits → RateLimits
unfolding or_int
default_rate_limiter r = record {
  user_rate = or_int (pos 30) r.user_rate;
  user_burst = or_int (pos 60) r.user_burst;
  anonymous_rate = or_int (pos 5) r.anonymous_rate;
  anonymous_burst = or_int (pos 10) r.anonymous_burst;
  control_frame_rate = or_int (pos 5) r.control_frame_rate;
  control_frame_burst = or_int (pos 10) r.control_frame_burst;
  issue_token_ip_rate = or_int (pos 5) r.issue_token_ip_rate;
  issue_token_ip_burst = or_int (pos 20) r.issue_token_ip_burst;
}

unfoldable pub default_otel : Otel → Otel
unfolding or_set
default_otel o = record o { exporter_type = or_set (bytes "discard") o.exporter_type }

unfoldable pub default_metrics : Metrics → Metrics
unfolding or_int or_set
default_metrics m = record m {
  port = or_int (pos 9090) m.port;
  path = or_set (bytes "/metrics") m.path;
}

-- `LoadDefault`.
unfoldable pub load_default : Bytes → EnvType → Blocks
unfolding ensure_non_nil default_info default_active_connection default_ping_checker
    default_rate_limiter default_worker_pool default_otel default_metrics
load_default generated e =
    let b = ensure_non_nil e in
    record b {
      info = default_info generated b.info;
      active_connection = default_active_connection b.active_connection;
      ping_checker = default_ping_checker b.ping_checker;
      rate_limiter = default_rate_limiter b.rate_limiter;
      worker_pool = default_worker_pool b.worker_pool;
      otel = default_otel b.otel;
      metrics = default_metrics b.metrics;
    }
