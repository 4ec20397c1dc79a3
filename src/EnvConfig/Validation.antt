-- ===== src/EnvConfig/Validation.antt =====
-- `Validate` of export/types/config.go with the `validate` methods of config_child.go, in their order of checks.
use go_pkg.Common.{
  Bool, true, false, ◌&&◌, ◌||◌, not, ◌++◌, Bytes, bytes, is_empty, str_eq, Option, none, some,
  List, [], ◌∷◌, if◌then◌else◌, ltb, leb, length, ◌==◌,
}
use go_pkg.Common.Integers.{ℤ, pos, is_positive, is_negative, lez, ltz}
use go_pkg.EnvConfig.{
  Info, Cors, ActiveConnection, PingChecker, WorkerPoolConfig, RateLimits, Otel, Metrics, Blocks,
}

pub data EnvError : Type 0 where
  no_env no_container_id no_origins bad_pattern no_secret : EnvError
  bad_cutoff bad_max_connections bad_pending_ttl bad_ping_idle bad_pong_timeout : EnvError
  bad_workers bad_buffer bad_upper bad_lower bad_order : EnvError
  bad_rate bad_burst : Bytes → EnvError
  bad_exporter no_file_path no_endpoint bad_port bad_path bad_entry_length bad_entry : EnvError

abbrev pub unless : Bool → EnvError → Option EnvError
unless ok e = if ok then none else some e

-- The first panic ends the checks.
abbrev pub then_check : Option EnvError → Option EnvError → Option EnvError
then_check none next = next
then_check (some e) next = some e

unfoldable pub check_info : Info → Option EnvError
check_info i =
    then_check (unless (not (is_empty i.env)) no_env)
      (unless (not (is_empty i.container_id)) no_container_id)

abbrev pub is_nil : List Bytes → Bool
is_nil [] = true
is_nil (x ∷ xs) = false

abbrev pub is_in : Bytes → List Bytes → Bool
is_in s [] = false
is_in s (x ∷ xs) = str_eq x s || is_in s xs

abbrev pub anchored : Bytes → Bytes
anchored pattern = bytes "^(?:" ++ (pattern ++ bytes ")$")

module _ (compiles : Bytes → Bool) where
  abbrev pub all_compile : List Bytes → Bool
  all_compile [] = true
  all_compile (p ∷ ps) = compiles (anchored p) && all_compile ps

  unfoldable pub check_cors : Cors → Option EnvError
  check_cors c =
      if c.enabled
      then then_check (unless (not (is_nil c.exactly_origins && is_nil c.regex_origins)) no_origins)
          (unless (all_compile c.regex_origins) bad_pattern)
      else none

module _ (match_string : Bytes → Bytes → Bool) where
  abbrev pub any_match : List Bytes → Bytes → Bool
  any_match [] origin = false
  any_match (p ∷ ps) origin = match_string (anchored p) origin || any_match ps origin

  -- `IsAllowedOrigin`: only `validate` of an enabled configuration compiles the patterns.
  unfoldable pub is_allowed_origin : Cors → Bytes → Bool
  is_allowed_origin c origin =
      is_in origin c.exactly_origins || (c.enabled && any_match c.regex_origins origin)

unfoldable pub check_active_connection : ActiveConnection → Option EnvError
check_active_connection a = then_check (unless (is_positive a.heartbeat_cutoff) bad_cutoff) (
    then_check (unless (not (is_negative a.max_connections)) bad_max_connections)
      (unless (not (ltz a.pending_msg_ttl a.heartbeat_cutoff)) bad_pending_ttl))

unfoldable pub check_ping_checker : PingChecker → Option EnvError
check_ping_checker p =
    then_check (unless (is_positive p.ping_idle_after) bad_ping_idle)
      (unless (is_positive p.pong_timeout) bad_pong_timeout)

unfoldable pub check_worker_pool : WorkerPoolConfig → Option EnvError
check_worker_pool w = then_check (unless (not (is_negative w.workers)) bad_workers) (
    then_check (unless (is_positive w.buffer) bad_buffer) (
      then_check (unless (is_positive w.upper_threshold) bad_upper) (
        then_check (unless (not (is_negative w.lower_threshold)) bad_lower)
          (unless (not (lez w.upper_threshold w.lower_threshold)) bad_order))))

abbrev pub check_rate : Bytes → ℤ → ℤ → Option EnvError
check_rate name rate burst =
    then_check (unless (is_positive rate) (bad_rate name))
      (unless (not (ltz burst rate)) (bad_burst name))

unfoldable pub check_rate_limiter : RateLimits → Option EnvError
check_rate_limiter r = then_check (check_rate (bytes "user") r.user_rate r.user_burst) (
    then_check (check_rate (bytes "anonymous") r.anonymous_rate r.anonymous_burst) (
      then_check (check_rate (bytes "control frame") r.control_frame_rate r.control_frame_burst)
        (check_rate (bytes "issue-token IP") r.issue_token_ip_rate r.issue_token_ip_burst)))

abbrev pub exporter_types : List Bytes
exporter_types =
    bytes "discard" ∷ bytes "stdout" ∷ bytes "file" ∷ bytes "otlp-grpc" ∷ bytes "otlp-http" ∷ []

unfoldable pub check_otel : Otel → Option EnvError
check_otel o =
    if o.enabled
    then then_check (unless (is_in o.exporter_type exporter_types) bad_exporter) (
        then_check
          (unless (not (str_eq o.exporter_type (bytes "file") && is_empty o.file_path))
            no_file_path)
          (unless
            (not (
              (str_eq o.exporter_type (bytes "otlp-grpc")
                || str_eq o.exporter_type (bytes "otlp-http"))
              && is_empty o.collector_endpoint))
            no_endpoint))
    else none

abbrev pub starts_with_slash : Bytes → Bool
starts_with_slash [] = false
starts_with_slash (c ∷ s) = c == 47

unfoldable pub is_printable : Bytes → Bool
is_printable [] = true
is_printable (c ∷ s) = leb 32 c && leb c 126 && is_printable s

unfoldable pub check_allowlist : List Bytes → Option EnvError
unfolding is_printable
check_allowlist [] = none
check_allowlist (e ∷ es) =
    then_check (unless (not (is_empty e || ltb 32 (length e))) bad_entry_length)
      (then_check (unless (is_printable e) bad_entry) (check_allowlist es))

unfoldable pub check_metrics : Metrics → Option EnvError
unfolding check_allowlist
check_metrics m =
    if m.enabled
    then then_check (unless (is_positive m.port && lez m.port (pos 65535)) bad_port) (
        then_check (unless (starts_with_slash m.path) bad_path)
          (check_allowlist m.msg_type_allowlist))
    else none

-- `Validate`; `none` is that it returns.
unfoldable pub validate : (Bytes → Bool) → Blocks → Option EnvError
unfolding check_info check_cors check_active_connection check_ping_checker check_rate_limiter
    check_otel check_metrics check_worker_pool
validate compiles b = then_check (check_info b.info) (
    then_check (check_cors compiles b.cors) (
      then_check (check_active_connection b.active_connection) (
        then_check (check_ping_checker b.ping_checker) (
          then_check (check_rate_limiter b.rate_limiter) (
            then_check (unless (not (is_empty b.secret)) no_secret) (
              then_check (check_otel b.otel)
                (then_check (check_metrics b.metrics) (check_worker_pool b.worker_pool))))))))
