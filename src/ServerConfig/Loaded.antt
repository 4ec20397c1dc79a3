-- ===== src/ServerConfig/Loaded.antt =====
-- What a configuration that was loaded can be relied on for.
use go_pkg.Common.{
  ℕ, Bool, true, false, ◌&&◌, not, ◌≡◌, refl, ap, ◌∙◌, subst, Bytes, bytes, is_empty, str_eq,
  Option, none, some, [], ◌∷◌, ltb, Bool-cases, inl, inr, arith, Option-cases,
}
use go_pkg.Common.Integers.{ℤ, is_positive}
use go_pkg.ServerConfig.{
  Ping, CallbackPubsub, Callbacks, ServerConfig, or_text, or_positive, default_ping, default_pubsub,
  default_callbacks, load_default, ConfigError, no_keys, check_auth, check_transport, one_of, check,
  and_then, validate, loaded, loading, load,
}

or_text_again : (d s : Bytes) → is_empty d ≡ false → or_text d (or_text d s) ≡ or_text d s
unfolding or_text
or_text_again d s full = ground (arith, full)

or_positive_again :
    (d : ℕ) (x : ℤ) → ltb 0 d ≡ true → or_positive d (or_positive d x) ≡ or_positive d x
unfolding or_positive
or_positive_again d x full = ground (arith, full)

positive_or : (d : ℕ) (x : ℤ) → ltb 0 d ≡ true → is_positive (or_positive d x) ≡ true
unfolding or_positive
positive_or d x full = ground (arith, full)

full_or : (d s : Bytes) → is_empty d ≡ false → is_empty (or_text d s) ≡ false
unfolding or_text
full_or d s full = ground (arith, full)

default_ping_again : (p : Ping) → default_ping (default_ping p) ≡ default_ping p
unfolding default_ping
default_ping_again p = elim (Bool-cases p.enabled) [
  | inl on ↦ rw on (
      rw
        (
          or_text_again (bytes "/pipewave/ping") p.path refl,
          or_positive_again 30000 p.interval refl,
          or_positive_again 3000 p.timeout refl,
          or_positive_again 3 p.fail_threshold refl,
        )
        refl)
  | inr off ↦ rw off refl
]

default_pubsub_again :
    (t : Bytes) (p : CallbackPubsub) → default_pubsub t (default_pubsub t p) ≡ default_pubsub t p
unfolding default_pubsub
default_pubsub_again t p = elim (Bool-cases (str_eq t (bytes "pubsub"))) [
  | inl on ↦ rw on (
      rw
        (
          or_text_again (bytes "natsjs") p.driver refl,
          or_text_again (bytes "PIPEWAVE_EVENTS") p.stream refl,
          or_text_again (bytes "pipewave.events") p.subject_prefix refl,
        )
        refl)
  | inr off ↦ rw off refl
]

default_callbacks_again :
    (c : Callbacks) → default_callbacks (default_callbacks c) ≡ default_callbacks c
unfolding default_callbacks
default_callbacks_again c =
    rw
      (
        or_text_again (bytes "enabled") c.signature.mode refl,
        or_text_again (bytes "webhook_ed25519.key") c.signature.signing_key_file refl,
        or_text_again (bytes "sync") c.handle_message.mode refl,
        or_positive_again 5000 c.handle_message.timeout refl,
        or_positive_again 3000 c.sync_timeout refl,
        or_positive_again 6 c.async_retry_max refl,
        or_positive_again 1 c.sync_retry.max refl,
        or_positive_again 100 c.sync_retry.backoff refl,
        or_positive_again 5 c.breaker.threshold refl,
        or_positive_again 10000 c.breaker.cooldown refl,
        or_text_again (bytes "log-only") c.unhealthy_action refl,
        or_text_again (bytes "webhook") c.transport refl,
        default_ping_again c.ping,
        default_pubsub_again (or_text (bytes "webhook") c.transport) c.pubsub,
      )
      refl

load_default_again : (c : ServerConfig) → load_default (load_default c) ≡ load_default c
unfolding load_default
load_default_again c =
    rw
      (
        or_text_again (bytes ":8080") c.client_addr refl,
        or_text_again (bytes ":8081") c.admin_addr refl,
        or_text_again (bytes "postgres") c.repository refl,
        or_text_again (bytes "sub") c.auth.jwt.user_id_claim refl,
        default_callbacks_again c.callbacks,
      )
      refl

both_none : (x y : Option ConfigError) → and_then x y ≡ none → (x ≡ none) × (y ≡ none)
both_none none y h = (refl, h)
both_none (some e) y h = cc

passed : (ok : Bool) (e : ConfigError) → check ok e ≡ none → ok ≡ true
passed true e h = refl
passed false e h = cc

-- What the components take for granted.
pub record IsUsable (c : ServerConfig) : Type 0 where
  pub addresses : (is_empty c.client_addr ≡ false) × (is_empty c.admin_addr ≡ false)
  pub has_keys : no_keys c.api_keys ≡ false
  pub has_base_url : is_empty c.callbacks.base_url ≡ false
  pub jwt_has_key :
      str_eq c.auth.mode (bytes "webhook") ≡ false
      → (str_eq c.auth.mode (bytes "jwt") ≡ true)
        × ((is_empty c.auth.jwt.jwks_url && is_empty c.auth.jwt.public_key_pem_file) ≡ false)
  pub timeouts :
      (is_positive c.callbacks.handle_message.timeout ≡ true)
      × (is_positive c.callbacks.sync_timeout ≡ true)
  pub retries :
      (is_positive c.callbacks.async_retry_max ≡ true)
      × (is_positive c.callbacks.sync_retry.max ≡ true)
      × (is_positive c.callbacks.sync_retry.backoff ≡ true)
  pub breaker_works :
      (is_positive c.callbacks.breaker.threshold ≡ true)
      × (is_positive c.callbacks.breaker.cooldown ≡ true)
  pub ping_works :
      c.callbacks.ping.enabled ≡ true
      → (is_positive c.callbacks.ping.interval ≡ true)
        × (is_positive c.callbacks.ping.timeout ≡ true)
        × (is_positive c.callbacks.ping.fail_threshold ≡ true)
        × (c.callbacks.ping.boot_check ≡ true)
  pub pubsub_works :
      str_eq c.callbacks.transport (bytes "webhook") ≡ false
      → (is_empty c.callbacks.pubsub.url ≡ false)
        × (str_eq c.callbacks.pubsub.driver (bytes "natsjs") ≡ true)
  pub modes :
      (one_of c.callbacks.handle_message.mode
          (bytes "sync" ∷ bytes "forward" ∷ bytes "disabled" ∷ [])
        ≡ true)
      × (one_of c.callbacks.signature.mode (bytes "enabled" ∷ bytes "disabled" ∷ []) ≡ true)
      × (one_of c.repository (bytes "postgres" ∷ bytes "dynamodb" ∷ []) ≡ true)
      × (one_of c.callbacks.unhealthy_action (bytes "shutdown" ∷ bytes "log-only" ∷ []) ≡ true)

ping_works_by_default :
    (p : Ping)
    → (default_ping p).enabled ≡ true
    → (is_positive (default_ping p).interval ≡ true)
      × (is_positive (default_ping p).timeout ≡ true)
      × (is_positive (default_ping p).fail_threshold ≡ true)
      × ((default_ping p).boot_check ≡ true)
unfolding default_ping
ping_works_by_default p on = elim (Bool-cases p.enabled) [
  | inl pings ↦ rw pings (
    positive_or 30000 p.interval refl,
    positive_or 3000 p.timeout refl,
    positive_or 3 p.fail_threshold refl,
    refl,
  )
  | inr quiet ↦ absurd (ground (arith, quiet, on))
]

IsUsable-if_valid :
    (raw : ServerConfig) → validate (load_default raw) ≡ none → IsUsable (load_default raw)
unfolding validate check_auth check_transport load_default default_callbacks
IsUsable-if_valid raw valid =
    let c = load_default raw in
    let b = c.callbacks in
    let (keys, valid1) =
      both_none (check (not (no_keys c.api_keys)) ConfigError.no_api_keys) _ valid in
    let (authn, valid2) = both_none (check_auth c.auth) _ valid1 in
    let (url, valid3) =
      both_none (check (not (is_empty b.base_url)) ConfigError.no_base_url) _ valid2 in
    let (transport, valid4) = both_none (check_transport b.transport b.pubsub) _ valid3 in
    let (handling, valid5) =
      both_none
        (check
          (one_of b.handle_message.mode (bytes "sync" ∷ bytes "forward" ∷ bytes "disabled" ∷ []))
          ConfigError.bad_handle_mode)
        _ valid4 in
    let (signing, valid6) =
      both_none
        (check (one_of b.signature.mode (bytes "enabled" ∷ bytes "disabled" ∷ []))
          ConfigError.bad_signature_mode)
        _ valid5 in
    let (repository, valid7) =
      both_none
        (check (one_of c.repository (bytes "postgres" ∷ bytes "dynamodb" ∷ []))
          ConfigError.bad_repository)
        _ valid6 in
    let (acting, retrying) =
      both_none
        (check (one_of b.unhealthy_action (bytes "shutdown" ∷ bytes "log-only" ∷ []))
          ConfigError.bad_unhealthy_action)
        _ valid7 in
    record {
      addresses = (
        full_or (bytes ":8080") raw.client_addr refl,
        full_or (bytes ":8081") raw.admin_addr refl,
      );
      has_keys = ground (arith, passed (not (no_keys c.api_keys)) ConfigError.no_api_keys keys);
      has_base_url = ground (arith, passed (not (is_empty b.base_url)) ConfigError.no_base_url url);
      jwt_has_key = λ named. ground (arith, authn, named);
      timeouts = (
        positive_or 5000 raw.callbacks.handle_message.timeout refl,
        positive_or 3000 raw.callbacks.sync_timeout refl,
      );
      retries = (
        positive_or 6 raw.callbacks.async_retry_max refl,
        positive_or 1 raw.callbacks.sync_retry.max refl,
        positive_or 100 raw.callbacks.sync_retry.backoff refl,
      );
      breaker_works = (
        positive_or 5 raw.callbacks.breaker.threshold refl,
        positive_or 10000 raw.callbacks.breaker.cooldown refl,
      );
      ping_works = λ on. ping_works_by_default raw.callbacks.ping on;
      pubsub_works = λ other. ground (arith, transport, other);
      modes = (
        passed
            (one_of b.handle_message.mode (bytes "sync" ∷ bytes "forward" ∷ bytes "disabled" ∷ []))
            ConfigError.bad_handle_mode handling,
        passed (one_of b.signature.mode (bytes "enabled" ∷ bytes "disabled" ∷ []))
            ConfigError.bad_signature_mode signing,
        passed (one_of c.repository (bytes "postgres" ∷ bytes "dynamodb" ∷ []))
            ConfigError.bad_repository repository,
        passed (one_of b.unhealthy_action (bytes "shutdown" ∷ bytes "log-only" ∷ []))
            ConfigError.bad_unhealthy_action acting,
      );
    }

-- A configuration that `Load` returns has an API key, a base URL and the keys of its authentication, known
-- modes, positive timeouts, retry counts, breaker and, where they are enabled, pings, and what its
-- transport needs. Loaded once more it is the same: no default is taken for a value that
-- another default would replace.
pub loaded-IsUsable :
    (raw c : ServerConfig) → load raw ≡ loaded c → IsUsable c × (load c ≡ loaded c)
unfolding load
loaded-IsUsable raw c h = elim (Option-cases (validate (load_default raw))) [
  | inl valid ↦
      let same : load_default raw ≡ c = ground (arith, valid, h) in
      (
        subst IsUsable same (IsUsable-if_valid raw valid),
        subst (λ x. loading (load_default x) (validate (load_default x)) ≡ loaded x) same
            (ap (λ x. loading x (validate x)) (load_default_again raw)
              ∙ ap (loading (load_default raw)) valid),
      )
  | inr (e, failed) ↦ absurd (ground (arith, failed, h))
]
