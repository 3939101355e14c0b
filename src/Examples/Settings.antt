-- ===== src/Examples/Settings.antt =====
-- A change of the configuration and the start after it.
use frpilot.Prelude.{
  ℕ, suc, ◌≡◌, refl, sym, String, false, true, none, some, [], ◌∷◌, List, inl, inr, leb, ltb, arith,
  pos, subst,
}
use frpilot.Exec.{Result, ok, Disk, calm}
use frpilot.Config.{AppConfig}
use frpilot.Config.Defaults.{default_config, apply_defaults}
use frpilot.Config.Ranges.{Compares, InRange}
use frpilot.Config.Bounds.{default_config-InRange, apply_defaults-default_config}
use frpilot.Config.Secrets.{
  World, SecretKey, dashboard_pass_key, ssh_pass_key, token_key, secret_of,
}
use frpilot.Config.Manager.{Json, update, start}
use frpilot.Config.Atomic.{AllOrNothing, update-AllOrNothing}
use frpilot.Config.Stored.{Covers, Storable}
use frpilot.Config.Reload.{update-start}
use frpilot.Web.Settings.{FrpsReq, SettingsReq, handle_save_settings}
use frpilot.Web.Sound.{IsSound, SecretFrom, sent_secret, handle_save_settings-IsSound}
use frpilot.Examples.{whole, clear}

above_zero : (n : ℕ) → leb (suc n) 0 ≡ false
above_zero n = ground arith

not_below_zero : (n : ℕ) → ltb n 0 ≡ false
not_below_zero n = ground arith

abbrev compared : Compares whole
compared = record { above = above_zero; not_below = not_below_zero }

-- The file has the configuration itself.
abbrev pub as_is : Json ℕ (AppConfig ℕ)
as_is = record {
  print = λ c. ok c;
  parse = λ b. ok b;
  empty = default_config whole "" "";
  parse-print = λ c b e. sym e;
}

abbrev pub first : AppConfig ℕ
first = default_config whole "/data" "/data/config.json"

apply_defaults-default_config_example :
    InRange whole (apply_defaults whole first first)
    × (apply_defaults whole (apply_defaults whole first first) first
        ≡ apply_defaults whole first first)
apply_defaults-default_config_example =
    apply_defaults-default_config whole first "/data" "/data/config.json" compared

abbrev running : World ℕ (AppConfig ℕ)
running = record { memory = first; hooked = true; files = []; temp = none; settings = [] }

abbrev pub all_keys : List SecretKey
all_keys = dashboard_pass_key ∷ ssh_pass_key ∷ token_key ∷ []

abbrev with_token : AppConfig ℕ → AppConfig ℕ
with_token c = record c { frps = record c.frps { token = "s3cret" } }

abbrev pub nonces : SecretKey → ℕ
nonces key = 7

update-AllOrNothing_example :
    AllOrNothing as_is
      (with_token first)
      (calm running)
      (update clear as_is nonces all_keys with_token (calm running))
update-AllOrNothing_example =
    update-AllOrNothing clear as_is nonces all_keys with_token (calm running)

all_covered : (key : SecretKey) → Covers all_keys key
all_covered dashboard_pass_key = refl
all_covered ssh_pass_key = refl
all_covered token_key = refl

all-Storable : (key : SecretKey) → Storable clear (with_token first).frps key (calm running)
unfolding default_config frpilot.Cipher.decrypt_secret frpilot.Prelude.Maps.get
all-Storable dashboard_pass_key = inr refl
all-Storable ssh_pass_key = inr refl
all-Storable token_key = inl refl

in_range : InRange whole (with_token first)
in_range =
    let r = default_config-InRange whole "/data" "/data/config.json" compared in
    record {
      listen_addr = r.listen_addr;
      registration = r.registration;
      session_ttl_days = r.session_ttl_days;
      session_grace_minutes = r.session_grace_minutes;
      login_max_fails = r.login_max_fails;
      login_lock_minute = r.login_lock_minute;
      login_ip_max_fails = r.login_ip_max_fails;
      login_window_min = r.login_window_min;
      ssh_port = r.ssh_port;
      health = r.health;
      qos = r.qos;
      timeout_sec = r.timeout_sec;
    }

succeeds : (update clear as_is nonces all_keys with_token (calm running)).0 ≡ ok tt
unfolding update frpilot.Exec.◌>>=◌ default_config frpilot.Prelude.Maps.get
    frpilot.Cipher.encrypt_secret
succeeds = refl

update-start_example :
    let r = update clear as_is nonces all_keys with_token (calm running) in
    let s =
      start whole clear as_is nonces nonces all_keys "/data" "/data/config.json" ""
        (calm r.1.rows) in
    (s.0 ≡ ok tt) × (s.1.rows.memory ≡ with_token first)
unfolding default_config
update-start_example =
    update-start whole clear as_is nonces all_keys with_token (calm running) nonces nonces all_keys
      "/data" "/data/config.json" "" refl all_covered all-Storable in_range refl refl refl succeeds

abbrev no_frps_req : FrpsReq
no_frps_req = record {
  dashboard_url = none;
  dashboard_user = none;
  dashboard_pass = none;
  ssh_host = none;
  ssh_port = none;
  ssh_user = none;
  ssh_pass = none;
  config_path = none;
  token = some "****";
}

-- Manual caps, with the mask in place of the token.
abbrev manual_req : SettingsReq ℕ
manual_req = record {
  registration = some "approval";
  frps = no_frps_req;
  health = none;
  cleanup_custom = none;
  qos = some (record first.qos {
    mode = "manual";
    manual = record { name = "lab"; out_mbps = 2; in_mbps = 0 } ∷ [];
  });
  ai = none;
}

first-IsSound : IsSound whole first
unfolding default_config
first-IsSound =
    let r = default_config-InRange whole "/data" "/data/config.json" compared in
    record { registration = refl; qos = r.qos; caps = tt; timeout_sec = r.timeout_sec }

handle_save_settings-IsSound_example :
    let m =
      (handle_save_settings whole clear as_is nonces all_keys 7 manual_req
        (calm running)).1.rows.memory in
    IsSound whole m
    × ((key : SecretKey)
        → SecretFrom
            (sent_secret no_frps_req key)
            (secret_of first.frps key)
            (secret_of m.frps key))
handle_save_settings-IsSound_example =
    handle_save_settings-IsSound whole clear as_is nonces all_keys 7 manual_req (calm running)
      compared first-IsSound
