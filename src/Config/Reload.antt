-- ===== src/Config/Reload.antt =====
-- A start after a change of the configuration.
use frpilot.Prelude.{
  ℕ, ◌≡◌, refl, sym, subst, ap, ◌∙◌, String, true, false, List, pos, inl, inr, arith, some,
}
use frpilot.Prelude.Maps.{Map, get, put, get-put}
use text.Mathlib.TextPositions.{eq_refl}
use frpilot.Floats.{Floats}
use frpilot.Cipher.{Cipher}
use frpilot.Exec.{calm_at, ok, Disk, calm, Result-cases, ◌>>=◌}
use frpilot.Config.{AppConfig}
use frpilot.Config.Defaults.{default_config}
use frpilot.Config.Ranges.{InRange, apply_defaults-id}
use frpilot.Config.Secrets.{World, SecretKey, save_secrets}
use frpilot.Config.Manager.{
  Json, public, persist, run_hook, update, sync_encrypted_secrets, load_or_create_at, start,
}
use frpilot.Config.Atomic.{persist-Saves, update-AllOrNothing}
use frpilot.Config.Stored.{Recovers, Storable, Covers, saved_all}
use frpilot.Config.Restart.{file_path, defaults_at, bare, restored, sync-calm, load-calm}

get-put_self : {V : Type 0} (key : String) (v : V) (m : Map V) → get key (put key v m) ≡ some v
get-put_self key v m = rw (get-put key key v m, eq_refl key) refl

module _ {F B : Type 0} (k : Cipher) (json : Json F B) where
  -- A change that succeeds has stored the secrets.
  update-Recovers :
      (nonce : SecretKey → ℕ) (order : List SecretKey) (change : AppConfig F → AppConfig F)
      (d : Disk (World F B)) (key : SecretKey)
      → d.rows.hooked ≡ true
      → Covers order key
      → Storable k (change d.rows.memory).frps key d
      → (update k json nonce order change d).0 ≡ ok tt
      → Recovers k
          (change d.rows.memory).frps
          key
          (update k json nonce order change d).1.rows.settings
  unfolding update run_hook ◌>>=◌
  update-Recovers nonce order change d key hooked covered storable done =
      let c = change d.rows.memory in
      let hook = save_secrets k nonce order c.frps d in
      let saving = run_hook k nonce order c d.rows.hooked d in
      let ran : saving ≡ hook = ap (λ h. run_hook k nonce order c h d) hooked in
      elim (Result-cases saving.0) [
        | inr (x, e) ↦ absurd (ground arith)
        | inl (u, e) ↦
            let ((memory, settings, kept), out) = persist-Saves json c saving.1 in
            let same : (update k json nonce order change d).1.rows.settings
                ≡ saving.1.rows.settings =
              elim (Result-cases (persist json c saving.1).0) [
                | inl (v, g) ↦ ground arith
                | inr (x, g) ↦ ground arith
              ] in
            let stored =
              saved_all k c.frps nonce order key d covered storable (sym (ap (λ r. r.0) ran) ∙ e) in
            subst (Recovers k c.frps key) (sym (same ∙ ap (λ r. r.1.rows.settings) ran)) stored
      ]

module _ {B : Type 0} (fl : Floats) (k : Cipher) (json : Json fl.F B) where
  open fl use {F}

  bare-InRange : (c : AppConfig F) (dir path : String) → InRange fl c → InRange fl (bare c dir path)
  unfolding public
  bare-InRange c dir path r = record {
    listen_addr = r.listen_addr;
    registration = r.registration;
    session_ttl_days = r.session_ttl_days;
    session_grace_minutes = r.session_grace_minutes;
    login_max_fails = r.login_max_fails;
    login_lock_minute = r.login_lock_minute;
    login_ip_max_fails = r.login_ip_max_fails;
    login_window_min = r.login_window_min;
    ssh_port = r.ssh_port;
    health = r.health;
    qos = r.qos;
    timeout_sec = r.timeout_sec;
  }

  restored_same :
      (c : AppConfig F) (dir path : String)
      → c.data_dir ≡ dir
      → c.config_path ≡ path
      → c.version ≡ ""
      → restored c dir path ≡ c
  unfolding public
  restored_same c dir path d p v = cc

  defaults-port :
      (dir default_path path : String)
      → (defaults_at fl dir default_path path).frps.ssh_port ≡ pos 0
  unfolding default_config
  defaults-port dir default_path path = refl

  start-calm :
      (drawn nonce : SecretKey → ℕ) (order : List SecretKey) (dir default_path config_path : String)
      (w v : World F B) (s : Disk (World F B))
      → load_or_create_at fl json dir default_path config_path (calm w) ≡ (ok tt, calm_at v 3)
      → sync_encrypted_secrets k json drawn nonce order (calm_at v 3) ≡ (ok tt, s)
      → start fl k json drawn nonce order dir default_path config_path (calm w) ≡ (ok tt, s)
  unfolding start ◌>>=◌
  start-calm drawn nonce order dir default_path config_path w v s a b = rw (start, a) b

  -- A change of the configuration that succeeds, whichever steps fault, survives a restart: when
  -- the program then starts on the same directory and path, and nothing faults, the start succeeds
  -- and the memory holds exactly the changed configuration, its three secrets included. It is
  -- assumed that the hook of the secrets was installed and ranges over all three, that the changed
  -- configuration is in the ranges of applyDefaults, has the data directory and the path of the
  -- start and an empty version, which the file does not hold, and that each secret which it has empty
  -- has no setting, or that of the empty text.
  pub update-start :
      (nonce : SecretKey → ℕ) (order : List SecretKey) (change : AppConfig F → AppConfig F)
      (d : Disk (World F B)) (drawn nonce' : SecretKey → ℕ) (order' : List SecretKey)
      (dir default_path config_path : String)
      → d.rows.hooked ≡ true
      → ((key : SecretKey) → Covers order key)
      → let c = change d.rows.memory in
        ((key : SecretKey) → Storable k c.frps key d)
        → InRange fl c
        → c.data_dir ≡ dir
        → c.config_path ≡ file_path default_path config_path
        → c.version ≡ ""
        → let r = update k json nonce order change d in
          r.0 ≡ ok tt
          → let s =
              start fl k json drawn nonce' order' dir default_path config_path (calm r.1.rows) in
            (s.0 ≡ ok tt) × (s.1.rows.memory ≡ c)
  update-start nonce order change d drawn nonce' order' dir default_path config_path hooked covered
        storable range at_dir at_path plain done =
      let c = change d.rows.memory in
      let r = update k json nonce order change d in
      let path = file_path default_path config_path in
      elim (update-AllOrNothing k json nonce order change d) [
        | inr (x, failed, _, _) ↦ absurd (cc)
        | inl (b, _, printed, files, _) ↦
            let found : get path r.1.rows.files ≡ some b =
              subst (λ p. get p r.1.rows.files ≡ some b) at_path
                (ap (get c.config_path) files ∙ get-put_self c.config_path b d.rows.files) in
            let loaded =
              load-calm fl json dir default_path config_path b (public c) r.1.rows
                (json.parse-print c b printed) found in
            let filled =
              apply_defaults-id fl (bare c dir path) (defaults_at fl dir default_path path)
                (defaults-port dir default_path path) (bare-InRange c dir path range) in
            let v = record r.1.rows { memory = bare c dir path; hooked = false } in
            let (s, synced, memory) =
              sync-calm json k drawn nonce' order' c dir path b 3
                (record r.1.rows { hooked = false })
                (λ key.
                  update-Recovers k json nonce order change d key hooked (covered key)
                    (storable key) done)
                (restored_same c dir path at_dir at_path plain) printed in
            let started =
              start-calm drawn nonce' order' dir default_path config_path r.1.rows v s
                (loaded
                  ∙ ap (λ m. (ok tt, calm_at (record r.1.rows { memory = m; hooked = false }) 3))
                      filled)
                synced in
            (ap (λ x. x.0) started, ap (λ x. x.1.rows.memory) started ∙ memory)
      ]
