-- ===== src/Web/Sound.antt =====
-- What handleSaveSettings lets into the configuration.
use frpilot.Prelude.{
  ℕ, ◌≡◌, ◌⊎◌, refl, sym, subst, ◌∙◌, is_positive, ℤ, String, str_eq, true, false, if◌then◌else◌,
  ◌||◌, Option, none, some, List, [], ◌∷◌, All, inl, inr, arith, Bool-cases,
}
use frpilot.Floats.{Floats}
use frpilot.Cipher.{Cipher, encrypt_secret}
use frpilot.Exec.{Disk, Result-cases, ◌>>=◌}
use frpilot.Qos.Plan.{ManualItem, QosConfig}
use frpilot.Config.{FrpsConfig, AiConfig, AppConfig}
use frpilot.Config.Defaults.{num, int_below, is_mode}
use frpilot.Config.Ranges.{Compares, QosInRange}
use frpilot.Config.Secrets.{
  World, SecretKey, dashboard_pass_key, ssh_pass_key, token_key, secret_of, set_setting,
}
use frpilot.Config.Manager.{Json, update}
use frpilot.Config.Atomic.{update-AllOrNothing}
use frpilot.Web.Settings.{
  FrpsReq, AiReq, SettingsReq, given, given_secret, given_timeout, is_new_secret, is_registration,
  frps_with, ai_with, floor_zero, is_cap, manual_with, qos_with, settings_with, new_api_key,
  save_api_key, save_settings, handle_save_settings,
}

abbrev pub sent_secret : FrpsReq → SecretKey → Option String
sent_secret r dashboard_pass_key = r.dashboard_pass
sent_secret r ssh_pass_key = r.ssh_pass
sent_secret r token_key = r.token

-- The secret is as it was, or what was sent, which is not empty and not what the page shows in the
-- place of a secret.
abbrev pub SecretFrom : Option String → String → String → Type 0
SecretFrom sent old new =
    (new ≡ old) ⊎ ((v : String) × (sent ≡ some v) × (is_new_secret v ≡ true) × (new ≡ v))

given_secret-SecretFrom :
    (sent : Option String) (old : String) → SecretFrom sent old (given_secret sent old)
given_secret-SecretFrom none old = inl refl
given_secret-SecretFrom (some v) old = elim (Bool-cases (is_new_secret v)) [
  | inl e ↦ rw e (inr (v, refl, e, refl))
  | inr e ↦ rw e (inl refl)
]

frps_with-SecretFrom :
    (r : FrpsReq) (f : FrpsConfig) (key : SecretKey)
    → SecretFrom (sent_secret r key) (secret_of f key) (secret_of (frps_with r f) key)
unfolding frps_with
frps_with-SecretFrom r f dashboard_pass_key =
    given_secret-SecretFrom r.dashboard_pass f.dashboard_pass
frps_with-SecretFrom r f ssh_pass_key = given_secret-SecretFrom r.ssh_pass f.ssh_pass
frps_with-SecretFrom r f token_key = given_secret-SecretFrom r.token f.token

module _ (fl : Floats) where
  open fl use {F, lt, le}

  -- A cap has a name, no negative rate, and a positive one.
  abbrev pub CapSound : ManualItem F → Type 0
  CapSound it =
      (str_eq it.name "" ≡ false)
      × (lt it.out_mbps (num fl 0) ≡ false)
      × (lt it.in_mbps (num fl 0) ≡ false)
      × ((lt (num fl 0) it.out_mbps || lt (num fl 0) it.in_mbps) ≡ true)

  pub record IsSound (c : AppConfig F) : Type 0 where
    pub registration : is_registration c.registration ≡ true
    pub qos : QosInRange fl c.qos
    pub caps : All CapSound c.qos.manual
    pub timeout_sec : is_positive c.ai.timeout_sec ≡ true

  floor_zero-low : (x : F) → Compares fl → lt (floor_zero fl x) (num fl 0) ≡ false
  floor_zero-low x facts = elim (Bool-cases (lt x (num fl 0))) [
    | inl e ↦ rw e (facts.not_below 0)
    | inr e ↦ rw e e
  ]

  manual_with-CapSound :
      (items : List (ManualItem F)) → Compares fl → All CapSound (manual_with fl items)
  unfolding manual_with
  manual_with-CapSound [] facts = tt
  manual_with-CapSound (it ∷ items) facts = elim (Bool-cases (is_cap fl it)) [
    | inr e ↦ rw e (manual_with-CapSound items facts)
    | inl e ↦ rw e (
      (
        ground arith,
        floor_zero-low it.out_mbps facts,
        floor_zero-low it.in_mbps facts,
        ground arith,
      ),
      manual_with-CapSound items facts,
    )
  ]

  mode_with : (s : String) → is_mode (if is_mode s then s else "off") ≡ true
  mode_with s = elim (Bool-cases (is_mode s)) [ inl e ↦ rw e e | inr e ↦ rw e refl ]

  qos_with-QosInRange :
      (sent : Option (QosConfig F)) (old : QosConfig F)
      → Compares fl
      → QosInRange fl old
      → QosInRange fl (qos_with fl sent old)
  unfolding qos_with
  qos_with-QosInRange none old facts r = r
  qos_with-QosInRange (some q) old facts r = record {
    mode = mode_with q.mode;
    budgets =
        rw (floor_zero-low q.budget_out_mbps facts, floor_zero-low q.budget_in_mbps facts) refl;
    active_kbps = elim (Bool-cases (le q.active_kbps (num fl 0))) [
      | inl e ↦ rw e (facts.above 0)
      | inr e ↦ rw e e
    ];
    hysteresis_sec = elim (Bool-cases (int_below 15 q.hysteresis_sec)) [
      | inl e ↦ rw e refl
      | inr e ↦ rw e e
    ];
  }

  qos_with-caps :
      (sent : Option (QosConfig F)) (old : QosConfig F)
      → Compares fl
      → All CapSound old.manual
      → All CapSound (qos_with fl sent old).manual
  unfolding qos_with
  qos_with-caps none old facts h = h
  qos_with-caps (some q) old facts h = manual_with-CapSound q.manual facts

  given_timeout-positive :
      (sent : Option ℤ) (old : ℤ)
      → is_positive old ≡ true
      → is_positive (given_timeout sent old) ≡ true
  given_timeout-positive none old h = h
  given_timeout-positive (some t) old h = ground arith

  ai_with-positive :
      (sent : Option AiReq) (a : AiConfig)
      → is_positive a.timeout_sec ≡ true
      → is_positive (ai_with sent a).timeout_sec ≡ true
  unfolding ai_with
  ai_with-positive none a h = h
  ai_with-positive (some r) a h = given_timeout-positive r.timeout_sec a.timeout_sec h

  settings_with-IsSound :
      (registration : String) (r : SettingsReq F) (c : AppConfig F)
      → Compares fl
      → is_registration registration ≡ true
      → IsSound c
      → IsSound (settings_with fl registration r c)
  unfolding settings_with
  settings_with-IsSound registration r c facts known s = record {
    registration = known;
    qos = qos_with-QosInRange r.qos c.qos facts s.qos;
    caps = qos_with-caps r.qos c.qos facts s.caps;
    timeout_sec = ai_with-positive r.ai c.ai s.timeout_sec;
  }

  module _ {B : Type 0} (k : Cipher) (json : Json F B) where
    save_api_key-memory :
        (nonce : ℕ) (key : Option String) (d : Disk (World F B))
        → (save_api_key fl k nonce key d).1.rows.memory ≡ d.rows.memory
    unfolding save_api_key set_setting ◌>>=◌
    save_api_key-memory nonce none d = refl
    save_api_key-memory nonce (some v) d = elim (Result-cases (encrypt_secret k nonce v)) [
      | inr (x, e) ↦ rw (save_api_key, e) refl
      | inl (enc, e) ↦ rw (save_api_key, e) (ground arith)
    ]

    save_settings-memory :
        (nonce : SecretKey → ℕ) (order : List SecretKey) (key_nonce : ℕ) (r : SettingsReq F)
        (registration : String) (d : Disk (World F B))
        → (save_settings fl k json nonce order key_nonce r registration d).1.rows.memory
          ≡ (update k json nonce order (settings_with fl registration r) d).1.rows.memory
    unfolding save_settings ◌>>=◌
    save_settings-memory nonce order key_nonce r registration d =
        let u = update k json nonce order (settings_with fl registration r) d in
        elim (Result-cases u.0) [
          | inr (x, e) ↦ rw e refl
          | inl (x, e) ↦ rw e (save_api_key-memory key_nonce (new_api_key fl r.ai) u.1)
        ]

    -- Saving the settings, whatever is sent and whichever steps fault, keeps the configuration in
    -- memory sound: a known registration mode, a known mode of shaping, no negative budget, an
    -- activity threshold above zero, a hysteresis of at least 15 seconds, caps that each have a
    -- name, no negative rate and a positive one, and a positive timeout. Each secret is as it was,
    -- or is the text that was sent for it, which is neither empty nor the mask of a secret. It is
    -- assumed how the float64 of a whole number compares with zero.
    pub handle_save_settings-IsSound :
        (nonce : SecretKey → ℕ) (order : List SecretKey) (key_nonce : ℕ) (r : SettingsReq F)
        (d : Disk (World F B))
        → Compares fl
        → IsSound d.rows.memory
        → let m = (handle_save_settings fl k json nonce order key_nonce r d).1.rows.memory in
          IsSound m
          × ((key : SecretKey)
              → SecretFrom
                  (sent_secret r.frps key)
                  (secret_of d.rows.memory.frps key)
                  (secret_of m.frps key))
    unfolding handle_save_settings ◌>>=◌
    handle_save_settings-IsSound nonce order key_nonce r d facts s =
        let registration = given r.registration d.rows.memory.registration in
        let c = settings_with fl registration r d.rows.memory in
        let Goal = λ (m : AppConfig F).
          IsSound m
          × ((key : SecretKey)
              → SecretFrom (sent_secret r.frps key) (secret_of d.rows.memory.frps key)
                  (secret_of m.frps key)) in
        let same : Goal d.rows.memory = (s, λ key. inl refl) in
        elim (Bool-cases (is_registration registration)) [
          | inr e ↦ rw (handle_save_settings, e) same
          | inl e ↦
              let whole : (handle_save_settings fl k json nonce order key_nonce r d).1.rows.memory
                  ≡ (update k json nonce order (settings_with fl registration r) d).1.rows.memory =
                rw (handle_save_settings, e)
                  (save_settings-memory nonce order key_nonce r registration d) in
              elim (update-AllOrNothing k json nonce order (settings_with fl registration r) d) [
                | inr (x, _, _, kept) ↦ subst Goal (sym (whole ∙ kept)) same
                | inl (b, _, _, _, new) ↦ subst Goal (sym (whole ∙ new)) (
                  settings_with-IsSound registration r d.rows.memory facts e s,
                  λ key. unfold settings_with in frps_with-SecretFrom r.frps d.rows.memory.frps key,
                )
              ]
        ]
