-- ===== src/Registry/Drift.antt =====
-- Detection of the frps configuration and verification of its token, one after the other.
use frpilot.Prelude.{
  ◌≡◌, refl, ap, subst, ◌∙◌, arith, ℕ, String, str_eq, eq_iff, Bool, true, false, if◌then◌else◌,
  not, ◌&&◌, ◌||◌, Option, none, some, List, [], ◌∷◌, inl, inr, Bool-cases,
}
use frpilot.Prelude.Maps.{Map}
use frpilot.Prelude.Text.{◌⧺◌, contains, trim_space}
use frpilot.Cipher.{Cipher}
use frpilot.Exec.{ok, err, token_drift, Disk, ◌>>=◌}
use frpilot.Tasks.Remote.{Sent, Remote}
use frpilot.Config.{FrpsConfig, AppConfig}
use frpilot.Config.Secrets.{World, SecretKey, or_empty}
use frpilot.Config.Manager.{Json}
use frpilot.Config.Atomic.{update-AllOrNothing}
use frpilot.Sshx.FrpsFile.{
  run_of, ps_command, probe_command, find_frps_config_path, extract_config_value,
  extract_frps_config_values, token_command, verify_token_in_frps_ini,
}
use frpilot.Sshx.Values.{extract_config_value-append, extract_config_value-newline, extract-token}
use frpilot.Registry.{first_non_empty}
use frpilot.Registry.Frps.{
  port_or_22, token_of, detected, cat_of, detect_at, auto_detect_frps_info,
  verify_frps_token_baseline,
}

picked_some :
    (p q path : String) (b : Bool) (x y sent : List Sent)
    → let pick : Option String × List Sent =
        if not (str_eq p "") && b then (some p, x) else (if str_eq q "" then none else some q, y) in
      pick ≡ (some path, sent) → str_eq path "" ≡ false
picked_some p q path b x y sent = elim (Bool-cases (not (str_eq p "") && b)) [
  | inl t ↦ rw t (λ e. ground arith)
  | inr t ↦ elim (Bool-cases (str_eq q "")) [
    | inl u ↦ rw (t, u) (λ e. absurd (cc))
    | inr u ↦ rw (t, u) (λ e. subst (λ x. str_eq x "" ≡ false) (ap (λ z. or_empty z.0) e) u)
  ]
]

found_some :
    (r : Remote) (path : String) (sent : List Sent)
    → find_frps_config_path r ≡ (some path, sent)
    → str_eq path "" ≡ false
unfolding find_frps_config_path
found_some r path sent e =
    let first = run_of ps_command in
    let p = trim_space (r.reply [] first).out in
    let q = trim_space (r.reply (first ∷ []) (run_of probe_command)).out in
    picked_some p q path (contains p "frps") (first ∷ []) (first ∷ run_of probe_command ∷ []) sent e

token_of-extract :
    (content : String)
    → token_of (extract_frps_config_values content) ≡ (
        if str_eq (extract_config_value content "token") ""
        then "12345"
        else extract_config_value content "token")
unfolding token_of first_non_empty
token_of-extract content = elim (Bool-cases (str_eq (extract_config_value content "token") "")) [
  | inl e ↦ rw (extract-token content, e) refl
  | inr e ↦ rw (extract-token content, e, e) refl
]

-- The verification of a configuration whose path is known.
verify-reads :
    (r : Remote) (f : FrpsConfig) (path token : String)
    → f.config_path ≡ path
    → str_eq path "" ≡ false
    → r.dial f.ssh_host (port_or_22 f.ssh_port) f.ssh_user f.ssh_pass ≡ true
    → (r.reply [] (run_of (token_command path))).failed ≡ false
    → extract_config_value (r.reply [] (run_of (token_command path))).out "token" ≡ token
    → verify_frps_token_baseline r f ≡ (if str_eq token f.token then ok token else err token_drift)
unfolding verify_frps_token_baseline verify_token_in_frps_ini
verify-reads r f path token e some_path up fine read = rw (up, e, some_path, fine, read) refl

module _ {F B : Type 0} (k : Cipher) (json : Json F B) (nonce : SecretKey → ℕ)
    (order : List SecretKey) where
  detect_at-memory :
      (r : Remote) (d : Disk (World F B)) (path : String) (sent : List Sent) (info : Map String)
      → (detect_at k json nonce order r (some path, sent) d).0 ≡ ok info
      → (detect_at k json nonce order r (some path, sent) d).1.rows.memory
        ≡ detected path (extract_frps_config_values (r.reply sent (cat_of path)).out) d.rows.memory
  unfolding detect_at ◌>>=◌
  detect_at-memory r d path sent info =
      let change : AppConfig F → AppConfig F =
        detected path (extract_frps_config_values (r.reply sent (cat_of path)).out) in
      elim (Bool-cases (r.reply sent (cat_of path)).failed) [
        | inl t ↦ rw t (λ o. absurd (cc))
        | inr t ↦ elim (update-AllOrNothing k json nonce order change d) [
          | inl (b, u, _, _, m) ↦ rw (t, u) (λ o. m)
          | inr (x, u, _, _) ↦ rw (t, u) (λ o. absurd (cc))
        ]
      ]

  -- What a detection that succeeds leaves in memory.
  detected_memory :
      (r : Remote) (d : Disk (World F B)) (path : String) (sent : List Sent) (info : Map String)
      → find_frps_config_path r ≡ (some path, sent)
      → (auto_detect_frps_info k json nonce order r d).0 ≡ ok info
      → let f = d.rows.memory.frps in
        let vals = extract_frps_config_values (r.reply sent (cat_of path)).out in
        (r.dial f.ssh_host (port_or_22 f.ssh_port) f.ssh_user f.ssh_pass ≡ true)
        × ((auto_detect_frps_info k json nonce order r d).1.rows.memory
            ≡ detected path vals d.rows.memory)
  unfolding auto_detect_frps_info ◌>>=◌
  detected_memory r d path sent info e =
      let f = d.rows.memory.frps in
      elim (Bool-cases (str_eq f.ssh_host "" || str_eq f.ssh_user "")) [
        | inl t ↦ rw t (λ o. absurd (cc))
        | inr t ↦
            elim (Bool-cases (r.dial f.ssh_host (port_or_22 f.ssh_port) f.ssh_user f.ssh_pass)) [
              | inl up ↦ rw (t, up, e) (λ o. (refl, detect_at-memory r d path sent info o))
              | inr up ↦ rw (t, up) (λ o. absurd (cc))
            ]
      ]

  -- The frps configuration is detected, and then its token is verified. It is assumed that the
  -- verification can read the files, and that its text is that of the detection, which ends in a
  -- newline, with that of the second file after it. If the detection succeeds and its text has a
  -- token, the verification succeeds with that token, whatever the second file holds; without one
  -- the default token is the baseline, and the verification reports drift unless the second file has
  -- that very token.
  pub detect-verify :
      (r : Remote) (d : Disk (World F B)) (path : String) (sent : List Sent) (info : Map String)
      (body rest : String)
      → find_frps_config_path r ≡ (some path, sent)
      → (r.reply sent (cat_of path)).out ≡ body ⧺ "\n"
      → (r.reply [] (run_of (token_command path))).failed ≡ false
      → (r.reply [] (run_of (token_command path))).out ≡ body ⧺ "\n" ⧺ rest
      → (auto_detect_frps_info k json nonce order r d).0 ≡ ok info
      → verify_frps_token_baseline r
          (auto_detect_frps_info k json nonce order r d).1.rows.memory.frps
        ≡ (if str_eq (extract_config_value body "token") ""
            then (if str_eq (extract_config_value rest "token") "12345"
                then ok (extract_config_value rest "token")
                else err token_drift)
            else ok (extract_config_value body "token"))
  unfolding detected
  detect-verify r d path sent info body rest e text fine whole o =
      let (up, m) = detected_memory r d path sent info e o in
      let vals = extract_frps_config_values (r.reply sent (cat_of path)).out in
      let f = (detected path vals d.rows.memory).frps in
      let token = extract_config_value body "token" in
      let baseline : f.token ≡ (if str_eq token "" then "12345" else token) =
        token_of-extract (r.reply sent (cat_of path)).out
        ∙ ap (λ v. if str_eq v "" then "12345" else v)
            (ap (λ t. extract_config_value t "token") text
              ∙ extract_config_value-newline body "token") in
      let read =
        ap (λ t. extract_config_value t "token") whole
        ∙ extract_config_value-append body rest "token" in
      ap (λ w. verify_frps_token_baseline r w.frps) m
      ∙ verify-reads r f path _ refl (found_some r path sent e) up fine read
      ∙ ap
          (λ b.
            if str_eq (if str_eq token "" then extract_config_value rest "token" else token) b
            then ok (if str_eq token "" then extract_config_value rest "token" else token)
            else err token_drift)
          baseline
      ∙ elim (Bool-cases (str_eq token "")) [
        | inl t ↦ rw t refl
        | inr t ↦ rw (t, (eq_iff token token).1 refl) refl
      ]
