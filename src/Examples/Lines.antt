-- ===== src/Examples/Lines.antt =====
-- A command line of RunSudo, and a text that ParseSecurity reads.
use frpilot.Prelude.{◌≡◌, refl, some, [], ◌∷◌, map, any, String, Distinct}
use frpilot.Prelude.Text.{lines}
use frpilot.Sshx.{run_sudo}
use frpilot.Sshx.Shell.{word, pipe, tokens, tokens-run_sudo}
use frpilot.Collector.Modules.{parse_security, is_named, security_line}
use frpilot.Collector.Tools.{mentions, says_missing, is_gone}
use frpilot.Collector.Reported.{parse_security-tools}

tokens-run_sudo_example :
    tokens (run_sudo "rm -rf '/tmp/a b'" "it's; $x")
    ≡ some (
        word "echo"
        ∷ word "it's; $x"
        ∷ pipe
        ∷ word "sudo"
        ∷ word "-S"
        ∷ word "-p"
        ∷ word ""
        ∷ word "--"
        ∷ word "bash"
        ∷ word "-c"
        ∷ word "rm -rf '/tmp/a b'"
        ∷ [])
tokens-run_sudo_example = tokens-run_sudo "rm -rf '/tmp/a b'" "it's; $x" refl

abbrev report : String
report = "ACTIVE ufw|active\nMISSING clamav\nVER ufw 0.36"

parse_security-tools_example :
    Distinct (λ it. it.name) (parse_security report)
    × ((n : String)
        → any (is_named n) (parse_security report)
          ≡ any (mentions n) (map security_line (lines report)))
    × ((n : String)
        → any (is_gone n) (parse_security report)
          ≡ any (says_missing n) (map security_line (lines report)))
parse_security-tools_example = parse_security-tools report
