-- ===== src/Sshx.antt =====
-- internal/sshx/sshx.go: the command lines that are sent; FrpsFile has what is read from a
-- configuration of frps. The connection itself is golang.org/x/crypto/ssh; see Tasks/Remote.
pub mod Shell
pub mod FrpsFile
pub mod Values
use Prim.Native.Char.{code}
use text.Mathlib.Text.{starts_with}
use frpilot.Prelude.{
  ℕ, String, str_eq, Bool, true, false, if◌then◌else◌, not, ◌==◌, ◌&&◌, ◌||◌, Option, none, some,
  List, [], ◌∷◌,
}
use frpilot.Prelude.Maps.{Map}
use frpilot.Prelude.Text.{◌⧺◌, trim_space, lines, cut_at}

-- strings.ReplaceAll(s, "'", `'\''`)
unfoldable pub escape_quotes : String → String
escape_quotes String.[] = ""
escape_quotes (String.◌∷◌ c s) =
    let rest = escape_quotes s in if code c == b'\'' then "'\\''" ⧺ rest else String.◌∷◌ c rest

unfoldable pub shell_quote : String → String
unfolding escape_quotes
shell_quote s = "'" ⧺ escape_quotes s ⧺ "'"

-- The command line that RunSudo hands to Run.
unfoldable pub run_sudo : (cmd sudo_pass : String) → String
unfolding shell_quote
run_sudo cmd sudo_pass =
    if str_eq sudo_pass ""
    then cmd
    else "echo " ⧺ shell_quote sudo_pass ⧺ " | sudo -S -p '' -- bash -c " ⧺ shell_quote cmd
