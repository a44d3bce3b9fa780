-- ===== src/Sync/Ssh.antt =====
-- utils/ssh-client.ts: the list of the commands that may be sent, and a command sent over a connection.
-- What the server prints is a parameter. The connection does not read the exit status and drops stderr,
-- so that a command that fails resolves to what it had printed, which for `cat` of a missing file is
-- nothing.
use wfmcontrol_m.Prelude.{
  not, Option, none, some, List, [], ◌∷◌, ◌++◌, if◌then◌else◌, any, ◌≡◌, ◌⊎◌, inl, inr, refl,
}
use wfmcontrol_m.Text.{Text, text, trim, is_empty, take, starts_with}

-- A promise of the service: a value, or an error with its message.
pub data Reply {ℓ} (A : Type ℓ) : Type ℓ where
  resolved : A → Reply A
  rejected : Text → Reply A

-- What comes of sending a command: text on stdout, or a broken connection or time-out.
abbrev pub Shell : Type 0
Shell = Text → Reply Text

abbrev pub allowed_remote_commands : List Text
allowed_remote_commands =
    text "cat "
    ∷ text "tail "
    ∷ text "tail -"
    ∷ text "stat "
    ∷ text "find "
    ∷ text "pgrep "
    ∷ text "grep "
    ∷ text "(grep "
    ∷ text "journalctl "
    ∷ text "db2 "
    ∷ text "timedatectl "
    ∷ text "readlink "
    ∷ text "date "
    ∷ text "bash -lc "
    ∷ []

-- The error, if there is one.
unfoldable pub validate_remote_command : Text → Option Text
validate_remote_command command =
    let cmd = trim command in
    if is_empty cmd
    then some (text "Empty SSH command")
    else if not (any (λ p. starts_with p cmd) allowed_remote_commands)
    then some (text "SSH command not permitted: " ++ take 120 cmd)
    else none

unfoldable pub ssh_exec : Shell → Text → Reply Text
ssh_exec shell command = elim (validate_remote_command command) [
  | some e ↦ rejected e
  | none ↦ shell command
]

pub Reply-cases {ℓ} :
    {A : Type ℓ} (o : Reply A) → ((e : Text) × (o ≡ rejected e)) ⊎ ((a : A) × (o ≡ resolved a))
Reply-cases (rejected e) = inl (e, refl)
Reply-cases (resolved a) = inr (a, refl)
