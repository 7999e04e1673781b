-- ===== src/Shell.antt =====
-- Text for a shell: `shlex.quote` of Python's library, as the code of
-- src/agent_on_demand/session_service uses it.
pub mod Reader
pub mod RoundTrip
use agent_on_demand.Prelude.{
  ℕ, ◌==◌, Bool, true, ◌&&◌, ◌||◌, List, [], ◌∷◌, ◌++◌, if◌then◌else◌, all, map,
}
use agent_on_demand.Prelude.Text.{Text, codes, within, join}

-- `[\w@%+=:,./-]` of an ASCII pattern.
unfoldable pub is_safe : ℕ → Bool
is_safe c =
    within b'a' b'z' c
    || within b'A' b'Z' c
    || within b'0' b'9' c
    || c == b'_'
    || c == b'@'
    || c == b'%'
    || c == b'+'
    || c == b'='
    || c == b':'
    || c == b','
    || c == b'.'
    || c == b'/'
    || c == b'-'

-- `s.replace("'", "'\"'\"'")`.
unfoldable pub escape_quotes : Text → Text
escape_quotes [] = []
escape_quotes (c ∷ cs) =
    (if c == b'\'' then b'\'' ∷ b'"' ∷ b'\'' ∷ b'"' ∷ b'\'' ∷ [] else c ∷ []) ++ escape_quotes cs

-- `shlex.quote`.
unfoldable pub quote : Text → Text
quote [] = b'\'' ∷ b'\'' ∷ []
quote (c ∷ cs) =
    if all is_safe (c ∷ cs) then c ∷ cs else b'\'' ∷ (escape_quotes (c ∷ cs) ++ b'\'' ∷ [])

-- `_join_quoted` of provisioning/package_commands.py.
unfoldable pub join_quoted : List Text → Text
join_quoted ps = join (b' ' ∷ []) (map quote ps)
