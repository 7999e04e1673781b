-- ===== src/Runtimes/Bearer.antt =====
-- The headers that runtimes/codex_config.py lets through.
use agent_on_demand.Prelude.{
  ℕ, ◌≡◌, refl, ap, ◌∙◌, Option, none, some, List, [], ◌∷◌, ◌++◌, map, All, arith, Bool-cases, inl,
  inr,
}
use agent_on_demand.Prelude.Result.{ok, ◌>>=◌, bind_ok}
use agent_on_demand.Prelude.Text.{Text, codes, text_eq, text_eq_iff, strip}
use agent_on_demand.Runtimes.Codex.{
  Server, after_prefix, before_last, variable_of, closed_name, lower, bearer_line,
  authorization_line, header_line, header_lines, url_lines, server_lines, all_lines,
  render_codex_mcp_config,
}

after_prefix_lem : (p s rest : Text) → after_prefix p s ≡ some rest → s ≡ p ++ rest
unfolding after_prefix
after_prefix_lem [] s rest e = cc e
after_prefix_lem (c ∷ cs) [] rest e = absurd (cc e)
after_prefix_lem (c ∷ cs) (d ∷ ds) rest e = ground (arith, e, after_prefix_lem cs ds rest)

some_cons :
    (d : ℕ) (o : Option Text) (t : Text)
    → (elim o [ none ↦ none | some t ↦ some (d ∷ t) ]) ≡ some t
    → (u : Text) × (o ≡ some u) × (d ∷ u ≡ t)
some_cons d none t e = absurd (cc e)
some_cons d (some u) t e = (u, refl, cc e)

before_last_lem : (c : ℕ) (s t : Text) → before_last c s ≡ some t → s ≡ t ++ c ∷ []
unfolding before_last
before_last_lem c [] t e = absurd (cc e)
before_last_lem c (d ∷ []) t e = ground (arith, e)
before_last_lem c (d ∷ f ∷ fs) t e =
    let (u, eq, same) = some_cons d (before_last c (f ∷ fs)) t e in
    ap (λ r. d ∷ r) (before_last_lem c (f ∷ fs) u eq) ∙ ap (λ r. r ++ c ∷ []) same

-- An authorization header with a reference to an environment variable.
abbrev pub IsReference : Text × Text → Type 0
IsReference (key, val) =
    (rest name : Text) × (val ≡ codes "Bearer " ++ rest)
    × (strip rest ≡ codes "${" ++ (name ++ b'}' ∷ []))

closed_name_lem :
    (o : Option Text) (name : Text) → closed_name o ≡ some name → o ≡ some (name ++ b'}' ∷ [])
closed_name_lem none name e = absurd (cc e)
closed_name_lem (some rest) name e = ap some (before_last_lem b'}' rest name e)

variable_of_lem :
    (token name : Text) → variable_of token ≡ some name → token ≡ codes "${" ++ (name ++ b'}' ∷ [])
unfolding variable_of
variable_of_lem token name e =
    after_prefix_lem (codes "${") token (name ++ b'}' ∷ [])
      (closed_name_lem (after_prefix (codes "${") token) name e)

bearer_line_lem :
    (name rest line : Text) (o : Option Text)
    → bearer_line name o ≡ ok line
    → (var : Text) × (o ≡ some var)
bearer_line_lem name rest line none e = absurd (cc e)
bearer_line_lem name rest line (some var) e = (var, refl)

authorization_line_lem :
    (name key val line : Text) (o : Option Text)
    → after_prefix (codes "Bearer ") val ≡ o
    → authorization_line name key o ≡ ok line
    → IsReference (key, val)
authorization_line_lem name key val line none h e = absurd (cc e)
authorization_line_lem name key val line (some rest) h e =
    let (var, v) = bearer_line_lem name rest line (variable_of (strip rest)) e in
    (rest, var, after_prefix_lem (codes "Bearer ") val rest h, variable_of_lem (strip rest) var v)

header_line_lem :
    (name key val line : Text) → header_line name (key, val) ≡ ok line → IsReference (key, val)
unfolding header_line
header_line_lem name key val line e =
    elim (Bool-cases (text_eq (map lower key) (codes "authorization"))) [
      | inl a ↦
          authorization_line_lem name key val line (after_prefix (codes "Bearer ") val) refl
            (ground (arith, e, a))
      | inr a ↦ absurd (ground (arith, e, a))
    ]

header_lines_lem :
    (name : Text) (hs : List (Text × Text)) (ls : List Text)
    → header_lines name hs ≡ ok ls
    → All IsReference hs
unfolding header_lines
header_lines_lem name [] ls e = tt
header_lines_lem name (h ∷ hs) ls e =
    let (line, here, more) = bind_ok (header_line name h) _ ls e in
    let (rest, there, _) = bind_ok (header_lines name hs) _ ls more in
    (header_line_lem name h.0 h.1 line here, header_lines_lem name hs rest there)

-- Every header of a server of type `url` is a reference.
pub Referenced : Server → Type 0
Referenced s = s.type ≡ codes "url" → All IsReference s.headers

server_lines_lem : (s : Server) (ls : List Text) → server_lines s ≡ ok ls → Referenced s
unfolding server_lines Referenced
server_lines_lem s ls e same =
    let is_url = (text_eq_iff s.type (codes "url")).1 same in
    let taken : (header_lines s.name s.headers >>= λ hs. ok (url_lines s.url hs)) ≡ ok ls =
      ground (arith, e, is_url) in
    let (hs, h, _) = bind_ok (header_lines s.name s.headers) _ ls taken in
    header_lines_lem s.name s.headers hs h

all_lines_lem : (ss : List Server) (ls : List Text) → all_lines ss ≡ ok ls → All Referenced ss
unfolding all_lines
all_lines_lem [] ls e = tt
all_lines_lem (s ∷ ss) ls e =
    let (here, h, more) = bind_ok (server_lines s) _ ls e in
    let (rest, there, _) = bind_ok (all_lines ss) _ ls more in
    (server_lines_lem s here h, all_lines_lem ss rest there)

-- If Codex's configuration is rendered, then every header of each server of type `url` is `Bearer `
-- with a reference `${NAME}` to an environment variable behind it: no literal secret is accepted.
pub render_codex_mcp_config-Referenced :
    (ss : List Server) (body : Text) → render_codex_mcp_config ss ≡ ok body → All Referenced ss
unfolding render_codex_mcp_config
render_codex_mcp_config-Referenced ss body e =
    let (ls, h, _) = bind_ok (all_lines ss) _ body e in all_lines_lem ss ls h
