-- ===== src/Mcp/Rendered.antt =====
-- From a request's MCP servers to the file that its runtime reads.
use mathlib.Core.List.{append-nil, append_assoc}
use agent_on_demand.Prelude.{
  ◌≡◌, refl, ap, sym, ◌∙◌, false, Option, List, [], ◌∷◌, ◌++◌, map, any, All, arith,
}
use agent_on_demand.Prelude.Result.{ok, bind_ok}
use agent_on_demand.Json.{Json, Items, items, Fields, json_eq}
use agent_on_demand.Validation.Servers.{validate_each, validate_mcp_servers}
use agent_on_demand.Specs.{McpServerSpec, mcp_server_specs}
use agent_on_demand.Mcp.{
  Config, ConfigFile, JsonRuntime, put, render, write_config, render_claude_mcp_config,
  render_gemini_mcp_config, render_opencode_mcp_config,
}
use agent_on_demand.Mcp.Transport.{Transport, understood, entry_of, Fits, HasType, entry-understood}
use agent_on_demand.Mcp.Accepted.{wanted, FitsRequest, meant, Apart, validate_each-AllMade}

abbrev pub reading : JsonRuntime → Json × Fields → Json × Option Transport
reading r (n, e) = (n, understood r e)

put_fresh :
    (name : Json) (e : Fields) (config : Config)
    → any (λ r. json_eq r.0 name) config ≡ false
    → put name e config ≡ config ++ (name, e) ∷ []
unfolding put any
put_fresh name e [] h = refl
put_fresh name e ((n, f) ∷ rest) h = ground (arith, h, put_fresh name e rest)

-- The keys of the file so far are among the names.
abbrev Within : Config → List Json → Type 0
Within config names =
    (x : Json) → any (λ n. json_eq n x) names ≡ false → any (λ r. json_eq r.0 x) config ≡ false

any-append_one :
    (x : Json) (config : Config) (name : Json) (e : Fields)
    → any (λ r. json_eq r.0 x) config ≡ false
    → json_eq name x ≡ false
    → any (λ r. json_eq r.0 x) (config ++ (name, e) ∷ []) ≡ false
unfolding any
any-append_one x [] name e h k = ground (arith, k)
any-append_one x (row ∷ rows) name e h k = ground (arith, h, any-append_one x rows name e)

grows :
    (config : Config) (names : List Json) (name : Json) (e : Fields)
    → Within config names
    → Within (config ++ (name, e) ∷ []) (name ∷ names)
unfolding any
grows config names name e w x h =
    any-append_one x config name e (w x (ground (arith, h))) (ground (arith, h))

-- One row for each server, in their order, each understood as it was meant.
render-reading :
    (r : JsonRuntime) (config : Config) (names : List Json) (ss : List McpServerSpec)
    → Within config names
    → All HasType ss
    → All (Fits r) ss
    → Apart names ss
    → (rows : Config) × (render (entry_of r) config ss ≡ ok (config ++ rows))
      × (map (reading r) rows ≡ map meant ss)
unfolding render
render-reading r config names [] w t f a = ([], ap ok (sym (append-nil config)), refl)
render-reading r config names (s ∷ ss) w (t, ts) (f, fs) (hash, fresh, apart) =
    let (e, made, means) = entry-understood r s t f in
    let (rows, ends, read) =
      render-reading r (config ++ (s.name, e) ∷ []) (s.name ∷ names) ss
        (grows config names s.name e w) ts fs apart in
    (
      (s.name, e) ∷ rows,
      rw (made, hash, put_fresh s.name e config (w s.name fresh))
          (ends ∙ ap ok (append_assoc config ((s.name, e) ∷ []) rows)),
      rw (means, read) refl,
    )

-- The file of a runtime; an empty one is not written.
pub file_of : JsonRuntime → Config → ConfigFile
file_of r [] = ConfigFile.nothing
file_of JsonRuntime.claude (c ∷ cs) =
    ConfigFile.file "/home/sprite/.claude.json" "mcpServers" (c ∷ cs)
file_of JsonRuntime.gemini (c ∷ cs) =
    ConfigFile.file "/home/sprite/.gemini/settings.json" "mcpServers" (c ∷ cs)
file_of JsonRuntime.opencode (c ∷ cs) =
    ConfigFile.file "/home/sprite/.config/opencode/opencode.json" "mcp" (c ∷ cs)

write_config-file_of :
    (r : JsonRuntime) (ss : List McpServerSpec) (config : Config)
    → render (entry_of r) [] ss ≡ ok config
    → write_config r ss ≡ ok (file_of r config)
unfolding write_config file_of render_claude_mcp_config render_gemini_mcp_config
    render_opencode_mcp_config
write_config-file_of JsonRuntime.claude ss [] e = rw e refl
write_config-file_of JsonRuntime.claude ss (c ∷ cs) e = rw e refl
write_config-file_of JsonRuntime.gemini ss [] e = rw e refl
write_config-file_of JsonRuntime.gemini ss (c ∷ cs) e = rw e refl
write_config-file_of JsonRuntime.opencode ss [] e = rw e refl
write_config-file_of JsonRuntime.opencode ss (c ∷ cs) e = rw e refl

-- If the MCP servers of an agent are accepted, and for opencode each `args` is a list where it is given,
-- then the spec factory raises on none of them, and the file that Claude, Gemini or opencode gets has one
-- entry for each server, in their order and under their names, which is understood as the server that
-- the request means: the URL with its headers, or the command with its arguments and environment.
pub write_config-wanted :
    (r : JsonRuntime) (servers : Items)
    → validate_mcp_servers servers ≡ ok tt
    → All (FitsRequest r) (items servers)
    → (specs : List McpServerSpec) × (mcp_server_specs servers ≡ ok specs)
      × ((config : Config) × (write_config r specs ≡ ok (file_of r config))
          × (map (reading r) config ≡ map wanted (items servers)))
unfolding validate_mcp_servers mcp_server_specs any
write_config-wanted r servers e f =
    let (u, eu, e1) = bind_ok (validate_each 0 [] (items servers)) _ tt e in
    let (ss, made, types, fit, apart, means) = validate_each-AllMade r 0 [] (items servers) eu f in
    let (config, ends, read) = render-reading r [] [] ss (λ x h. refl) types fit apart in
    (ss, made, (config, write_config-file_of r ss config ends, read ∙ means))
