-- ===== src/Mcp/Raises.antt =====
-- What opencode does with arguments that are no list.
use agent_on_demand.Prelude.{ℕ, zero, suc, ◌≡◌, refl, subst, some, List, [], ◌∷◌, get_elem?}
use agent_on_demand.Prelude.Result.{Result, ok, err, ◌>>=◌, bind_ok}
use agent_on_demand.Json.{null, str, obj, Items, items, Fields, lookup}
use agent_on_demand.Validation.Servers.{validate_each, validate_mcp_servers}
use agent_on_demand.Specs.{McpServerSpec, mcp_server_spec, mcp_server_specs, each, subscript}
use agent_on_demand.Mcp.{
  TypeError, Config, JsonRuntime, is_text, stored, render, write_config, opencode_entry,
  render_opencode_mcp_config,
}
use agent_on_demand.Mcp.Accepted.{spec_of, any_fits, validate_each-AllMade}

each_at {ℓ κ μ} :
    {E : Type ℓ} {A : Type κ} {B : Type μ} (f : A → Result E B) (xs : List A) (i : ℕ) (x : A)
    (ys : List B)
    → each f xs ≡ ok ys
    → get_elem? xs i ≡ some x
    → (y : B) × (f x ≡ ok y) × (get_elem? ys i ≡ some y)
unfolding each
each_at f [] i x ys e g = absurd (cc g)
each_at f (z ∷ xs) zero x ys e g =
    let (y, ey, e1) = bind_ok (f z) _ ys e in
    let (zs, ez, e2) = bind_ok (each f xs) _ ys e1 in
    let same : y ∷ zs ≡ ys = cc e2 in
    let here : z ≡ x = cc g in
    (y, subst (λ w. f w ≡ ok y) here ey, subst (λ w. get_elem? w 0 ≡ some y) same refl)
each_at f (z ∷ xs) (suc i) x ys e g =
    let (y, ey, e1) = bind_ok (f z) _ ys e in
    let (zs, ez, e2) = bind_ok (each f xs) _ ys e1 in
    let same : y ∷ zs ≡ ys = cc e2 in
    let (w, ew, gw) = each_at f xs i x zs ez g in
    (w, ew, subst (λ v. get_elem? v (suc i) ≡ some w) same gw)

-- The error is one.
raises {ℓ κ} :
    {A : Type ℓ} {B : Type κ} (m : Result TypeError A) (f : A → Result TypeError B)
    → ((a : A) → f a ≡ err TypeError.type_error)
    → (m >>= f) ≡ err TypeError.type_error
raises (ok a) f h = h a
raises (err TypeError.type_error) f h = refl

render_raises :
    (config : Config) (ss : List McpServerSpec) (i : ℕ) (s : McpServerSpec)
    → get_elem? ss i ≡ some s
    → opencode_entry s ≡ err TypeError.type_error
    → render opencode_entry config ss ≡ err TypeError.type_error
unfolding render
render_raises config [] i s g e = absurd (cc g)
render_raises config (z ∷ ss) zero s g e =
    let same : opencode_entry z ≡ err TypeError.type_error = cc (g, e) in rw same refl
render_raises config (z ∷ ss) (suc i) s g e =
    raises (opencode_entry z) _
      (λ en. raises (stored z.name en config) _ (λ next. render_raises next ss i s g e))

null_raises :
    (d : Fields) (s : McpServerSpec)
    → mcp_server_spec (obj d) ≡ ok s
    → lookup "type" d ≡ some (str "stdio")
    → lookup "args" d ≡ some null
    → opencode_entry s ≡ err TypeError.type_error
unfolding mcp_server_spec opencode_entry is_text
null_raises d s e t a =
    let (name, en, made) = bind_ok (subscript "name" d) _ s e in
    let same : spec_of d name ≡ s = cc made in
    subst (λ w. opencode_entry w ≡ err TypeError.type_error) same (rw (t, a) refl)

-- If an accepted list of MCP servers has one of type stdio whose `args` is null, then the spec factory
-- takes the list, and the configuration of opencode raises a TypeError.
pub null_args_raise :
    (servers : Items) (i : ℕ) (d : Fields)
    → validate_mcp_servers servers ≡ ok tt
    → get_elem? (items servers) i ≡ some (obj d)
    → lookup "type" d ≡ some (str "stdio")
    → lookup "args" d ≡ some null
    → (specs : List McpServerSpec) × (mcp_server_specs servers ≡ ok specs)
      × (write_config JsonRuntime.opencode specs ≡ err TypeError.type_error)
unfolding validate_mcp_servers mcp_server_specs write_config render_opencode_mcp_config
null_args_raise servers i d e g t a =
    let (u, eu, e1) = bind_ok (validate_each 0 [] (items servers)) _ tt e in
    let (ss, made, types, fit, apart, means) =
      validate_each-AllMade JsonRuntime.claude 0 [] (items servers) eu (any_fits (items servers)) in
    let (s, es, at) = each_at mcp_server_spec (items servers) i (obj d) ss made g in
    (ss, made, rw (render_raises [] ss i s at (null_raises d s es t a)) refl)
