-- ===== src/Tests/Columns.antt =====
-- Skills and MCP servers of an agent.
use agent_on_demand.Prelude.{String, ◌≡◌, refl, List, map, All, any}
use agent_on_demand.Prelude.Result.{ok, err}
use agent_on_demand.Json.{
  Json, null, str, arr, nil, cons, obj, Items, items, end, field, lookup, json_eq,
}
use agent_on_demand.Validation.Skills.{validate_each}
use agent_on_demand.Validation.Servers as Servers
use agent_on_demand.Specs.{McpServerSpec, mcp_server_specs}
use agent_on_demand.Mcp.{Config, JsonRuntime, TypeError, write_config}
use agent_on_demand.Mcp.Accepted.{wanted, FitsRequest}
use agent_on_demand.Mcp.Rendered.{reading, file_of, write_config-wanted}
use agent_on_demand.Mcp.Raises.{null_args_raise}

abbrev described : String → String → Json → Json
described k v x = obj (field "description" (str "d") (field k (str v) (field "name" x end)))

abbrev two_skills : Items
two_skills =
    cons
      (obj (
        field "name" (str "lint")
          (field "description" (str "d") (field "content" (str "# Lint") end))))
      (cons
        (obj (
          field "type" (str "github")
            (field "description" (str "d") (field "source" (str "ravi-hq/skills") end))))
        nil)

abbrev two_servers : Items
two_servers = cons (obj (field "name" (str "docs") (field "url" (str "https://docs") end))) (
    cons
      (obj (
        field "name" (str "db") (
          field "type" (str "stdio")
            (field "command" (str "db") (field "args" (arr (cons (str "-v") nil)) end)))))
      nil)

two_servers_accepted : Servers.validate_mcp_servers two_servers ≡ ok tt
unfolding Servers.validate_mcp_servers Servers.validate_each Servers.validate_server any lookup
    json_eq
two_servers_accepted = refl

two_servers_fit : All (FitsRequest JsonRuntime.opencode) (items two_servers)
unfolding FitsRequest lookup
two_servers_fit = ((nil, refl), ((cons (str "-v") nil, refl), tt))

write_config-wanted_example :
    (specs : List McpServerSpec) × (mcp_server_specs two_servers ≡ ok specs)
    × ((config : Config) × (write_config JsonRuntime.opencode specs
          ≡ ok (file_of JsonRuntime.opencode config))
        × (map (reading JsonRuntime.opencode) config ≡ map wanted (items two_servers)))
write_config-wanted_example =
    write_config-wanted JsonRuntime.opencode two_servers two_servers_accepted two_servers_fit

abbrev null_args : Items
null_args =
    cons
      (obj (
        field "name" (str "db")
          (field "type" (str "stdio") (field "command" (str "db") (field "args" null end)))))
      nil

null_args_accepted : Servers.validate_mcp_servers null_args ≡ ok tt
unfolding Servers.validate_mcp_servers Servers.validate_each Servers.validate_server any lookup
null_args_accepted = refl

null_args_raise_example :
    (specs : List McpServerSpec) × (mcp_server_specs null_args ≡ ok specs)
    × (write_config JsonRuntime.opencode specs ≡ err TypeError.type_error)
unfolding lookup
null_args_raise_example = null_args_raise null_args 0 _ null_args_accepted refl refl refl
