-- ===== src/Tests/Team.antt =====
-- An agent with the model anthropic/openai/x, and one that is renamed.
use agent_on_demand.Prelude.{◌≡◌, refl, true, none, some, [], ◌∷◌, ◌⊎◌}
use agent_on_demand.Prelude.Result.{ok, err}
use agent_on_demand.Prelude.Text.{codes, text_eq, strip, lstrip, rstrip, is_space}
use agent_on_demand.Json.{nil, end}
use agent_on_demand.Agents.{
  Agent, Agents, CreateAgentRequest, UpdateAgentRequest, Refusal, ModelError, partition,
  is_supported, is_known_prefix, normalize_provider_model, agents_create, new_agent,
  resolve_environment,
}
use agent_on_demand.Agents.Update.{agent_update, find_agent}
use agent_on_demand.Agents.Bumps.{Outcome, agent_update_outcome}
use agent_on_demand.Agents.Prefixes.{
  IsNormal, normalize_provider_model-IsNormal, prefixed_agent_frozen, Reason,
}

abbrev body : CreateAgentRequest
body = record {
  name = "bot";
  provider = codes "anthropic";
  model = codes "anthropic/openai/x";
  system = "";
  description = "";
  environment_id = none;
  skills = nil;
  mcp_servers = nil;
  metadata = end;
}

abbrev rename : UpdateAgentRequest
rename = record {
  version = 1;
  name = some "bot2";
  provider = none;
  model = none;
  system = none;
  description = none;
  environment_id = none;
  skills = none;
  mcp_servers = none;
  metadata = none;
}

abbrev no_agents : Agents
no_agents = record { rows = []; versions = [] }

prefixed_agent_frozen_example :
    let u = (agents_create 3 7 body [] no_agents).0 in
    (find_agent 3 7 u.rows ≡ some (new_agent 3 body (codes "anthropic") (codes "openai/x") none))
    × ((x : Refusal) × (agent_update 3 7 rename [] u ≡ (u, err x))
        × Reason rename 1 (ModelError.other_prefix (codes "openai") (codes "anthropic")) x)
unfolding rstrip is_space resolve_environment
prefixed_agent_frozen_example =
    prefixed_agent_frozen 3 7 b'x' [] body rename [] [] none no_agents refl refl refl refl refl refl

normalize_provider_model-IsNormal_example :
    IsNormal (codes "openai", codes "gpt/5")
    × ((is_known_prefix (partition (codes "gpt/5")).0 ≡ true)
        ⊎ (normalize_provider_model (codes "openai") (codes "gpt/5")
            ≡ ok (codes "openai", codes "gpt/5")))
unfolding normalize_provider_model strip lstrip rstrip is_space partition is_supported
    is_known_prefix text_eq
normalize_provider_model-IsNormal_example =
    normalize_provider_model-IsNormal (codes " openai") (codes "openai/ gpt/5 ") (codes "openai")
      (codes "gpt/5") refl

abbrev bot : Agent
bot = new_agent 3 body (codes "openai") (codes "gpt") (some 5)

abbrev one_agent : Agents
one_agent = record { rows = (7, bot) ∷ []; versions = [] }

-- An explicit null for the environment, with a stale version the second time.
abbrev detach : UpdateAgentRequest
detach = record rename { environment_id = some none }

agent_update_outcome_example : Outcome 3 7 detach one_agent (agent_update 3 7 detach [] one_agent)
agent_update_outcome_example = agent_update_outcome 3 7 detach [] one_agent
