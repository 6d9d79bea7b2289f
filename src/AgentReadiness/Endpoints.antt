-- ===== src/AgentReadiness/Endpoints.antt =====
-- internal/agentreadiness/wellknown.go and the checks of runner.go that decide by themselves. The keys
-- of the JSON object in a body, `none` where there is no object, are an argument.
use seo_crawler_mcp.Prelude.{
  ℕ, Bool, true, false, ◌&&◌, Option, none, some, List, [], ◌∷◌, Bytes, codes, bytes_eq, bytes_mem,
  all, ltb, leb, if◌then◌else◌,
}
use seo_crawler_mcp.AgentReadiness.{
  pass, fail, optional, Category, discoverability, bot_access_control, protocol_discovery, commerce,
  CheckResult,
}

pub record HttpProbe : Type 0 where
  pub status : Option ℕ
  pub body_preview : Bytes

pub record EndpointDefinition : Type 0 where
  pub category : Category
  pub check_key : Bytes
  pub endpoint : Bytes
  pub required_fields : List Bytes
  pub recommendation : Bytes
  pub is_optional : Bool

unfoldable pub single_endpoint_checks : List EndpointDefinition
single_endpoint_checks =
    record {
      category = bot_access_control;
      check_key = codes "web_bot_auth";
      endpoint = codes "/.well-known/http-message-signatures-directory";
      required_fields = [];
      recommendation =
          codes
            "Publish a Web Bot Auth HTTP message signatures directory if you require signed bot requests.";
      is_optional = false;
    }
    ∷ record {
      category = protocol_discovery;
      check_key = codes "api_catalog";
      endpoint = codes "/.well-known/api-catalog";
      required_fields = codes "linkset" ∷ [];
      recommendation =
          codes
            "Publish an API Catalog at /.well-known/api-catalog with service-desc, service-doc, and status relations.";
      is_optional = false;
    }
    ∷ record {
      category = protocol_discovery;
      check_key = codes "oauth_protected_resource";
      endpoint = codes "/.well-known/oauth-protected-resource";
      required_fields = codes "authorization_servers" ∷ [];
      recommendation =
          codes
            "Publish OAuth Protected Resource metadata so agents can discover how to obtain access tokens.";
      is_optional = false;
    }
    ∷ record {
      category = commerce;
      check_key = codes "ucp";
      endpoint = codes "/.well-known/ucp";
      required_fields = [];
      recommendation = codes "Publish a UCP profile only if the site supports agentic commerce.";
      is_optional = true;
    }
    ∷ record {
      category = commerce;
      check_key = codes "acp";
      endpoint = codes "/.well-known/acp.json";
      required_fields = [];
      recommendation =
          codes "Publish an ACP discovery document only if the site supports agentic commerce.";
      is_optional = true;
    }
    ∷ record {
      category = commerce;
      check_key = codes "mpp";
      endpoint = codes "/openapi.json";
      required_fields = [];
      recommendation =
          codes
            "Expose machine-payment metadata in OpenAPI only if the API supports machine payments.";
      is_optional = true;
    }
    ∷ []

-- An endpoint of a check that has several.
unfoldable pub discovery : Bytes → Bytes → Bytes → EndpointDefinition
discovery check_key endpoint field = record {
  category = protocol_discovery;
  check_key = check_key;
  endpoint = endpoint;
  required_fields = field ∷ [];
  recommendation = [];
  is_optional = false;
}

unfoldable pub multi_endpoint_checks : List (Bytes × List EndpointDefinition)
multi_endpoint_checks =
    (
      codes "oauth_oidc_discovery",
      discovery (codes "oauth_oidc_discovery") (codes "/.well-known/openid-configuration")
            (codes "issuer")
          ∷ discovery (codes "oauth_oidc_discovery")
              (codes "/.well-known/oauth-authorization-server") (codes "issuer")
          ∷ [],
    )
    ∷ (
      codes "mcp_server_card",
      discovery (codes "mcp_server_card") (codes "/.well-known/mcp/server-cards.json")
            (codes "server")
          ∷ discovery (codes "mcp_server_card") (codes "/.well-known/mcp.json") (codes "server")
          ∷ discovery (codes "mcp_server_card") (codes "/.well-known/mcp/server-card.json")
              (codes "server")
          ∷ [],
    )
    ∷ (
      codes "agent_skills",
      discovery (codes "agent_skills") (codes "/.well-known/agent-skills/index.json")
            (codes "skills")
          ∷ discovery (codes "agent_skills") (codes "/.well-known/skills/index.json")
              (codes "skills")
          ∷ [],
    )
    ∷ []

unfoldable pub recommendation_for_multi : Bytes → Bytes
recommendation_for_multi check_key =
    if bytes_eq check_key (codes "oauth_oidc_discovery")
    then codes
        "Publish OAuth/OIDC discovery metadata so agents can authenticate with protected APIs."
    else if bytes_eq check_key (codes "mcp_server_card")
    then codes
        "Publish an MCP Server Card under /.well-known so agents can discover available MCP transport and capabilities."
    else if bytes_eq check_key (codes "agent_skills")
    then codes "Publish an Agent Skills index with skill names, descriptions, URLs, and digests."
    else codes "Publish the relevant well-known discovery metadata."

-- A status of success.
unfoldable pub is_success : Option ℕ → Bool
is_success none = false
is_success (some code) = leb 200 code && ltb code 300

module _ (keys_of : Bytes → Option (List Bytes)) where
  unfoldable pub body_has_fields : Bytes → List Bytes → Bool
  body_has_fields body [] = true
  body_has_fields body (field ∷ fields) = elim (keys_of body) [
    | none ↦ false
    | some keys ↦ all (λ f. bytes_mem f keys) (field ∷ fields)
  ]

  -- The answer to a probe is what its endpoint is for.
  unfoldable pub answers : EndpointDefinition → HttpProbe → Bool
  answers def probe =
      is_success probe.status && body_has_fields probe.body_preview def.required_fields

  unfoldable pub evaluate_endpoint : Bytes → EndpointDefinition → HttpProbe → CheckResult
  evaluate_endpoint target_url def probe = record {
    category = def.category;
    check_key = def.check_key;
    status = if answers def probe then pass else if def.is_optional then optional else fail;
    score = if answers def probe then 100 else 0;
    target_url = target_url;
    endpoint = def.endpoint;
    method = codes "GET";
    response_status = probe.status;
    recommendation = if answers def probe then [] else def.recommendation;
  }

  -- The first probe that answers, each with its definition.
  unfoldable pub first_answer :
      List (EndpointDefinition × HttpProbe) → Option (EndpointDefinition × HttpProbe)
  first_answer [] = none
  first_answer ((def, probe) ∷ rest) =
      let later = first_answer rest in if answers def probe then some (def, probe) else later

  -- There is at least one definition, which is the first argument with its probe.
  unfoldable pub evaluate_multi_endpoint :
      Bytes
      → Bytes
      → EndpointDefinition × HttpProbe
      → List (EndpointDefinition × HttpProbe)
      → CheckResult
  evaluate_multi_endpoint target_url check_key (def, probe) rest =
      let answer = first_answer ((def, probe) ∷ rest) in
      record {
        category = def.category;
        check_key = check_key;
        status = elim answer [ none ↦ fail | some _ ↦ pass ];
        score = elim answer [ none ↦ 0 | some _ ↦ 100 ];
        target_url = target_url;
        endpoint = elim answer [ none ↦ def.endpoint | some (found, _) ↦ found.endpoint ];
        method = codes "GET";
        response_status = elim answer [ none ↦ probe.status | some (_, found) ↦ found.status ];
        recommendation = elim answer [ none ↦ recommendation_for_multi check_key | some _ ↦ [] ];
      }

-- What the database knows of llms.txt on the host: a finding, and whether the file is there.
unfoldable pub evaluate_llms_txt : Bytes → Option Bool → CheckResult
evaluate_llms_txt target finding =
    let present : Bool = elim finding [ none ↦ false | some b ↦ b ] in
    record {
      category = discoverability;
      check_key = codes "llms_txt";
      status = if present then pass else fail;
      score = if present then 100 else 0;
      target_url = target;
      endpoint = codes "/llms.txt";
      method = codes "GET";
      response_status = none;
      recommendation =
          if present then [] else codes "Publish /llms.txt to summarize the site for agents.";
    }

unfoldable pub evaluate_web_mcp : Bytes → CheckResult
evaluate_web_mcp homepage = record {
  category = protocol_discovery;
  check_key = codes "webmcp";
  status = fail;
  score = 0;
  target_url = homepage;
  endpoint = codes "browser:navigator.modelContext";
  method = codes "BROWSER";
  response_status = none;
  recommendation =
      codes
        "Expose browser tools through WebMCP only if the site has actions agents should invoke from the page.";
}
