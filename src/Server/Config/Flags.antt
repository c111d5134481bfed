-- ===== src/Server/Config/Flags.antt =====
-- The two `ToFlags` methods of pkg/server/config.go: the sections that they add to the flag set.
use pmap.Base.{◌≡◌, ◌≢◌, ◌↔◌, none, List, [], ◌∷◌, ◌++◌, Bytes, codes}
use pmap.Go.Flags.{Section, assign}
use pmap.Server.Config.{
  HandlerConfig, MappingHandlerConfig, allowed_scopes, show_list, validate_mapping,
}
use pmap.Server.Config.Accepts.{HasKind, validate_mapping-none_iff}

module _ {C : Type 0} (at : (HandlerConfig → HandlerConfig) → C → C) where
  -- `HandlerConfig.ToFlags`, for a configuration that stands inside of `C`.
  unfoldable pub handler_flags : List (Section C)
  handler_flags =
      record {
        title = codes "COMMON SERVER OPTIONS";
        vars =
            record {
              name = codes "port";
              target = λ v. at (λ cfg. record cfg { port = v });
              env_var = codes "PORT";
              default = codes "8080";
              example = [];
              usage = codes "The port the server listens to.";
            }
            ∷ record {
              name = codes "project-id";
              target = λ v. at (λ cfg. record cfg { project_id = v });
              env_var = codes "PROJECT_ID";
              default = [];
              example = [];
              usage = codes "Google Cloud project ID.";
            }
            ∷ record {
              name = codes "success-topic-id";
              target = λ v. at (λ cfg. record cfg { success_topic_id = v });
              env_var = codes "PMAP_SUCCESS_TOPIC_ID";
              default = [];
              example = codes "test-success-topic";
              usage =
                  codes "The topic id which handles the resources that are processed successfully.";
            }
            ∷ record {
              name = codes "failure-topic-id";
              target = λ v. at (λ cfg. record cfg { failure_topic_id = v });
              env_var = codes "PMAP_FAILURE_TOPIC_ID";
              default = [];
              example = codes "test-failure-topic";
              usage = codes "The topic id which handles the resources that failed to process.";
            }
            ∷ [];
      }
      ∷ []

-- `HandlerConfig.ToFlags`
abbrev pub to_flags : List (Section HandlerConfig)
to_flags = handler_flags (λ change. change)

abbrev on_handler : (HandlerConfig → HandlerConfig) → MappingHandlerConfig → MappingHandlerConfig
on_handler change cfg = record cfg { handler_config = change cfg.handler_config }

-- `MappingHandlerConfig.ToFlags`
unfoldable pub mapping_to_flags : List (Section MappingHandlerConfig)
unfolding handler_flags show_list
mapping_to_flags =
    handler_flags on_handler
    ++ record {
      title = codes "MAPPING SERVER OPTIONS";
      vars =
          record {
            name = codes "default-resource-scope";
            target = λ v cfg. record cfg { default_resource_scope = v };
            env_var = codes "PMAP_MAPPING_DEFAULT_RESOURCE_SCOPE";
            default = [];
            example = codes "projects/test-project-id";
            usage =
                codes "The default scope to search for resources. Format: "
                ++ show_list allowed_scopes;
          }
          ∷ [];
    }
      ∷ []

-- `&server.MappingHandlerConfig{}`
abbrev pub zero_config : MappingHandlerConfig
zero_config = record {
  default_resource_scope = [];
  handler_config = record {
    port = [];
    project_id = [];
    success_topic_id = [];
    failure_topic_id = [];
  };
}

-- Whatever values the parser gives the flags, the mapping server's configuration is valid exactly if
-- the flags of the project and of both topics have values, and the flag of the scope has one of the
-- three kinds, alone or with a slash and any text behind it. Each is read under its own name and
-- environment variable, with no default.
pub validate_mapping-flags_iff :
    (value : Bytes → Bytes → Bytes → Bytes)
    → (validate_mapping (assign value mapping_to_flags zero_config) ≡ none) ↔ (
        (value (codes "project-id") (codes "PROJECT_ID") [] ≢ [])
        × (value (codes "success-topic-id") (codes "PMAP_SUCCESS_TOPIC_ID") [] ≢ [])
        × (value (codes "failure-topic-id") (codes "PMAP_FAILURE_TOPIC_ID") [] ≢ [])
        × HasKind (
            value
              (codes "default-resource-scope")
              (codes "PMAP_MAPPING_DEFAULT_RESOURCE_SCOPE")
              []))
unfolding mapping_to_flags handler_flags
validate_mapping-flags_iff value =
    validate_mapping-none_iff (assign value mapping_to_flags zero_config)
