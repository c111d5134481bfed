-- ===== src/Server/Config.antt =====
-- pkg/server/config.go
pub mod Laws
pub mod Accepts
pub mod Flags
use pmap.Base.{
  Bool, ◌||◌, Option, none, some, List, [], ◌∷◌, ◌++◌, Bytes, codes, ◌==◌, bytes_eq, if◌then◌else◌,
}
use pmap.Errors.{Err, plain, join}
use pmap.Go.Strings
use pmap.Go.Strings.{split, first}

abbrev pub allowed_scopes : List Bytes
allowed_scopes =
    codes "projects/{PROJECT_ID}"
    ∷ codes "projects/{PROJECT_NUMBER}"
    ∷ codes "folders/{FOLDER_NUMBER}"
    ∷ codes "organizations/{ORGNANIZATION_NUMBER}"
    ∷ []

-- `%v` of a `[]string`
unfoldable pub show_list : List Bytes → Bytes
unfolding Strings.join
show_list l = b'[' ∷ (Strings.join l (codes " ") ++ b']' ∷ [])

pub record HandlerConfig : Type 0 where
  pub port : Bytes
  pub project_id : Bytes
  pub success_topic_id : Bytes
  pub failure_topic_id : Bytes

pub record MappingHandlerConfig : Type 0 where
  pub default_resource_scope : Bytes
  pub handler_config : HandlerConfig

-- `HandlerConfig.Validate`
unfoldable pub validate : HandlerConfig → Option Err
validate cfg =
    if cfg.project_id == []
    then some (plain (codes "PROJECT_ID is empty and requires a value"))
    else if cfg.success_topic_id == []
    then some (plain (codes "PMAP_SUCCESS_TOPIC_ID is empty and requires a value"))
    else none

-- `if c { retErr = errors.Join(retErr, err) }`
unfoldable pub join_if : Bool → Bytes → Option Err → Option Err
unfolding join
join_if c text e = if c then join e (some (plain text)) else e

-- The cases of the `switch` on the scope.
unfoldable pub is_scope_kind : Bytes → Bool
is_scope_kind s = s == codes "projects" || (s == codes "folders" || s == codes "organizations")

abbrev pub no_failure_topic : Bytes
no_failure_topic = codes "PMAP_FAILURE_TOPIC_ID is empty and require a value for mapping service"

unfoldable pub no_scope : Bytes
unfolding show_list
no_scope =
    codes "PMAP_MAPPING_DEFAULT_RESOURCE_SCOPE is empty, allowed values are: "
    ++ show_list allowed_scopes

unfoldable pub bad_scope : Bytes → Bytes
unfolding show_list
bad_scope scope =
    codes "PMAP_MAPPING_DEFAULT_RESOURCE_SCOPE: "
    ++ (scope ++ (codes " is required in one of the formats: " ++ show_list allowed_scopes))

-- `MappingHandlerConfig.Validate`
unfoldable pub validate_mapping : MappingHandlerConfig → Option Err
validate_mapping cfg =
    let base = validate cfg.handler_config in
    let e0 = join none base in
    let e1 = join_if (cfg.handler_config.failure_topic_id == []) no_failure_topic e0 in
    let e2 = join_if (cfg.default_resource_scope == []) no_scope e1 in
    let scope = first (split cfg.default_resource_scope (codes "/")) in
    if is_scope_kind scope
    then e2
    else join e2 (some (plain (bad_scope cfg.default_resource_scope)))
