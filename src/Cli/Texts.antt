-- ===== src/Cli/Texts.antt =====
-- `Desc` and `Help` of the commands of pkg/cli.
use pmap.Base.{Bytes, codes}

-- `MappingServerCommand`
unfoldable pub mapping_server_desc : Bytes
mapping_server_desc =
    codes
      "Start an Mapping server. Mapping server provides structured data annotation and metadata discovery."

unfoldable pub mapping_server_help : Bytes
mapping_server_help =
    codes
      "\nUsage: {{ COMMAND }} [options]\n\n  Start a Mapping server. Mapping server provides structured data annotation and metadata discovery.\n"

-- `PolicyServerCommand`
unfoldable pub policy_server_desc : Bytes
policy_server_desc =
    codes "Start an Policy server. Policy server provides retention planning solution."

unfoldable pub policy_server_help : Bytes
policy_server_help =
    codes
      "\nUsage: {{ COMMAND }} [options]\n\n  Start a Policy server. Policy server provides retention planning solution.\n"

-- `MappingValidateCommand`
unfoldable pub mapping_validate_desc : Bytes
mapping_validate_desc = codes "Validate resource mapping YAML files that exists in the given path"

unfoldable pub mapping_validate_help : Bytes
mapping_validate_help =
    codes
      "\nUsage: {{ COMMAND }} [options]\n\n  Validate resource mapping YAML files that exists in the given path:\n\n      pmap mapping validate -path \"/path/to/file\"\n"
