-- ===== src/Version.antt =====
-- internal/version/version.go, as it is where the build process overrides nothing.
use pmap.Base.{◌++◌, Bytes, codes}

-- What the package `buildinfo` gives.
pub record BuildInfo : Type 0 where
  pub version : Bytes
  pub commit : Bytes
  pub os_arch : Bytes

-- `Name`
abbrev pub name : Bytes
name = codes "pmap"

-- `HumanVersion`: `fmt.Sprint` of strings puts nothing between them.
unfoldable pub human_version : BuildInfo → Bytes
human_version info =
    name
    ++ (codes " "
        ++ (info.version
            ++ (codes " (" ++ (info.commit ++ (codes ", " ++ (info.os_arch ++ codes ")"))))))
