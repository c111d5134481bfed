-- ===== src/Mapping/Scope.antt =====
-- `parseScope` of pkg/mapping/processors/assetinventory.go.
pub mod Laws
use pmap.Base.{
  Bool, true, false, ◌||◌, List, [], ◌∷◌, ◌++◌, Bytes, codes, ◌==◌, bytes_eq, if◌then◌else◌,
}
use pmap.Errors.{Err, plain}
use pmap.Errors.Fallible.{Fallible, value, failed}
use pmap.Go.Strings.{split, first}

-- The cases of the `switch`.
unfoldable pub is_scope_word : Bytes → Bool
is_scope_word e = e == codes "projects" || (e == codes "folders" || e == codes "organizations")

-- `i+1 >= len(s) || s[i+1] == ""`, for the segments `s[i+1:]`
unfoldable pub is_dangling : List Bytes → Bool
is_dangling [] = true
is_dangling (r ∷ rest) = r == []

unfoldable pub invalid_name : Bytes → Err
invalid_name name = plain (codes "invalid resource name: " ++ name)

unfoldable pub scope_text : Bytes → Bytes → Bytes
scope_text scope_prefix scope = if scope == [] then [] else scope_prefix ++ (codes "/" ++ scope)

-- The loop over the segments that are left, with `scopePrefix` and `scope`.
unfoldable pub scan : Bytes → List Bytes → Bytes → Bytes → Fallible Bytes
scan name [] scope_prefix scope = value (scope_text scope_prefix scope)
scan name (e ∷ rest) scope_prefix scope =
    let hit = scan name rest e (first rest) in
    let miss = scan name rest scope_prefix scope in
    if is_scope_word e then (if is_dangling rest then failed (invalid_name name) else hit) else miss

unfoldable pub parse_scope : Bytes → Fallible Bytes
unfolding scan
parse_scope name = scan name (split name (codes "/")) [] []
