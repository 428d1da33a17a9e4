-- ===== src/Apps/Permissions.antt =====
-- Permissions: manifestPermissions and permissionDelta of services/apps/registry.go,
-- extractPermissions and isPermissionExpansion of services/apps/handlers.go.
pub mod Sort
pub mod Delta
use messages.Base.{
  Bool, true, false, not, ◌&&◌, ◌||◌, Option, none, some, List, [], ◌∷◌, Text, text_eq, is_empty,
  length, leb, if◌then◌else◌,
}
use messages.Json.{Json, array, Items, nil, cons, Fields, end, get_field, string_or_empty}
use messages.Text.{codes}
use messages.Apps.Types.{Release}
use messages.Apps.Manifest.{trimmed_strings, items_or_nil}
use Sort.{sort, compact, mem}

-- An absent or null entry gives the nil list, as any value that is not an array does.
unfoldable pub manifest_permissions : Fields → List Text
manifest_permissions raw =
    compact (sort (trimmed_strings (items_or_nil (get_field (codes "permissions") raw))))

-- The values of the second list that are not in the first.
unfoldable pub missing_from : List Text → List Text → List Text
missing_from set [] = []
missing_from set (v ∷ vs) = let rest = missing_from set vs in if mem v set then rest else v ∷ rest

unfoldable pub added_permissions : Fields → Fields → List Text
added_permissions installed candidate =
    compact (sort (missing_from (manifest_permissions installed) (manifest_permissions candidate)))

unfoldable pub permission_delta : Option Release → Option Release → List Text × List Text
permission_delta (some installed) (some candidate) = (
  added_permissions installed.manifest candidate.manifest,
  added_permissions candidate.manifest installed.manifest,
)
permission_delta _ _ = ([], [])

unfoldable pub string_values : Items → List Text
string_values nil = []
string_values (cons v vs) =
    let s = string_or_empty (some v) in
    let rest = string_values vs in if is_empty s then rest else s ∷ rest

unfoldable pub extract_permissions : Fields → List Text
extract_permissions manifest =
    string_values (items_or_nil (get_field (codes "permissions") manifest))

-- The loop over the current permissions: one of them is not among the previous.
unfoldable pub has_new_permission : List Text → List Text → Bool
has_new_permission previous [] = false
has_new_permission previous (p ∷ ps) = not (mem p previous) || has_new_permission previous ps

unfoldable pub is_permission_expansion : List Text → List Text → Bool
unfolding has_new_permission
is_permission_expansion previous current =
    if leb (length current) (length previous) then false else has_new_permission previous current
