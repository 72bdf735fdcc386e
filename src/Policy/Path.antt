-- ===== src/Policy/Path.antt =====
-- policy/utils.go: a request context as a map, and the keys with dots that walk down into it.
use concrnt_playground.Prelude.{
  String, Option, none, some, List, [], ◌∷◌, ◌==◌, string_eq, if◌then◌else◌, split,
}
use concrnt_playground.Policy.{Value, obj, Fields, end, field, RequestContext}

-- `m[k]` with its `ok`
unfoldable pub get : String → Fields → Option Value
get k end = none
get k (field j v m) = if j == k then some v else get k m

-- The loop of resolveDotNotation over the parts of the key.
unfoldable pub walk : List String → Fields → Option Value
walk [] current = none
walk (k ∷ []) current = get k current
walk (k ∷ ks) current = elim (get k current) [ some (obj next) ↦ walk ks next | _ ↦ none ]

unfoldable pub resolve_dot_notation : Fields → String → Option Value
unfolding split
resolve_dot_notation m key = walk (split "." key) m

-- structToMap at a RequestContext, by the `json` tags of its fields
unfoldable pub struct_to_map : RequestContext → Fields
struct_to_map ctx = field "requester" ctx.requester (
    field "requester_domain" ctx.requester_domain
      (field "parent" ctx.parent (field "this" ctx.this (field "params" (obj ctx.params) end))))
