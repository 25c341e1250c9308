-- ===== src/Utils/Gvkr.antt =====
-- utils/gvkr.go: the resource behind an API version and a kind, and the cache of scalable resources.
-- The REST mapper and schema.ParseGroupVersion are arguments.
use wing.Base.{
  if◌then◌else◌, Dict, lookup, insert, ◌<>◌, Result, and_then, ok, String, Bool, true, false, none,
  some, [], ◌∷◌, ◌==◌,
}
use wing.Api.Gvkr.{GroupVersionKindResource, GroupResource}

abbrev pub default_version : String
default_version = "v1"

abbrev pub default_group : String
default_group = "apps"

abbrev pub default_kind : String
default_kind = "Deployment"

abbrev pub default_resource : String
default_resource = "deployments"

pub record Mapper : Type 0 where
  -- Group, then version.
  pub parse_group_version : String → Result (String × String)
  -- The resource for a group, a kind and a version.
  pub rest_mapping : String → String → String → Result String

unfoldable pub get_resource : Mapper → String → String → String → Result String
get_resource mapper group version kind =
    if kind == default_kind
    then ok default_resource
    else if kind == "StatefulSet"
    then ok "statefulsets"
    else mapper.rest_mapping group kind version

unfoldable pub group_version_of : Mapper → String → Result (String × String)
group_version_of mapper api_version =
    if api_version == ""
    then ok (default_group, default_version)
    else mapper.parse_group_version api_version

unfoldable pub parse_gvkr : Mapper → String → String → Result GroupVersionKindResource
unfolding get_resource group_version_of
parse_gvkr mapper api_version kind = and_then (group_version_of mapper api_version) λ gv.
    let kind' = if kind == "" then default_kind else kind in
    and_then (get_resource mapper gv.0 gv.1 kind')
      λ resource. ok (record { group = gv.0; version = gv.1; kind = kind'; resource = resource })

-- `GroupResource.String` of apimachinery: the resource, and the group behind a dot if there is one.
abbrev pub group_resource_text : GroupResource → String
group_resource_text gr = if gr.group == "" then gr.resource else gr.resource <> "." <> gr.group

-- The second key is spelled as the source spells it.
abbrev pub prefilled_cache : Dict Bool
prefilled_cache = ("deployments.apps", true) ∷ ("statefusets.apps", true) ∷ []

unfoldable pub get_group_resource_known_scalable : Dict Bool → String → Bool × Bool
unfolding lookup
get_group_resource_known_scalable cache key = elim (lookup key cache) [
  | none ↦ (false, false)
  | some scalable ↦ (scalable, true)
]

unfoldable pub set_group_resource_known_scalable : Dict Bool → String → Bool → Dict Bool
unfolding insert
set_group_resource_known_scalable cache key scalable = insert key scalable cache
