-- ===== src/Api/Gvkr.antt =====
-- api/v1/gvkr.go: names of API groups, kinds and resources.
use wing.Base.{String, ◌<>◌}

pub record GroupVersionKindResource : Type 0 where
  pub group : String
  pub version : String
  pub kind : String
  pub resource : String

pub record GroupResource : Type 0 where
  pub group : String
  pub resource : String

unfoldable pub group_resource : GroupVersionKindResource → GroupResource
group_resource gvkr = record { group = gvkr.group; resource = gvkr.resource }

unfoldable pub gvk_string : GroupVersionKindResource → String
gvk_string gvkr = gvkr.group <> "/" <> gvkr.version <> "." <> gvkr.kind

pub record CrossVersionObjectReference : Type 0 where
  pub kind : String
  pub name : String
  pub api_version : String
