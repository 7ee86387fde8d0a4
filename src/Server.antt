-- ===== src/Server.antt =====
-- pkg/service/service.go: the gRPC service for other programs, on top of the generated stub. Only
-- GetResources has an answer of its own, which it reads from the file that InitFluxion wrote.
pub mod Graph
use fluxqueue.Base.{Option, none, some, List, [], ◌∷◌}
use fluxqueue.Base.Int.{ℤ, pos}
use fluxqueue.Base.Str.{Str}
use fluxqueue.Service.{Services, Error, Reply, replied, refused}
use fluxqueue.Service.Calls.{Call}
use fluxqueue.Cluster.Init.{graph_file}

pub record GroupRequest : Type 0 where
  pub group : Str

pub record GroupResponse : Type 0 where
  pub name : Str
  pub size : ℤ

pub record ResourceResponse : Type 0 where
  pub graph : Str

abbrev empty_group : GroupResponse
empty_group = record { name = []; size = pos 0 }

-- A response, beside an error if there is one.
unfoldable pub get_group : GroupRequest → GroupResponse × Option Error
get_group request = (empty_group, none)

unfoldable pub list_groups : GroupRequest → GroupResponse × Option Error
list_groups request = (empty_group, none)

abbrev pub resource_response : Reply Str → ResourceResponse × Option Error
resource_response (replied jgf) = (record { graph = jgf }, none)
resource_response (refused e) = (record { graph = [] }, some e)

module _ (S : Services) where
  unfoldable pub get_resources : List Call → (ResourceResponse × Option Error) × List Call
  get_resources t = (resource_response (S.read_file t graph_file), Call.read_file graph_file ∷ t)
