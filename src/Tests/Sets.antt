-- ===== src/Tests/Sets.antt =====
-- A deployment of one pod on its way to a node.
use fluxqueue.Base.{List, [], ◌∷◌, map}
use fluxqueue.Base.Int.{pos}
use fluxqueue.Base.Str.{str}
use fluxqueue.Types.{JobWrapped, FluxJob, UngateArgs, Pod}
use fluxqueue.Service.{Services}
use fluxqueue.Workers.Nodes.{nodes_of}
use fluxqueue.Service.Patches.{nodes_label}
use fluxqueue.System.Gated.{gated_task}
use fluxqueue.Tests.Database.{sample_job, sample_spec, sample_pod, sample_graph, reading}

abbrev web_job : FluxJob
web_job = record sample_job {
  name = str "web-deployment";
  spec = record sample_spec { name = str "web"; type = JobWrapped.deployment };
}

abbrev web : Services
web = reading (λ t. web_job)

abbrev web_task : UngateArgs
web_task = gated_task web_job (pos 12) (nodes_of sample_graph)

-- The pods as the plugin sees them, one for each node.
abbrev placed_pods : List Pod
placed_pods =
    map (λ node. record sample_pod { labels = (nodes_label, node) ∷ [] }) (nodes_of sample_graph)
