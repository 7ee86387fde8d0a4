-- ===== src/Tests/Jgf.antt =====
-- A graph of a cluster, a node and a core.
use fluxqueue.Base.{[], arith}
use fluxqueue.Base.Int.{pos}
use fluxqueue.Base.Str.{str}
use fluxqueue.Jgf.{
  Node, FluxJgf, new_flux_jgf, counted, make_subnet, make_below, root_resource, make_new_node,
  default_size,
}
use fluxqueue.Jgf.Clean.{IsPlain}
use fluxqueue.Jgf.Invariant.{IsValid, new_flux_jgf-IsValid}
use fluxqueue.Jgf.Growth.{make_subnet-IsValid, make_below-IsValid}

abbrev one_subnet : FluxJgf
one_subnet = (make_subnet new_flux_jgf (str "subnet") (pos 0)).1

abbrev two_nodes : FluxJgf
two_nodes = (make_below (str "node") one_subnet (str "worker") (str "subnet0") [] (pos 1) (pos 0)).1

one_subnet-IsValid : IsValid one_subnet
unfolding new_flux_jgf
one_subnet-IsValid =
    make_subnet-IsValid new_flux_jgf new_flux_jgf-IsValid (omega arith) (str "subnet") (pos 0)

two_nodes-IsValid : IsValid two_nodes
unfolding new_flux_jgf make_subnet make_new_node counted
two_nodes-IsValid =
    make_below-IsValid one_subnet one_subnet-IsValid (omega arith) (str "node") (str "worker")
      (str "subnet0") [] (pos 1) (pos 0)

abbrev first_node : Node
first_node = (make_subnet new_flux_jgf (str "subnet") (pos 0)).0

abbrev started : Node × FluxJgf
started =
    make_new_node (root_resource new_flux_jgf (str "k8s")).1
      (root_resource new_flux_jgf (str "k8s")).0 [] [] default_size

k8s-IsPlain : IsPlain (str "k8s0")
k8s-IsPlain = record {
  filled = λ e. cc;
  no_slash = (omega arith);
  not_dot = λ e. cc;
  not_dots = λ e. cc;
}

subnet-IsPlain : IsPlain (str "subnet0")
subnet-IsPlain = record {
  filled = λ e. cc;
  no_slash = (omega arith);
  not_dot = λ e. cc;
  not_dots = λ e. cc;
}

worker-IsPlain : IsPlain (str "worker1")
worker-IsPlain = record {
  filled = λ e. cc;
  no_slash = (omega arith);
  not_dot = λ e. cc;
  not_dots = λ e. cc;
}
