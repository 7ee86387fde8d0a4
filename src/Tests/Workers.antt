-- ===== src/Tests/Workers.antt =====
-- The workers over the services of `willing`.
use mathlib.Core.List.{head?}
use fluxqueue.Base.{◌≡◌, ◌≢◌, refl, true, false, some, List, [], ◌∷◌, arith}
use fluxqueue.Base.Int.{pos}
use fluxqueue.Base.Str.{Str, str, str_eq, in_list}
use fluxqueue.Base.Decimal.{format_int}
use fluxqueue.Types.{wrapped_string, MatchResponse, AllocationNode, UngateArgs}
use fluxqueue.Service.{Services, Error, failure, job_cancel, remote, err, panic, replied, refused}
use fluxqueue.Service.Calls.{Call}
use fluxqueue.Workers.Nodes.{parse_nodes, nodes_of}
use fluxqueue.Workers.Nodes.Distinct.{Distinct, has_vertex, nodes_of_lem}
use fluxqueue.Workers.Release.{reserve_job, release_job}
use fluxqueue.Workers.Job as Job
use fluxqueue.Workers.Job.{is_one, match_request, handle_response}
use fluxqueue.Workers.Job.Outcome.{release_call, work_ok, work_unallocated}
use fluxqueue.Workers.Reservation as Reservation
use fluxqueue.Workers.Reservation.Table.{AreCancelled, reservations, work-AreCancelled}
use fluxqueue.Workers.Reservation.Unread.{CollectsByName, cancel_count, work_unread}
use fluxqueue.Workers.Ungate.{has_gate, work_group}
use fluxqueue.Workers.Ungate.Bounds.{IsWilling, work_group-ne-panic, work_group_panics}
use fluxqueue.Tests.Database.{willing, sample_args, sample_graph, sample_reservations, sample_pod}

nodes_of_lem_example :
    Distinct (nodes_of sample_graph)
    × ((x : Str) → in_list x (nodes_of sample_graph) ≡ has_vertex x sample_graph)
nodes_of_lem_example = nodes_of_lem sample_graph

work_ok_example :
    (response : MatchResponse) × (graph : List AllocationNode) × (willing.match
        (Call.new_fluxion ∷ [])
        (match_request sample_args)
      ≡ replied response)
    × (response.allocation ≢ [])
    × (willing.unmarshal response.allocation ≡ replied graph)
    × (head? (Job.work willing sample_args []).1
        ≡ some (release_call sample_args response.job_id (nodes_of graph)))
unfolding willing Job.work reserve_job str_eq parse_nodes release_job wrapped_string format_int
work_ok_example = work_ok willing sample_args [] refl

-- A Fluxion that finds no place for any job.
unfoldable full : Services
unfolding willing
full = record willing {
  match = λ t r. replied (record { allocation = []; reserved = false; job_id = pos 0 });
}

work_unallocated_example :
    (Job.work full sample_args []).0
    ≡ err (job_cancel (failure (str "fluxion could not allocate nodes, likely Unsatisfiable")))
unfolding full willing
work_unallocated_example =
    work_unallocated full sample_args []
      (record { allocation = []; reserved = false; job_id = pos 0 }) refl refl refl

work-AreCancelled_example : AreCancelled willing (Reservation.work willing []).1
work-AreCancelled_example = work-AreCancelled willing [] tt

-- pgx finds no column for a field of the struct, and the table has two rows.
unfoldable unnamed : Services
unfolding willing
unnamed = record willing {
  collect_reservations =
      λ t. refused (remote (str "struct doesn't have corresponding row field row"));
}

unnamed-CollectsByName : CollectsByName unnamed (λ t name id. true) sample_reservations
unfolding unnamed
unnamed-CollectsByName = record { complete = λ t rows e. cc; by_name = λ t row rows e. cc }

work_unread_example :
    ((e : Error) × ((Reservation.work unnamed []).0 ≡ err e))
    × (cancel_count (Reservation.work unnamed []).1 ≡ cancel_count [])
    × (reservations unnamed (λ t name id. true) sample_reservations (Reservation.work unnamed []).1
        ≡ reservations unnamed (λ t name id. true) sample_reservations [])
unfolding reservations
work_unread_example =
    work_unread unnamed (λ t name id. true) sample_reservations [] unnamed-CollectsByName (λ e. cc)

abbrev one_node : UngateArgs
one_node = record {
  name = str "lammps";
  type = str "2";
  namespace = str "default";
  nodes = str "kind-worker" ∷ [];
  job_id = pos 12;
}

work_group-ne-panic_example : (work_group willing one_node []).0 ≢ panic
unfolding willing
work_group-ne-panic_example =
    work_group-ne-panic willing one_node [] (sample_pod ∷ []) refl (omega arith)

-- An API that lists two pods.
unfoldable scaled : Services
unfolding willing
scaled = record willing { list_pods = λ t namespace s. replied (sample_pod ∷ sample_pod ∷ []) }

scaled-IsWilling : IsWilling scaled one_node
unfolding scaled willing
scaled-IsWilling = record {
  reads = λ t namespace name. (sample_pod, refl);
  patches = λ t namespace name p. refl;
}

work_group_panics_example : (work_group scaled one_node []).0 ≡ panic
unfolding scaled willing has_gate str_eq
work_group_panics_example =
    work_group_panics scaled one_node [] (sample_pod ∷ sample_pod ∷ []) scaled-IsWilling refl
      (refl, (refl, tt)) (omega arith)
