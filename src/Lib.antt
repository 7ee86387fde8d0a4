-- ===== src/Lib.antt =====
-- fluxqueue is a Kubernetes controller that queues work for the Fluxion graph scheduler. A FluxJob
-- wraps a job, a pod or a set of pods; the controller puts it into a table of pending jobs; a
-- scheduling cycle hands the table's rows to a river queue; workers ask Fluxion for nodes and
-- release the pods with the nodes as labels; a scheduler plugin reads the labels and binds each pod.
--
-- Base       lists, integers, byte strings, decimal numbers and association lists
-- Types      api/v1alpha1/fluxjob_types.go, pkg/fluxqueue/types, pkg/types, the workers' arguments
-- Service    what the program asks of PostgreSQL, river, Fluxion and the Kubernetes API
-- Jgf        pkg/jgf: the resource graph
-- Jobspec    pkg/jobspec: the resources that a pod's containers ask for
-- Webhook    api/v1alpha1/fluxjob_webhook.go, fluxjob_enqueue.go, submit.go: from a new object to its
--            FluxJob
-- Strategy   pkg/fluxqueue/strategy: the interface and the strategy "easy"
-- Queue      pkg/fluxqueue/fluxqueue.go, events.go, queries: NewQueue, Enqueue, Schedule, Cleanup
-- Workers    pkg/fluxqueue/strategy/workers: Job (with Nodes, Release and Gate), Ungate,
--            Reservation, Cleanup
-- Plugin     build/scheduler/pkg/scheduler: Less and PreFilter
-- Controller internal/controller: Reconcile, submitJob, updateStatus, the handler of deleted pods,
--            the reconciler's set-up
-- Cluster    internal/controller/cluster.go: the graph of the cluster's nodes, a client of Jgf, and
--            its way to Fluxion
-- Group      pkg/fluxqueue/group and labels: the groups of pods, which no other part uses
-- Server     pkg/service: the gRPC service over the file of the cluster's graph
-- Manager    cmd/manager/main.go: init, the order of the set-up, and how main ends
-- System     all handlers and workers over the same services, as a step relation; Ledger has the rules
--            by which a property of one job's calls is kept by every step
-- Tests      concrete inputs at which the results apply
--
-- Functions have the source's names in snake case. None of the outside services is in this
-- repository, so their replies are the fields of one record, `Services`, and a parameter of every
-- method; each reply may depend on all calls made before. A method is a function from the calls
-- made so far, the latest first, to a result, an error or a panic, with the calls made then. The
-- tables of pending jobs and of reservations are computed from the calls and their replies; that
-- this program is the only writer of the first, its unique index and the order of a read are the
-- hypotheses of `IsDatabase`. Whether the insert of a reservation takes place is a parameter, as its
-- error is reported where reserveJob does not look; what pgx does with the columns of the
-- reservation worker's query is a hypothesis. Contents of a Go error that are made from another error's text are left out.
--
-- Strings are lists of bytes. Numbers are natural numbers, and integers where the source has
-- signed ones; the counters of the graph wrap around at 2^63, the loop index of the strategy and
-- the CPUs of a jobspec at 2^31, its other sums and the differences of the cluster's graph at
-- 2^63, and a number that is parsed is limited to 64 bits as ParseInt does, the size of a group to
-- 32. Maps are association lists. No definition needs fuel: every loop is over a list or counts
-- down.
--
-- A new object is held back by the webhook, which creates its FluxJob; Reconcile enqueues it and
-- runs a cycle; the job worker releases it, for a set of pods through the ungate worker; a pod's
-- deletion queues a cancel. System takes each request, reconciliation, event or task as one step,
-- which is made whole before the next; a task may be worked once river has taken it, any number of
-- times, and what the services reply is free. It starts after any calls of the set-up, among them those
-- that main makes before it starts the manager. In main, os.Exit is an error, which runs no deferred
-- call, and a result says whether main returns, on which deferred calls run, or waits for ever.
--
-- Not modelled: the logs, the timeouts, the JSON encodings, the parser of the flags, handlers that
-- run at the same moment, generated code, the scheduler's entry point, and
-- internal/controller/resources.go, a copy of a Kubernetes helper.
pub mod Base
pub mod Types
pub mod Service
pub mod Jgf
pub mod Jobspec
pub mod Webhook
pub mod Strategy
pub mod Queue
pub mod Workers
pub mod Plugin
pub mod Controller
pub mod Cluster
pub mod Server
pub mod Manager
pub mod System
pub mod Group
pub mod Tests
