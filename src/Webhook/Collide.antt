-- ===== src/Webhook/Collide.antt =====
-- Objects of one name and different kinds: the FluxJobs that the webhook makes, and the rows of the
-- pending table.
use fluxqueue.Base.{◌≡◌, ◌≢◌, true, false, List, [], ◌∷◌, ◌++◌, arith}
use fluxqueue.Base.Int.{ℤ}
use fluxqueue.Base.Str.{Str, str, str_eq_refl}
use fluxqueue.Types.{JobWrapped, get_job_name, FluxJob}
use fluxqueue.Service.{Services}
use fluxqueue.Service.Calls.{Call, PendingRow}
use fluxqueue.Queue.{enqueue, pending_row}
use fluxqueue.Queue.Pending.{has_row, table, effect, IsDatabase}
use fluxqueue.Queue.Enqueue.{enqueued, table-enqueue}
use fluxqueue.Webhook.{flux_job}

append_cancel : (name s t : Str) → name ++ s ≡ name ++ t → s ≡ t
append_cancel [] s t h = h
append_cancel (c ∷ name) s t h = append_cancel name s t (ground (arith, h))

has_row-last :
    (rows : List PendingRow) (r : PendingRow) → has_row r.name r.namespace (rows ++ (r ∷ [])) ≡ true
unfolding has_row
has_row-last [] r = ground (arith, str_eq_refl r.name, str_eq_refl r.namespace)
has_row-last (q ∷ rows) r = ground (arith, has_row-last rows r)

enqueued_absent :
    (S : Services) (initial : List PendingRow) (spec : FluxJob) (t : List Call)
    → IsDatabase S initial
    → has_row spec.spec.name spec.namespace (table S initial t) ≡ true
    → enqueued (enqueue S spec t).0 ≡ false
unfolding enqueue table effect pending_row
enqueued_absent S initial spec t d there =
    let u : List Call = Call.is_pending spec.name spec.namespace ∷ Call.new_pool ∷ t in
    ground (arith, d.unique_index u (pending_row spec) there)

-- A pod and a job of one name and namespace get FluxJobs of different names, but right after Enqueue
-- of the pod has succeeded, Enqueue of the job does not, as the table's unique index refuses its row.
pub enqueue-same_name :
    (S : Services) (initial : List PendingRow) (name namespace js js' : Str) (nodes nodes' : ℤ)
    (t : List Call)
    → IsDatabase S initial
    → enqueued (enqueue S (flux_job JobWrapped.pod name namespace nodes js) t).0 ≡ true
    → (get_job_name JobWrapped.pod name ≢ get_job_name JobWrapped.job name)
      × (enqueued
            (enqueue S
              (flux_job JobWrapped.job name namespace nodes' js')
              (enqueue S (flux_job JobWrapped.pod name namespace nodes js) t).1).0
          ≡ false)
unfolding flux_job get_job_name pending_row
enqueue-same_name S initial name namespace js js' nodes nodes' t d first =
    let pod : FluxJob = flux_job JobWrapped.pod name namespace nodes js in
    let job : FluxJob = flux_job JobWrapped.job name namespace nodes' js' in
    let u : List Call = (enqueue S pod t).1 in
    (
      λ e. ground (arith, append_cancel name (str "-pod") (str "-job") e),
      enqueued_absent S initial job u d (
          ground (
            arith,
            first,
            table-enqueue S initial pod t,
            has_row-last (table S initial t) (pending_row pod),
          )),
    )
