-- ===== src/Tests/Repeat.antt =====
-- A database that can be read and not written.
use mathlib.Core.List.{reverse}
use fluxqueue.Base.{List, [], ◌∷◌, map}
use fluxqueue.Base.Str.{str}
use fluxqueue.Service.{Services, remote, replied, refused}
use fluxqueue.Service.Calls.{PendingRow}
use fluxqueue.Queue.{pending_row}
use fluxqueue.Queue.Pending.{model_of_row}
use fluxqueue.Tests.Database.{willing, sample_job}

abbrev one_row : List PendingRow
one_row = pending_row sample_job ∷ []

unfoldable read_only : Services
unfolding willing
read_only = record willing {
  insert_pending = λ t r. refused (remote (str "read only"));
  delete_pending = λ t name namespace. refused (remote (str "read only"));
  collect_pending = λ t. replied (map model_of_row (reverse one_row));
}
