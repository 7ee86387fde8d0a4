-- ===== src/Queue/Repeat.antt =====
-- What a cycle leaves where the jobs that it submitted cannot be deleted.
use fluxqueue.Base.Str.{Str}
