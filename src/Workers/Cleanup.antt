-- ===== src/Workers/Cleanup.antt =====
-- cleanup.go: the cancel of a Fluxion job.
use fluxqueue.Base.{List, if◌then◌else◌}
use fluxqueue.Base.Int.{ℤ, negsuc, ltb_ℤ}
use fluxqueue.Base.Str.{str}
use fluxqueue.Types.{CleanupArgs}
use fluxqueue.Service.{Services, Result, ok, err, panic, failure, M, ◌>>◌, pure, perform}
use fluxqueue.Service.Calls.{Call}

abbrev pub retold : Result (Unit {0}) → List Call → Result (Unit {0}) × List Call
retold (ok u) t = (ok tt, t)
retold (err e) t = (err (failure (str "[Fluxion] Issue with cancel")), t)
retold panic t = (panic, t)

module _ (S : Services) where
  unfoldable pub delete_fluxion : ℤ → M (Unit {0})
  delete_fluxion flux_id = perform S.new_fluxion Call.new_fluxion >> λ t.
      let r = perform (λ u. S.cancel u flux_id) (Call.cancel flux_id) t in retold r.0 r.1

  unfoldable pub cleanup : ℤ → M (Unit {0})
  unfolding delete_fluxion
  cleanup flux_id = if ltb_ℤ (negsuc 0) flux_id then delete_fluxion flux_id else pure tt

  unfoldable pub work : CleanupArgs → M (Unit {0})
  unfolding cleanup
  work args = cleanup args.flux_id
