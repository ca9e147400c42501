-- ===== src/Recon/Faults.antt =====
-- A run of src/botik/execution/reconciliation_service.py whose database raises at the end: it ends
-- as one that raises nothing, or it has failed.
use botik.Base.{◌≡◌, refl, Bool, true, false, arith, if_kept}
use botik.Base.Float.{Float}
use botik.Recon.Service.{RunStatus, Service, Recon, audit}
use botik.Recon.Run.{
  Fault, Answers, start_run, end_run, fail_run, close_run, finish_run, close_or_fail, steps, run,
}

-- A run whose database raises nothing.
unfoldable pub plain_run : {F : Type 0} ⦃fl : Float F⦄ → Service → Answers F → Recon F → Recon F
plain_run v a s = let (raised, s') = steps v a (start_run s) in close_run v raised s'

module _ {F : Type 0} (v : Service) where
  -- What ends as `plain` does, if it ends well.
  record EndsAs (plain s : Recon F) : Type 0 where
    pub same : s.summary.status ≡ RunStatus.success → s ≡ plain

  fails : (plain s : Recon F) → EndsAs plain (fail_run s)
  unfolding end_run audit
  fails plain s = record { same = λ h. ground (arith, h) }

  finish_run-EndsAs : (f : Fault) (s : Recon F) → EndsAs (close_run v false s) (finish_run v f s)
  unfolding finish_run
  finish_run-EndsAs Fault.no_fault s = record { same = λ h. refl }
  finish_run-EndsAs Fault.at_query s = fails _ s
  finish_run-EndsAs (Fault.at_row n updates) s =
      if_kept (EndsAs (close_run v false s)) _ _ _ (fails _ _) (record { same = λ h. refl })
  finish_run-EndsAs Fault.at_finish s = fails _ _
  finish_run-EndsAs Fault.at_end_audit s = fails _ _

  close_or_fail-EndsAs :
      (f : Fault) (raised : Bool) (s : Recon F)
      → EndsAs (close_run v raised s) (close_or_fail v f raised s)
  unfolding close_or_fail close_run
  close_or_fail-EndsAs f true s = fails _ s
  close_or_fail-EndsAs f false s = finish_run-EndsAs f s

-- A run that succeeds has met no fault.
pub run_success :
    {F : Type 0} ⦃fl : Float F⦄ (v : Service) (f : Fault) (a : Answers F) (s : Recon F)
    → (run v f a s).summary.status ≡ RunStatus.success
    → run v f a s ≡ plain_run v a s
unfolding run plain_run
run_success v f a s h = let r = steps v a (start_run s) in (close_or_fail-EndsAs v f r.0 r.1).same h
