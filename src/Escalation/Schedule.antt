-- ===== src/Escalation/Schedule.antt =====
-- tickets/escalation/escalation.cron.ts. What `handle` logs is not modelled.
use issueflow.Store.{Env, Exec, ok, err}
use issueflow.Escalation.{run_escalation}

-- `try {… } catch`: a tick that fails is logged, and what it has changed stays.
unfoldable pub handle : Env → Exec Unit
handle env s =
    let (r, s') = run_escalation env s in elim r [ ok affected ↦ (ok tt, s') | err e ↦ (ok tt, s') ]
