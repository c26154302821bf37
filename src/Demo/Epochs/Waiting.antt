-- ===== src/Demo/Epochs/Waiting.antt =====
-- The transfers as jobs under epoch certification: who awaits an answer, and what may commit.
use ccas.Common.{◌≡◌, ◌∙◌, Bool, true, false}
use ccas.World.{Client}
use ccas.World.Settling.{done_of}
use ccas.Service.Jobs.{Rules}
use ccas.Demo.{Phase, begun, got_src, got_both, debited, credited, waiting, ended, Job}
use ccas.Demo.Jobs.{IsDrawn, IsTransfer, At, JobOk}

abbrev pub awaits : Phase → Bool
awaits (waiting sv dv) = true
awaits _ = false

-- Where a job waits, its transaction is a transfer, and an answer leaves that as it is.
pub At-waits :
    (job : Job) (c c' : Client) (phase : Phase)
    → IsDrawn job
    → awaits phase ≡ true
    → c'.seen ≡ c.seen
    → c'.txn.write_set ≡ c.txn.write_set
    → At job c phase
    → IsTransfer (done_of c) × At job c' phase
At-waits job c c' (waiting sv dv) drawn h s ws at = (
  record {
    job = job;
    src_text = sv;
    dst_text = dv;
    drawn = drawn;
    covered = at.2;
    did_read = at.0;
    did_write = at.1;
  },
  (s ∙ at.0, ws ∙ at.1, at.2),
)
At-waits job c c' begun drawn h s ws at = absurd (cc)
At-waits job c c' (got_src sv) drawn h s ws at = absurd (cc)
At-waits job c c' (got_both sv dv) drawn h s ws at = absurd (cc)
At-waits job c c' (debited sv dv) drawn h s ws at = absurd (cc)
At-waits job c c' (credited sv dv) drawn h s ws at = absurd (cc)
At-waits job c c' ended drawn h s ws at = absurd (cc)

abbrev pub transfer_rules : Rules Job
transfer_rules = record {
  awaits = λ job. awaits job.phase;
  Ok = JobOk;
  Good = IsTransfer;
  answers = λ job c c' waits s ws h.
      let (is, at) = At-waits job c c' job.phase h.0 waits s ws h.1 in (is, (h.0, at));
}
