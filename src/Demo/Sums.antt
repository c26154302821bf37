-- ===== src/Demo/Sums.antt =====
-- A transfer keeps the sum of the balances.
use text.Mathlib.TextLemmas.{append_cancel_left}
use ccas.Common.{ℕ, ◌+◌, ◌-◌, ◌≡◌, sym, ap, subst, ◌∙◌, List, [], ◌∷◌, arith, All}
use ccas.Common.Text.{decimal}
use ccas.Common.Decimal.{atoi, atoi-decimal}
use ccas.Common.Sums.{sum_to}
use ccas.World.{Done}
use ccas.World.Serial.{Values, Serial, write_values}
use ccas.World.Totals.{put_value, put_value-ne, total-put}
use ccas.Demo.{acct, num_accounts}
use ccas.Demo.Jobs.{IsTransfer}

-- The balance of an account.
abbrev pub balance_in : Values → ℕ → ℕ
balance_in v i = atoi (v (acct i))

abbrev pub total : Values → ℕ
total v = sum_to (balance_in v) num_accounts

acct-inj : (i j : ℕ) → acct i ≡ acct j → i ≡ j
unfolding acct
acct-inj i j e =
    sym (atoi-decimal i) ∙ (ap atoi (append_cancel_left "acct-" _ _ e) ∙ atoi-decimal j)

total-transfer :
    (v : Values) (d : Done)
    → IsTransfer d
    → All (λ r. v r.0 ≡ r.1) d.reads
    → total (write_values v d.writes) ≡ total v
unfolding write_values
total-transfer v d h reads =
    let job = h.job in
    let sv = h.src_text in
    let dv = h.dst_text in
    let (at_dst, (at_src, _)) = subst (All (λ r. v r.0 ≡ r.1)) h.did_read reads in
    let v1 = put_value v (acct job.src) (decimal (atoi sv - job.amount)) in
    let first =
      total-put acct acct-inj v job.src (atoi sv - job.amount) num_accounts _ h.drawn.0
        (atoi-decimal _) in
    let second =
      total-put acct acct-inj v1 job.dst (atoi dv + job.amount) num_accounts _ h.drawn.1
        (atoi-decimal _) in
    let apart =
      put_value-ne acct acct-inj v job.src job.dst (decimal (atoi sv - job.amount)) h.drawn.2 in
    let src_now : balance_in v job.src ≡ atoi sv = ap atoi at_src in
    let dst_now : balance_in v job.dst ≡ atoi dv = ap atoi at_dst in
    let covered = h.covered in rw h.did_write (omega arith)

-- Transfers that run one after the other keep the total.
pub Serial-total :
    (v : Values) (ds : List Done) (v' : Values)
    → All IsTransfer ds
    → Serial v ds v'
    → total v' ≡ total v
Serial-total v [] v' ok h = ap total (sym h)
Serial-total v (d ∷ ds) v' ok h =
    Serial-total (write_values v d.writes) ds v' ok.1 h.1 ∙ total-transfer v d ok.0 h.0
