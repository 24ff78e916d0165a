-- ===== src/GrantLedger/Orphans.antt =====
-- src/state/ledger.rs: what a recovery reports of the grants that were committed and never published.
use mathlib.Core.Path.{subst}
use bolina_rs.Prelude.{◌≡◌, sym, ◌∙◌, false, [], true, ok}
use bolina_rs.Prelude.Bytes.{Bytes}
use bolina_rs.Prelude.Maps.{contains}
use bolina_rs.GrantLedger.Disk.{done}
use bolina_rs.GrantLedger.Log.{replay}
use bolina_rs.GrantLedger.Replay.{log_bytes}
use bolina_rs.GrantLedger.{GrantLedger, Recovery, open_ledger, recover, is_consumed, is_published}
use bolina_rs.GrantLedger.Durable.{IsDurable}
use bolina_rs.GrantLedger.Operations.{
  Step, Reach, here, next, commits, publishes, revokes, receives, prunes, recovers, opened_on,
  recovered_from, recover-unchanged, Steps-IsDurable, restart_restores,
}
use bolina_rs.GrantLedger.TwoPhase.{IsTwoPhase, IsTwoPhase-empty, contains-orphans}
use bolina_rs.GrantLedger.Calls as Calls

Step-IsTwoPhase :
    {s t : GrantLedger} → Step s t → IsDurable s → IsTwoPhase s.caches → IsTwoPhase t.caches
Step-IsTwoPhase {s} {t} (commits outcome id expiry now h none_out) d v =
    Calls.Calls-IsTwoPhase s t v (Calls.next Calls.here (Calls.commits done outcome id expiry now))
Step-IsTwoPhase {s} {t} (publishes id h) d v =
    Calls.Calls-IsTwoPhase s t v (Calls.next Calls.here (Calls.publishes done id))
Step-IsTwoPhase {s} {t} (revokes pk expiry h) d v =
    Calls.Calls-IsTwoPhase s t v (Calls.next Calls.here (Calls.revokes done pk expiry))
Step-IsTwoPhase {s} {t} (receives id time h) d v =
    Calls.Calls-IsTwoPhase s t v (Calls.next Calls.here (Calls.receives done id time))
Step-IsTwoPhase {s} {t} (prunes outcome now none_out) d v =
    Calls.Calls-IsTwoPhase s t v (Calls.next Calls.here (Calls.prunes outcome now))
Step-IsTwoPhase {s} recovers d v = subst (λ l. IsTwoPhase l.caches) (sym (recover-unchanged s d)) v

Reach-IsTwoPhase :
    {s t : GrantLedger} → IsDurable s → IsTwoPhase s.caches → Reach s t → IsTwoPhase t.caches
Reach-IsTwoPhase d v here = v
Reach-IsTwoPhase d v (next r st) = Step-IsTwoPhase st (Steps-IsDurable d r) (Reach-IsTwoPhase d v r)

abbrev pub new_ledger : GrantLedger
new_ledger = (recover true (opened_on (log_bytes []))).0

new_ledger-IsTwoPhase : IsTwoPhase new_ledger.caches
unfolding recover log_bytes replay
new_ledger-IsTwoPhase = IsTwoPhase-empty

-- From an empty log, through any commits, publications, revocations, first receipts, prunings and
-- recoveries whose system calls succeed, on keys and times of the Rust types, where no pruning, and no
-- commit of a new id at the cap, found an expired grant to drop: when the synced bytes of the file are
-- opened again, the recovery succeeds, and a grant is among the orphans that it reports exactly when it
-- was consumed in the ledger before the restart; a published grant is not among them.
pub recover-orphans :
    (id : Bytes) (t : GrantLedger)
    → Reach new_ledger t
    → (s : GrantLedger) × (r : Recovery) × (open_ledger t.file.synced true true true ≡ ok s)
      × ((recover true s).1 ≡ ok r)
      × (contains id r.orphans ≡ is_consumed id t)
      × (is_published id t ≡ true → contains id r.orphans ≡ false)
unfolding is_consumed is_published
recover-orphans id t reach =
    let (s, opens, same, reports) = restart_restores [] t tt reach in
    let v = Reach-IsTwoPhase (recovered_from [] tt) new_ledger-IsTwoPhase reach in
    let exact = contains-orphans id t.caches v in
    (s, _, opens, reports, exact, λ spent. exact ∙ v.apart id spent)
