-- ===== src/GrantLedger/Calls.antt =====
-- src/state/ledger.rs: the maps across any calls between two recoveries, whatever becomes of their
-- system calls.
use mathlib.Core.Path.{subst}
use bolina_rs.Prelude.{
  ℕ, ◌≡◌, refl, sym, true, false, ◌||◌, List, [], ◌∷◌, length, arith, Result, ok, err, leb,
}
use bolina_rs.Prelude.Tests.{if_known}
use bolina_rs.Prelude.Bytes.{Bytes}
use bolina_rs.Prelude.Maps.{contains_key, contains, contains-insert_key}
use bolina_rs.GrantLedger.Disk.{LedgerError, Io}
use bolina_rs.GrantLedger.Log.{Caches}
use bolina_rs.GrantLedger.{
  GrantLedger, PruneIo, append, after, max_live, expired_ids, drop_expired, prune_expired,
  prune_ids, rewrite, commit_below_cap, commit_pruned, commit_consumed, mark_published,
  commit_revocation, record_first_receipt, consume, publish, revoke, receive, is_consumed,
  is_published,
}
use bolina_rs.GrantLedger.TwoPhase.{
  IsTwoPhase, consume-IsTwoPhase, publish-IsTwoPhase, revoke-IsTwoPhase, receive-IsTwoPhase,
  drop_expired-IsTwoPhase, remove_all-subset,
}

abbrev Returned : Type 0
Returned = GrantLedger × Result (Unit {0}) LedgerError

append-caches : (io : Io) (rec : Bytes) (s : GrantLedger) → (append io rec s).0.caches ≡ s.caches
unfolding append
append-caches io rec s =
    if_known (λ (r : Returned). r.0.caches ≡ s.caches) s.read_only _ _ (λ _. refl)
      (λ _.
        if_known (λ (r : Returned). r.0.caches ≡ s.caches) s.is_open _ _ (λ _. refl) (λ _. refl))

after_either :
    (P : Caches → Type 0) (f : Caches → Caches) (x : GrantLedger × Result (Unit {0}) LedgerError)
    → P x.0.caches
    → P (f x.0.caches)
    → P (after f x).0.caches
after_either P f (s, ok u) old new = new
after_either P f (s, err e) old new = old

-- An append, whatever becomes of it, changes the maps in full or not at all.
after-caches :
    (P : Caches → Type 0) (f : Caches → Caches) (io : Io) (rec : Bytes) (s : GrantLedger)
    → P s.caches
    → P (f s.caches)
    → P (after f (append io rec s)).0.caches
after-caches P f io rec s old new =
    let same = sym (append-caches io rec s) in
    after_either P f (append io rec s) (subst P same old) (subst (λ c. P (f c)) same new)

prune-caches :
    (P : Caches → Type 0) (io : PruneIo) (now : ℕ) (s : GrantLedger)
    → P s.caches
    → ((ids : List Bytes) → P (drop_expired ids s.caches))
    → P (prune_expired io now s).0.caches
unfolding prune_expired prune_ids rewrite
prune-caches P io now s old new =
    if_known (λ (r : Returned). P r.0.caches) s.read_only _ _ (λ _. old)
      (λ _. go io (expired_ids now s.caches.consumed))
  where
    go : (io : PruneIo) (ids : List Bytes) → P (prune_ids io ids s).0.caches
    go io [] = old
    go PruneIo.temp_failed (id ∷ ids) = new (id ∷ ids)
    go PruneIo.rename_failed (id ∷ ids) = new (id ∷ ids)
    go PruneIo.reopen_failed (id ∷ ids) = new (id ∷ ids)
    go PruneIo.lock_lost (id ∷ ids) = new (id ∷ ids)
    go PruneIo.pruned (id ∷ ids) = new (id ∷ ids)

-- One call, with any arguments and any outcomes of its system calls.
pub data Call : GrantLedger → GrantLedger → Type 0 where
  commits :
      (io : Io) (outcome : PruneIo) (id : Bytes) (expiry now : ℕ) {s : GrantLedger}
      → Call s (commit_consumed io outcome id expiry now s).0
  publishes : (io : Io) (id : Bytes) {s : GrantLedger} → Call s (mark_published io id s).0
  revokes :
      (io : Io) (pk : Bytes) (expiry : ℕ) {s : GrantLedger}
      → Call s (commit_revocation io pk expiry s).0
  receives :
      (io : Io) (id : Bytes) (time : ℕ) {s : GrantLedger}
      → Call s (record_first_receipt io id time s).0
  prunes : (io : PruneIo) (now : ℕ) {s : GrantLedger} → Call s (prune_expired io now s).0

pub data Calls (s : GrantLedger) : GrantLedger → Type 0 where
  here : Calls s s
  next : {t u : GrantLedger} → Calls s t → Call t u → Calls s u

-- A property of the maps that each change of them keeps, where it is made.
module _ (P : Caches → Type 0)
    (consumes : (id : Bytes) (expiry : ℕ) (c : Caches)
      → contains_key id c.consumed ≡ false
      → contains id c.published ≡ false
      → leb max_live (length c.consumed) ≡ false
      → P c
      → P (consume id expiry c))
    (publishing : (id : Bytes) (c : Caches) → P c → P (publish id c))
    (revoking : (pk : Bytes) (expiry : ℕ) (c : Caches)
      → leb max_live (length c.revoked) ≡ false
      → P c
      → P (revoke pk expiry c))
    (receiving : (id : Bytes) (time : ℕ) (c : Caches) → P c → P (receive id time c))
    (dropping : (ids : List Bytes) (c : Caches) → P c → P (drop_expired ids c)) where
  commit_below_cap-keeps :
      (io : Io) (id : Bytes) (expiry : ℕ) (s : GrantLedger)
      → contains_key id s.caches.consumed ≡ false
      → contains id s.caches.published ≡ false
      → leb max_live (length s.caches.consumed) ≡ false
      → P s.caches
      → P (commit_below_cap io id expiry s).0.caches
  unfolding commit_below_cap
  commit_below_cap-keeps io id expiry s new unspent room v =
      after-caches P (consume id expiry) io _ s v (consumes id expiry s.caches new unspent room v)

  commit_pruned-keeps :
      (io : Io) (id : Bytes) (expiry : ℕ) (x : GrantLedger × Result (Unit {0}) LedgerError)
      → P x.0.caches
      → contains_key id x.0.caches.consumed ≡ false
      → contains id x.0.caches.published ≡ false
      → P (commit_pruned io id expiry x).0.caches
  unfolding commit_pruned
  commit_pruned-keeps io id expiry (s, err e) v new unspent = v
  commit_pruned-keeps io id expiry (s, ok u) v new unspent =
      if_known (λ (r : Returned). P r.0.caches) (leb max_live (length s.caches.consumed)) _ _
        (λ _. v) (λ room. commit_below_cap-keeps io id expiry s new unspent room v)

  commit-keeps :
      (io : Io) (outcome : PruneIo) (id : Bytes) (expiry now : ℕ) (s : GrantLedger)
      → P s.caches
      → P (commit_consumed io outcome id expiry now s).0.caches
  unfolding commit_consumed drop_expired
  commit-keeps io outcome id expiry now s v =
      if_known (λ (r : Returned). P r.0.caches)
        (contains_key id s.caches.consumed || contains id s.caches.published) _ _ (λ _. v)
        (λ unknown.
          let new : contains_key id s.caches.consumed ≡ false = ground arith in
          let unspent : contains id s.caches.published ≡ false = ground arith in
          if_known (λ (r : Returned). P r.0.caches) (leb max_live (length s.caches.consumed)) _ _
            (λ _.
              let (w, new', unspent') =
                prune-caches
                  (λ c.
                    P c × (contains_key id c.consumed ≡ false) × (contains id c.published ≡ false))
                  outcome now s (v, new, unspent)
                  (λ ids. (
                    dropping ids s.caches v,
                    ground (arith, remove_all-subset ids id s.caches.consumed, new),
                    unspent,
                  )) in
              commit_pruned-keeps io id expiry (prune_expired outcome now s) w new' unspent')
            (λ room. commit_below_cap-keeps io id expiry s new unspent room v))

  Call-keeps : {s t : GrantLedger} → Call s t → P s.caches → P t.caches
  unfolding mark_published commit_revocation record_first_receipt
  Call-keeps (commits io outcome id expiry now {s}) v = commit-keeps io outcome id expiry now s v
  Call-keeps (publishes io id {s}) v =
      if_known (λ (r : Returned). P r.0.caches) (contains id s.caches.published) _ _ (λ _. v)
        (λ _. after-caches P (publish id) io _ s v (publishing id s.caches v))
  Call-keeps (revokes io pk expiry {s}) v =
      if_known (λ (r : Returned). P r.0.caches) (contains_key pk s.caches.revoked) _ _ (λ _. v)
        (λ _.
          if_known (λ (r : Returned). P r.0.caches) (leb max_live (length s.caches.revoked)) _ _
            (λ _. v)
            (λ room.
              after-caches P (revoke pk expiry) io _ s v (revoking pk expiry s.caches room v)))
  Call-keeps (receives io id time {s}) v =
      if_known (λ (r : Returned). P r.0.caches) (contains_key id s.caches.first_receipts) _ _
        (λ _. v) (λ _. after-caches P (receive id time) io _ s v (receiving id time s.caches v))
  Call-keeps (prunes io now {s}) v = prune-caches P io now s v (λ ids. dropping ids s.caches v)

  Calls-keep : {s t : GrantLedger} → Calls s t → P s.caches → P t.caches
  Calls-keep here v = v
  Calls-keep (next r c) v = Call-keeps c (Calls-keep r v)

-- Any calls up to the next recovery, whatever becomes of their system calls, keep the two phases: a
-- published grant is not consumed, each consumed grant has its place in the order of commits, and at
-- most `max_live` grants are consumed and as many keys revoked.
pub Calls-IsTwoPhase : (s t : GrantLedger) → IsTwoPhase s.caches → Calls s t → IsTwoPhase t.caches
Calls-IsTwoPhase s t v r =
    Calls-keep IsTwoPhase consume-IsTwoPhase publish-IsTwoPhase revoke-IsTwoPhase receive-IsTwoPhase
      drop_expired-IsTwoPhase r v

-- In a ledger whose maps keep the two phases, a grant that is published stays published through any
-- calls up to the next recovery, is never consumed again, and a further commit or publication of it
-- changes nothing and returns `ok`, whatever its system calls would do.
pub published_forever :
    (id : Bytes) (s t : GrantLedger) (io : Io) (outcome : PruneIo) (expiry now : ℕ)
    → IsTwoPhase s.caches
    → is_published id s ≡ true
    → Calls s t
    → (is_published id t ≡ true)
      × (is_consumed id t ≡ false)
      × (commit_consumed io outcome id expiry now t ≡ (t, ok tt))
      × (mark_published io id t ≡ (t, ok tt))
unfolding is_published is_consumed commit_consumed mark_published drop_expired
published_forever id s t io outcome expiry now v h r =
    let w = Calls-IsTwoPhase s t v r in
    let stays : contains id t.caches.published ≡ true =
      Calls-keep (λ c. contains id c.published ≡ true) (λ j e c new unspent room k. k)
        (λ j c k. ground (arith, contains-insert_key j id c.published)) (λ pk e c room k. k)
        (λ j n c k. k) (λ ids c k. k) r h in
    (stays, w.apart id stays, ground (arith, stays), ground (arith, stays))
