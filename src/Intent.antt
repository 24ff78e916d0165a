-- ===== src/Intent.antt =====
-- src/state/intent.rs: the table of pending intents. A method returns the new table beside its
-- result. The length of a resource is at most `max_resource`, the size of its array, beyond which the
-- program stops. A deadline that does not fit in a `u64` stops it too: `expire_timeouts` is then `none`.
pub mod Invariant
pub mod Outcomes
pub mod Examples
use bolina_rs.Prelude.{
  ℕ, ◌+◌, ◌^◌, ◌<◌, ◌≡◌, Bool, true, false, ◌&&◌, ◌||◌, Option, none, some, List, [], ◌∷◌, ◌++◌,
  length, take, set, ltb, leb, if◌then◌else◌, Result, ok, err,
}
use bolina_rs.Prelude.Bytes.{Bytes, bytes_eq}
use bolina_rs.Prelude.Search.{get_elem?, any, find_index, retain}

abbrev pub t_pending_ms : ℕ
t_pending_ms = 900000

abbrev pub max_pending : ℕ
max_pending = 256

abbrev pub max_resource : ℕ
max_resource = 256

pub data IntentError : Type 0 where
  table_full duplicate_intent_id resource_held not_pending : IntentError

pub data RefusalOutcome : Type 0 where
  rejected no_match : RefusalOutcome

pub data State : Type 0 where
  pending executing expired rejected : State

pub record Entry : Type 0 where
  pub intent_id : Bytes
  pub resource_id : Bytes
  pub resource_len : ℕ
  pub state : State
  pub admitted_ms : ℕ

pub record Table : Type 0 where
  pub entries : List Entry

abbrev pub new : Table
new = record { entries = [] }

-- `e.state == State::Pending`
abbrev pub is_pending : State → Bool
is_pending State.pending = true
is_pending State.executing = false
is_pending State.expired = false
is_pending State.rejected = false

-- `e.state == State::Pending || e.state == State::Executing`
abbrev pub is_live : State → Bool
is_live State.pending = true
is_live State.executing = true
is_live State.expired = false
is_live State.rejected = false

-- `e.state == State::Pending && e.intent_id == *intent_id`
unfoldable pub awaits : Bytes → Entry → Bool
awaits id e = is_pending e.state && bytes_eq e.intent_id id

-- A live entry whose resource is `resource[..resource_len]`.
unfoldable pub holds : Bytes → Entry → Bool
holds name e = is_live e.state && bytes_eq (take e.resource_len e.resource_id) name

abbrev pub fresh : Bytes → Bytes → ℕ → ℕ → Entry
fresh id resource len now = record {
  intent_id = id;
  resource_id = resource;
  resource_len = len;
  state = State.pending;
  admitted_ms = now;
}

unfoldable pub admit : Bytes → Bytes → ℕ → ℕ → Table → Table × Result (Unit {0}) IntentError
admit id resource len now t =
    if any (awaits id) t.entries
    then (t, err duplicate_intent_id)
    else if any (holds (take len resource)) t.entries
    then (t, err resource_held)
    else if leb max_pending (length t.entries)
    then (t, err table_full)
    else (record { entries = t.entries ++ fresh id resource len now ∷ [] }, ok tt)

pub match_for_grant : Bytes → Table → Option ℕ
match_for_grant id t = find_index (awaits id) t.entries

-- `match self.entries.get_mut(idx)`
begin_at : ℕ → Option Entry → Table → Table × Result (Unit {0}) IntentError
begin_at idx none t = (t, err not_pending)
begin_at idx (some e) t =
    if is_pending e.state
    then (record { entries = set t.entries idx (record e { state = State.executing }) }, ok tt)
    else (t, err not_pending)

pub begin_executing : ℕ → Table → Table × Result (Unit {0}) IntentError
unfolding begin_at
begin_executing idx t = begin_at idx (get_elem? t.entries idx) t

pub compact : Table → Table
compact t = record { entries = retain (λ e. is_live e.state) t.entries }

-- `self.entries[idx].state = State::Rejected`
mark_rejected : ℕ → Option Entry → List Entry → List Entry
mark_rejected idx none es = es
mark_rejected idx (some e) es = set es idx (record e { state = State.rejected })

refuse_at : Option ℕ → Table → Table × RefusalOutcome
unfolding mark_rejected compact
refuse_at none t = (t, no_match)
refuse_at (some idx) t = (
  compact (record { entries = mark_rejected idx (get_elem? t.entries idx) t.entries }),
  RefusalOutcome.rejected,
)

pub apply_refusal : Bytes → Table → Table × RefusalOutcome
unfolding refuse_at
apply_refusal id t = refuse_at (find_index (awaits id) t.entries) t

-- `e.state == State::Pending && now_ms > e.admitted_ms + T_PENDING_MS`
pub timed_out : ℕ → Entry → Bool
timed_out now e = is_pending e.state && ltb (e.admitted_ms + t_pending_ms) now

-- The sum overflows, and the program panics (`overflow-checks = true`).
pub overflows : Entry → Bool
overflows e = is_pending e.state && leb (2 ^ 64) (e.admitted_ms + t_pending_ms)

-- The loop of `expire_timeouts`: the entries it leaves, and `collapsed`.
pub mark_expired : ℕ → List Entry → List Entry × ℕ
mark_expired now [] = ([], 0)
mark_expired now (e ∷ es) =
    let (es', collapsed) = mark_expired now es in
    if timed_out now e
    then (record e { state = State.expired } ∷ es', collapsed + 1)
    else (e ∷ es', collapsed)

-- `expire_timeouts` where no sum overflows.
pub sweep : ℕ → Table → Table × ℕ
unfolding mark_expired compact
sweep now t =
    let (es, collapsed) = mark_expired now t.entries in
    if ltb 0 collapsed
    then (compact (record { entries = es }), collapsed)
    else (record { entries = es }, collapsed)

-- `none` where the program panics.
pub expire_timeouts : ℕ → Table → Option (Table × ℕ)
unfolding sweep overflows
expire_timeouts now t = if any overflows t.entries then none else some (sweep now t)
