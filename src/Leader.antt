-- ===== src/Leader.antt =====
-- The election of internal/leader/leader.go on the advisory lock of internal/leader/postgres.go. The
-- lock manager of PostgreSQL is a record: which session holds the lock, and how many sessions took
-- it so far. Logging is left out, and a context that is done is an argument.
pub mod Cluster
pub mod Exclusive
pub mod Handover
use maintainerd_secret.Base.{
  ℕ, suc, ◌+◌, ◌*◌, Bool, true, false, not, Option, none, some, String, ◌==◌, str_eq, if◌then◌else◌,
}

-- Durations in nanoseconds; a value that is not positive is 0.
pub record Options : Type 0 where
  pub name : String
  pub retry_interval : ℕ
  pub heartbeat_interval : ℕ
  pub resign_timeout : ℕ

abbrev pub second : ℕ
second = 1_000_000_000

unfoldable pub with_defaults : Options → Options
with_defaults o = record {
  name = if str_eq o.name "" then "background-workers" else o.name;
  retry_interval = if o.retry_interval == 0 then 10 * second else o.retry_interval;
  heartbeat_interval = if o.heartbeat_interval == 0 then 10 * second else o.heartbeat_interval;
  resign_timeout = if o.resign_timeout == 0 then 5 * second else o.resign_timeout;
}

-- The advisory lock: the session that holds it, and the number of the next session.
pub record Lock : Type 0 where
  pub held_by : Option ℕ
  pub next : ℕ

pub record Elector : Type 0 where
  pub session : Option ℕ
  pub leader : Bool
  pub promotions : ℕ

abbrev pub new_elector : Elector
new_elector = record { session = none; leader = false; promotions = 0 }

-- Holds: a missing elector holds.
abbrev pub holds : Option Elector → Bool
holds none = true
holds (some e) = e.leader

abbrev pub is_held_by : ℕ → Option ℕ → Bool
is_held_by s none = false
is_held_by s (some t) = t == s

pub data Campaign : Type 0 where
  acquired : ℕ → Campaign
  taken : Campaign
  failed : Campaign

-- TryLock; `failed` is an error of the database, which takes nothing.
unfoldable pub try_lock : Bool → Lock → Campaign × Lock
try_lock reachable k = if not reachable then (failed, k) else elim k.held_by [
  | some s ↦ (taken, k)
  | none ↦ (acquired k.next, record { held_by = some k.next; next = suc k.next })
]

-- Ping: whether the session answers. A session answers as long as it lives, and its lock with it.
unfoldable pub ping : Bool → ℕ → Lock → Bool
ping reachable s k = if reachable then is_held_by s k.held_by else false

-- Release, with whether it reports no error. Where the unlock cannot be sent the connection is
-- destroyed, and the lock is free once the database ends the session.
unfoldable pub release : Bool → ℕ → Lock → Bool × Lock
release reachable s k =
    if not reachable
    then (false, k)
    else if is_held_by s k.held_by
    then (true, record k { held_by = none })
    else (false, k)

abbrev pub stand_down : Elector → Elector
stand_down e = record e { leader = false; session = none }

-- releaseLocked, with whether it reports no error.
unfoldable pub release_locked : Bool → Elector → Lock → Bool × (Elector × Lock)
release_locked reachable e k = elim e.session [
  | none ↦ (true, (record e { leader = false }, k))
  | some s ↦ let (ok, k') = release reachable s k in (ok, (stand_down e, k'))
]

unfoldable pub resign : Bool → Elector → Lock → Bool × (Elector × Lock)
resign reachable e k = release_locked reachable e k

abbrev pub elected : Campaign × Lock → Elector → Option Bool × (Elector × Lock)
elected (failed, k) e = (none, (e, k))
elected (taken, k) e = (some false, (e, k))
elected (acquired s, k) e =
    (some true, (record { session = some s; leader = true; promotions = e.promotions + 1 }, k))

-- Elect: whether this process leads, or `none` for an error.
unfoldable pub elect : Bool → Elector → Lock → Option Bool × (Elector × Lock)
elect reachable e k = elim e.session [
  | some s ↦ (some true, (e, k))
  | none ↦ elected (try_lock reachable k) e
]

-- Heartbeat, with whether it reports no error. The ping and the release reach the database or not.
unfoldable pub heartbeat : Bool → Bool → Elector → Lock → Bool × (Elector × Lock)
heartbeat pings releases e k = elim e.session [
  | none ↦ (true, (record e { leader = false }, k))
  | some s ↦ if ping pings s k then (true, (e, k)) else (false, (release_locked releases e k).1)
]

-- One iteration of the campaign loop.
unfoldable pub step : Bool → Bool → Bool → Elector → Lock → Elector × Lock
step context_done reaches releases e k =
    if context_done
    then (e, k)
    else if not e.leader
    then (elect reaches e k).1
    else (heartbeat reaches releases e k).1

-- How long Run waits after an iteration.
abbrev pub wait : Options → Elector → ℕ
wait o e = if e.leader then o.heartbeat_interval else o.retry_interval

-- One tick of RunPeriodic: whether the worker runs, and `wasLeader` after it.
unfoldable pub periodic_tick : Bool → Option Elector → Bool → Bool × Bool
periodic_tick context_done e was_leader =
    if context_done then (false, was_leader) else if holds e then (true, true) else (false, false)
