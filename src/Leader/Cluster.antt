-- ===== src/Leader/Cluster.antt =====
-- Replicas that campaign for one lock (internal/leader/leader.go).
use maintainerd_secret.Base.{ℕ, Bool, none, List, ◌∷◌, ◌++◌, if◌then◌else◌}
use maintainerd_secret.Leader.{Lock, Elector, is_held_by, elect, heartbeat, resign, step}

-- A call of one elector, with whether its queries reach the database.
pub data Call : Type 0 where
  elects : Bool → Call
  beats : Bool → Bool → Call
  resigns : Bool → Call
  iterates : Bool → Bool → Bool → Call

unfoldable pub call : Call → Elector → Lock → Elector × Lock
call (elects reaches) e k = (elect reaches e k).1
call (beats pings releases) e k = (heartbeat pings releases e k).1
call (resigns reaches) e k = (resign reaches e k).1
call (iterates context_done reaches releases) e k = step context_done reaches releases e k

-- The database ends a session, and frees the lock if it held it.
unfoldable pub end_session : ℕ → Lock → Lock
end_session s k = if is_held_by s k.held_by then record k { held_by = none } else k

pub record Cluster : Type 0 where
  pub electors : List Elector
  pub lock : Lock

abbrev pub cluster : List Elector → Lock → Cluster
cluster electors lock = record { electors = electors; lock = lock }

-- One replica calls, or a session ends without its replica knowing.
pub data Move : Cluster → Cluster → Type 0 where
  calls :
      {k : Lock} (before after : List Elector) (e : Elector) (c : Call)
      → Move
          (cluster (before ++ (e ∷ after)) k)
          (cluster (before ++ ((call c e k).0 ∷ after)) (call c e k).1)
  ends : {es : List Elector} {k : Lock} (s : ℕ) → Move (cluster es k) (cluster es (end_session s k))

pub data Moves : Cluster → Cluster → Type 0 where
  rests : {c : Cluster} → Moves c c
  goes : {c d e : Cluster} → Moves c d → Move d e → Moves c e
