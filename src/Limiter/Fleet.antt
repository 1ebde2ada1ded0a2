-- ===== src/Limiter/Fleet.antt =====
-- Replicas of the limiter of internal/platform/middleware/rate_limit.go on one shared table of
-- reservations (rate_limit_store.go). A call of the store is open from the request that asks to the
-- answer: the statement commits at some moment in between, or never, and its answer can be lost.
use maintainerd_secret.Base.{ℕ, ◌≤◌, Option, none, some, List, ◌∷◌, ◌++◌, String}
use maintainerd_secret.Limiter.{
  Limiter, Ask, Verdict, Progress, done, asks, allow_begin, allow_finish,
}
use maintainerd_secret.Limiter.Store.{BudgetRow, reserve, prune_rows}

pub record Replica : Type 0 where
  pub limiter : Limiter
  pub asking : List Ask  -- calls that have not committed
  pub answered : List (Ask × ℕ)  -- calls that have, with their grants

abbrev pub Log : Type 0
Log = List (String × Verdict)

abbrev pub begin : String → Limiter × Progress → List Ask → List (Ask × ℕ) → Log → Replica × Log
begin key (l, done v) asking answered log =
    (record { limiter = l; asking = asking; answered = answered }, (key, v) ∷ log)
begin key (l, asks a) asking answered log =
    (record { limiter = l; asking = a ∷ asking; answered = answered }, log)

-- A request reaches a replica.
abbrev pub arrive : String → ℕ → ℕ → Replica → Log → Replica × Log
arrive key limit now r log = begin key (allow_begin key limit now r.limiter) r.asking r.answered log

-- The answer of a call reaches its replica.
abbrev pub finish : Ask → Option ℕ → ℕ → Limiter → List Ask → List (Ask × ℕ) → Log → Replica × Log
finish a result now l asking answered log =
    let (l', v) = allow_finish a result now l in
    (record { limiter = l'; asking = asking; answered = answered }, (a.key, v) ∷ log)

abbrev pub reserve_for : Ask → List BudgetRow → ℕ × List BudgetRow
reserve_for a rows = reserve a.key a.window_start a.limit a.slice rows

-- One step of one replica, with the table and the log of what requests were told.
pub data Local (limit : ℕ)
    : List BudgetRow → Replica × Log → List BudgetRow → Replica × Log → Type 0 where
  arrives :
      {rows : List BudgetRow} (key : String) (now : ℕ) (r : Replica) (log : Log)
      → Local limit rows (r, log) rows (arrive key limit now r log)
  commits :
      {rows : List BudgetRow} (a : Ask) (xs ys : List Ask) (l : Limiter) (answered : List (Ask × ℕ))
      (log : Log)
      → Local limit rows
          (record { limiter = l; asking = xs ++ (a ∷ ys); answered = answered }, log)
          ((reserve_for a rows).1)
          (
            record {
              limiter = l;
              asking = xs ++ ys;
              answered = (a, (reserve_for a rows).0) ∷ answered;
            },
            log,
          )
  returns :
      {rows : List BudgetRow} (a : Ask) (n now : ℕ) (xs ys : List (Ask × ℕ)) (l : Limiter)
      (asking : List Ask) (log : Log)
      → Local limit rows
          (record { limiter = l; asking = asking; answered = xs ++ ((a, n) ∷ ys) }, log)
          rows
          (finish a (some n) now l asking (xs ++ ys) log)
  fails :
      {rows : List BudgetRow} (a : Ask) (now : ℕ) (xs ys : List Ask) (l : Limiter)
      (answered : List (Ask × ℕ)) (log : Log)
      → Local limit rows
          (record { limiter = l; asking = xs ++ (a ∷ ys); answered = answered }, log)
          rows
          (finish a none now l (xs ++ ys) answered log)
  loses :
      {rows : List BudgetRow} (a : Ask) (n now : ℕ) (xs ys : List (Ask × ℕ)) (l : Limiter)
      (asking : List Ask) (log : Log)
      → Local limit rows
          (record { limiter = l; asking = asking; answered = xs ++ ((a, n) ∷ ys) }, log)
          rows
          (finish a none now l asking (xs ++ ys) log)

pub record Fleet : Type 0 where
  pub rows : List BudgetRow
  pub replicas : List Replica
  pub log : Log

abbrev pub fleet : List BudgetRow → List Replica → Log → Fleet
fleet rows replicas log = record { rows = rows; replicas = replicas; log = log }

-- One step of the fleet while the window that starts at `start` is live: the pruning spares it.
pub data Step (limit start : ℕ) : Fleet → Fleet → Type 0 where
  moves :
      {rows rows' : List BudgetRow} {log : Log} {r : Replica} (before after : List Replica)
      {out : Replica × Log}
      → Local limit rows (r, log) rows' out
      → Step limit start
          (fleet rows (before ++ (r ∷ after)) log)
          (fleet rows' (before ++ (out.0 ∷ after)) out.1)
  prunes :
      {rows : List BudgetRow} {replicas : List Replica} {log : Log} (before : ℕ)
      → before ≤ start
      → Step limit start (fleet rows replicas log) (fleet (prune_rows before rows) replicas log)

pub data Run (limit start : ℕ) : Fleet → Fleet → Type 0 where
  rests : {f : Fleet} → Run limit start f f
  goes : {f g h : Fleet} → Run limit start f g → Step limit start g h → Run limit start f h
