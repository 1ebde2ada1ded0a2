-- ===== src/Limiter/Budget.antt =====
-- The bound that the shared budget of internal/platform/middleware/rate_limit_store.go puts on what
-- all replicas together pay out in one window.
use maintainerd_secret.Base.{
  ℕ, ◌+◌, ◌≤◌, ◌≡◌, refl, ◌⊎◌, inl, inr, Option, none, some, List, [], ◌∷◌, ◌++◌, String, arith,
  sym, subst, sum, sum-remove, All, All-append, All-split, All-remove,
}
use maintainerd_secret.Limiter.{Limiter, Ask, Progress, done, asks}
use maintainerd_secret.Limiter.Store.{BudgetRow, reserved_at, reserve_lem, reserved_at-prune_rows}
use maintainerd_secret.Limiter.Table.{Bucket, Buckets, bucket_at}
use maintainerd_secret.Limiter.Held.{IsLimiter, unspent, unit}
use maintainerd_secret.Limiter.Begin.{AskOf, Settles, allow_begin-Settles}
use maintainerd_secret.Limiter.Finish.{grant_in, allow_finish-Covers}
use maintainerd_secret.Limiter.Fleet.{
  Replica, Log, begin, finish, Local, arrives, commits, returns, fails, loses, Fleet, Step, moves,
  prunes, Run, rests, goes,
}

-- The units of a key's window that requests were paid with.
abbrev pub paid_units : String → ℕ → Log → ℕ
paid_units key start = sum (unit key start)

abbrev AnswerOf : ℕ → ℕ → Ask × ℕ → Type 0
AnswerOf limit window p = AskOf limit window p.0

pub record IsReplica (limit : ℕ) (r : Replica) : Type 0 where
  limiter_ok : IsLimiter r.limiter
  asking_ok : All (AskOf limit r.limiter.window) r.asking
  answered_ok : All (AnswerOf limit r.limiter.window) r.answered

-- A replica at its start.
abbrev pub Begins : Replica → Type 0
Begins r = (r.limiter.buckets ≡ []) × (r.asking ≡ []) × (r.answered ≡ [])

module _ (key : String) (start limit : ℕ) where
  -- What a replica holds: its unspent units, and the grants under way to it.
  held : Replica → ℕ
  held r = unspent key start r.limiter + sum (grant_in key start) r.answered

  -- A step pays what it spends and keeps out of the budget, within the limit.
  abbrev Balances : List BudgetRow → Replica × Log → List BudgetRow → Replica × Log → Type 0
  Balances rows (r, log) rows' (r', log') =
      IsReplica limit r'
      × ((paid_units key start log' + held r') + reserved_at key start rows
          ≤ (paid_units key start log + held r) + reserved_at key start rows')
      × (reserved_at key start rows' ≤ limit)

  begin-Balances :
      (k : String) (rows : List BudgetRow) (r : Replica) (log : Log) (out : Limiter × Progress)
      → IsReplica limit r
      → reserved_at key start rows ≤ limit
      → Settles k limit r.limiter out
      → Balances rows (r, log) rows (begin k out r.asking r.answered log)
  unfolding held
  begin-Balances k rows r log (l, done v) h le (ok, window, less) = (
    record {
      limiter_ok = ok;
      asking_ok = rw window h.asking_ok;
      answered_ok = rw window h.answered_ok;
    },
    omega (arith, less key start),
    le,
  )
  begin-Balances k rows r log (l, asks a) h le (w, ask) = (
    record {
      limiter_ok = w.proper;
      asking_ok = (ask, subst (λ n. All (AskOf limit n) r.asking) (sym w.same_window) h.asking_ok);
      answered_ok = rw w.same_window h.answered_ok;
    },
    omega (arith, w.less key start),
    le,
  )

  finish-Balances :
      (a : Ask) (n now : ℕ) (result : Option ℕ) (l : Limiter) (asking : List Ask)
      (rest : List (Ask × ℕ)) (log : Log) (before : ℕ)
      → IsLimiter l
      → AskOf limit l.window a
      → All (AskOf limit l.window) asking
      → All (AnswerOf limit l.window) rest
      → (result ≡ none) ⊎ (result ≡ some n)
      → (unspent key start l + grant_in key start (a, n)) + sum (grant_in key start) rest ≤ before
      → let out = finish a result now l asking rest log in
        IsReplica limit out.0
        × (paid_units key start out.1 + held out.0 ≤ paid_units key start log + before)
  unfolding held
  finish-Balances a n now result l asking rest log before ok ask ok' ok'' r total =
      let (proper, window, less) = allow_finish-Covers a n now result l ok ask.0 r in
      (
        record { limiter_ok = proper; asking_ok = rw window ok'; answered_ok = rw window ok'' },
        omega (arith, less key start),
      )

  Local-Balances :
      (rows rows' : List BudgetRow) (r : Replica) (log : Log) (out : Replica × Log)
      → Local limit rows (r, log) rows' out
      → IsReplica limit r
      → reserved_at key start rows ≤ limit
      → Balances rows (r, log) rows' out
  unfolding held
  Local-Balances rows _ r log _ (arrives k now _ _) h le =
      begin-Balances k rows r log _ h le (allow_begin-Settles k limit now r.limiter h.limiter_ok)
  Local-Balances rows _ r log _ (commits a xs ys l answered _) h le =
      let (ask, rest) = All-remove (AskOf limit l.window) xs ys a h.asking_ok in
      let same : a.limit ≡ limit = ask.1 in
      let (pays_it, within) =
        reserve_lem key a.key start a.window_start a.limit a.slice rows (rw same le) in
      (
        record { limiter_ok = h.limiter_ok; asking_ok = rest; answered_ok = (ask, h.answered_ok) },
        omega arith,
        omega arith,
      )
  Local-Balances rows _ r log _ (returns a n now xs ys l asking _) h le =
      let (ask, rest) = All-remove (AnswerOf limit l.window) xs ys (a, n) h.answered_ok in
      let (ok, less) =
        finish-Balances a n now (some n) l asking (xs ++ ys) log (held r) h.limiter_ok ask
          h.asking_ok rest (inr refl)
          (omega (arith, sum-remove (grant_in key start) xs ys (a, n))) in
      (ok, omega arith, le)
  Local-Balances rows _ r log _ (loses a n now xs ys l asking _) h le =
      let (ask, rest) = All-remove (AnswerOf limit l.window) xs ys (a, n) h.answered_ok in
      let (ok, less) =
        finish-Balances a n now none l asking (xs ++ ys) log (held r) h.limiter_ok ask h.asking_ok
          rest (inl refl) (omega (arith, sum-remove (grant_in key start) xs ys (a, n))) in
      (ok, omega arith, le)
  Local-Balances rows _ r log _ (fails a now xs ys l answered _) h le =
      let (ask, rest) = All-remove (AskOf limit l.window) xs ys a h.asking_ok in
      let (ok, less) =
        finish-Balances a 0 now none l (xs ++ ys) answered log (held r) h.limiter_ok ask rest
          h.answered_ok (inl refl) (ground arith) in
      (ok, omega arith, le)

  -- What the fleet paid and holds for the window is reserved, and what is reserved is in the limit.
  record IsFunded (f : Fleet) : Type 0 where
    replicas_ok : All (IsReplica limit) f.replicas
    funded : paid_units key start f.log + sum held f.replicas ≤ reserved_at key start f.rows
    capped : reserved_at key start f.rows ≤ limit

  Step-IsFunded : (f g : Fleet) → Step limit start f g → IsFunded f → IsFunded g
  Step-IsFunded _ _ (moves {rows} {rows'} {log} {r} before after {out} m) h =
      let (ok, oks) = All-remove (IsReplica limit) before after r h.replicas_ok in
      let (ok', balance, cap) = Local-Balances rows rows' r log out m ok h.capped in
      let (left, right) = All-split (IsReplica limit) before after oks in
      record {
        replicas_ok = All-append (IsReplica limit) before (out.0 ∷ after) left (ok', right);
        funded = omega (
          arith,
          balance,
          h.funded,
          sum-remove held before after r,
          sum-remove held before after out.0,
        );
        capped = cap;
      }
  Step-IsFunded _ _ (prunes {rows} {replicas} {log} before le) h =
      let same = reserved_at-prune_rows key before start rows le in
      record {
        replicas_ok = h.replicas_ok;
        funded = omega (arith, h.funded);
        capped = omega (arith, h.capped);
      }

  Run-IsFunded : (f g : Fleet) → Run limit start f g → IsFunded f → IsFunded g
  Run-IsFunded f _ rests h = h
  Run-IsFunded f g (goes {g = m} run step) h = Step-IsFunded m g step (Run-IsFunded f m run h)

  Begins-held : (rs : List Replica) → All Begins rs → sum held rs ≡ 0
  unfolding held bucket_at
  Begins-held [] h = refl
  Begins-held (r ∷ rs) h =
      let (empty, unasked, unanswered) = h.0 in
      rw (empty, held) (rw unanswered (omega (arith, Begins-held rs h.1)))

no_bucket : (k : String) (b : Bucket) (bs : Buckets) → bs ≡ [] → bucket_at k bs ≡ some b → ⊥
unfolding bucket_at
no_bucket k b bs empty e = let e' : none ≡ some b = (rw empty at e) in cc

Begins-IsReplica : (limit : ℕ) (rs : List Replica) → All Begins rs → All (IsReplica limit) rs
unfolding bucket_at
Begins-IsReplica limit [] h = tt
Begins-IsReplica limit (r ∷ rs) h =
    let (empty, unasked, unanswered) = h.0 in
    (
      record {
        limiter_ok = record {
          distinct = rw empty tt;
          aligned = λ k b e. absurd (no_bucket k b r.limiter.buckets empty e);
        };
        asking_ok = rw unasked tt;
        answered_ok = rw unanswered tt;
      },
      Begins-IsReplica limit rs h.1,
    )

-- Replicas that start with no bucket and no reservation, on a table with nothing reserved of a key's
-- window, never pay more than `limit` requests of that key in that window out of the shared budget,
-- all replicas together: whatever the order of arrivals, commits, answers, failures and lost
-- answers, with sweeps, full resets and prunings of other windows in between. Every request of the
-- run has the same limit.
pub budget_bounds_fleet :
    (key : String) (start limit : ℕ) (f g : Fleet)
    → All Begins f.replicas
    → f.log ≡ []
    → reserved_at key start f.rows ≡ 0
    → Run limit start f g
    → paid_units key start g.log ≤ limit
budget_bounds_fleet key start limit f g h no_log none_reserved run =
    let ok = Run-IsFunded key start limit f g run (record {
      replicas_ok = Begins-IsReplica limit f.replicas h;
      funded = rw no_log (omega (arith, Begins-held key start limit f.replicas h));
      capped = omega arith;
    }) in
    omega (arith, ok.funded, ok.capped)
