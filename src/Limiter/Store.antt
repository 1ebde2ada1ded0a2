-- ===== src/Limiter/Store.antt =====
-- The shared budget of internal/platform/middleware/rate_limit_store.go: the table
-- rate_limit_buckets and the statement of Reserve.
use maintainerd_secret.Base.{
  ℕ, ◌+◌, ◌-◌, ◌≤◌, ◌≡◌, refl, min, Bool, true, false, ◌&&◌, List, [], ◌∷◌, String, inl, inr, arith,
  str_eq, str_eq_iff, &&_iff, ◌==◌, ltb, if◌then◌else◌, Bool-cases,
}

pub record BudgetRow : Type 0 where
  pub bucket_key : String
  pub window_start : ℕ
  pub reserved : ℕ

abbrev pub is_row : String → ℕ → BudgetRow → Bool
is_row key start r = str_eq r.bucket_key key && r.window_start == start

-- What is reserved of a window's budget: nothing where there is no row.
unfoldable pub reserved_at : String → ℕ → List BudgetRow → ℕ
reserved_at key start [] = 0
reserved_at key start (r ∷ rs) =
    let rest = reserved_at key start rs in if is_row key start r then r.reserved else rest

-- The upsert of reserveSQL, on the first row of the key and the window.
unfoldable pub upsert : String → ℕ → ℕ → ℕ → List BudgetRow → List BudgetRow
upsert key start slice limit [] =
    record { bucket_key = key; window_start = start; reserved = min slice limit } ∷ []
upsert key start slice limit (r ∷ rs) =
    let rest = upsert key start slice limit rs in
    if is_row key start r
    then record r { reserved = min limit (r.reserved + slice) } ∷ rs
    else r ∷ rest

abbrev pub clamp_slice : ℕ → ℕ → ℕ
clamp_slice limit slice =
    let s = if slice == 0 then 1 else slice in if ltb limit s then limit else s

-- Reserve: the grant, at least 0, and the table.
unfoldable pub reserve : String → ℕ → ℕ → ℕ → List BudgetRow → ℕ × List BudgetRow
reserve key start limit slice rows =
    if limit == 0
    then (0, rows)
    else let s = clamp_slice limit slice in
      (
        min limit (reserved_at key start rows + s) - reserved_at key start rows,
        upsert key start s limit rows,
      )

-- Prune.
unfoldable pub prune_rows : ℕ → List BudgetRow → List BudgetRow
prune_rows before [] = []
prune_rows before (r ∷ rs) =
    let rest = prune_rows before rs in if ltb r.window_start before then rest else r ∷ rest

-- Two pairs of a key and a window are the same, or no row is of both.
apart :
    (key key' : String) (start start' : ℕ) (r : BudgetRow)
    → (str_eq key' key && start' == start) ≡ false
    → is_row key' start' r ≡ true
    → is_row key start r ≡ false
apart key key' start start' r no_match h =
    let (same, own) = (&&_iff _ _).0 h in
    let e : r.bucket_key ≡ key' = (str_eq_iff r.bucket_key key').0 same in rw e (ground arith)

reserved_at-upsert :
    (key : String) (start slice limit : ℕ) (rows : List BudgetRow)
    → reserved_at key start (upsert key start slice limit rows)
      ≡ min limit (reserved_at key start rows + slice)
unfolding reserved_at upsert
reserved_at-upsert key start slice limit [] = rw ((str_eq_iff key key).1 refl) (ground arith)
reserved_at-upsert key start slice limit (r ∷ rs) = elim (Bool-cases (is_row key start r)) [
  | inl e ↦ rw e (rw e refl)
  | inr e ↦ rw e (rw e (reserved_at-upsert key start slice limit rs))
]

reserved_at-upsert-other :
    (key key' : String) (start start' slice limit : ℕ) (rows : List BudgetRow)
    → (str_eq key' key && start' == start) ≡ false
    → reserved_at key start (upsert key' start' slice limit rows) ≡ reserved_at key start rows
unfolding reserved_at upsert
reserved_at-upsert-other key key' start start' slice limit [] no_match = rw no_match refl
reserved_at-upsert-other key key' start start' slice limit (r ∷ rs) no_match =
    elim (Bool-cases (is_row key' start' r)) [
      | inl e ↦ rw e (rw (apart key key' start start' r no_match e) refl)
      | inr e ↦
          rw e (rw (reserved_at-upsert-other key key' start start' slice limit rs no_match) refl)
    ]

-- A reservation pays for its grant out of the budget of its own window, and never above the limit.
pub reserve_lem :
    (key key' : String) (start start' limit slice : ℕ) (rows : List BudgetRow)
    → reserved_at key start rows ≤ limit
    → (reserved_at key start rows
          + (if str_eq key' key
              then (if start' == start then (reserve key' start' limit slice rows).0 else 0)
              else 0)
        ≤ reserved_at key start (reserve key' start' limit slice rows).1)
      × (reserved_at key start (reserve key' start' limit slice rows).1 ≤ limit)
unfolding reserve
reserve_lem key key' start start' limit slice rows le = elim (Bool-cases (limit == 0)) [
  | inl e ↦ rw e (ground arith)
  | inr e ↦ rw e (elim (Bool-cases (str_eq key' key && start' == start)) [
    | inr other ↦
        rw
          (reserved_at-upsert-other key key' start start' (clamp_slice limit slice) limit rows
            other)
          (ground arith)
    | inl same ↦
        let (k, s) = (&&_iff (str_eq key' key) (start' == start)).0 same in
        let eq : start' ≡ start = ground arith in
        rw ((str_eq_iff key' key).0 k) (
          rw eq
            (rw (reserved_at-upsert key start (clamp_slice limit slice) limit rows) (ground arith)))
  ])
]

pub reserved_at-prune_rows :
    (key : String) (before start : ℕ) (rows : List BudgetRow)
    → before ≤ start
    → reserved_at key start (prune_rows before rows) ≡ reserved_at key start rows
unfolding reserved_at prune_rows
reserved_at-prune_rows key before start [] le = refl
reserved_at-prune_rows key before start (r ∷ rs) le =
    ground (arith, reserved_at-prune_rows key before start rs le)
