-- ===== src/Lease/Accounting.antt =====
-- What a history of leased reads guarantees: the table stays well formed, every read that is served
-- is charged to one lease, and no lease serves more reads than its cap.
use maintainerd_secret.Base.{
  ℕ, suc, ◌+◌, ◌≤◌, ◌<◌, ◌≡◌, ◌≢◌, refl, sym, subst, ◌==◌, if◌then◌else◌, ◌⊎◌, inl, inr, Bool, true,
  false, Option, none, some, List, [], ◌∷◌, String, arith, find_first, update_where, count_where,
  All, Bool-cases, Option-cases, count_where-update_where-le, count_where-find_first-none,
  update_where-All, str_eq_iff,
}
use mathlib.Core.Path.{subst₂}
use maintainerd_secret.Lease.Rows.{
  LeaseRow, LeaseTable, held_by, under_cap, consumable, charge, close, create, consume_lease,
}

-- The ids fall along the table, below the bound.
abbrev pub Falls : ℕ → List LeaseRow → Type 0
Falls n [] = Unit {0}
Falls n (r ∷ rs) = (r.lease_id < n) × Falls r.lease_id rs

abbrev pub WithinCap : Option ℕ → ℕ → Type 0
WithinCap none used = Unit {0}
WithinCap (some cap) used = used ≤ cap

abbrev pub IsWithinCap : LeaseRow → Type 0
IsWithinCap r = WithinCap r.max_reads r.reads_used

-- Ids are fresh and distinct, no cap is exceeded, and a requester holds at most one live lease on a
-- secret.
pub record IsTable (t : LeaseTable) : Type 0 where
  pub falls : Falls t.next_id t.rows
  pub capped : All IsWithinCap t.rows
  pub one_live : (secret : ℕ) (who : String) → count_where (held_by secret who) t.rows ≤ 1

-- The reads served so far, over all leases.
reads : List LeaseRow → ℕ
reads [] = 0
reads (r ∷ rs) = r.reads_used + reads rs

unfoldable pub total_reads : LeaseTable → ℕ
unfolding reads
total_reads t = reads t.rows

-- The reads served under the lease of an id.
unfoldable pub reads_under : ℕ → List LeaseRow → ℕ
reads_under id [] = 0
reads_under id (r ∷ rs) =
    let rest = reads_under id rs in if r.lease_id == id then r.reads_used + rest else rest

-- One read more under the lease of an id, and none under another lease.
abbrev pub ChargesOne : ℕ → LeaseTable → LeaseTable → Type 0
ChargesOne id t t' =
    (reads_under id t'.rows ≡ reads_under id t.rows + 1)
    × ((other : ℕ) → other ≢ id → reads_under other t'.rows ≡ reads_under other t.rows)

-- No lease has served another number of reads.
abbrev pub SameReads : LeaseTable → LeaseTable → Type 0
SameReads t t' = (id : ℕ) → reads_under id t'.rows ≡ reads_under id t.rows

module _ (p : LeaseRow → Bool) (f : LeaseRow → LeaseRow)
    (same : (r : LeaseRow) → (f r).lease_id ≡ r.lease_id) where
  update_where-Falls : (n : ℕ) (rs : List LeaseRow) → Falls n rs → Falls n (update_where p f rs)
  unfolding update_where
  update_where-Falls n [] h = tt
  update_where-Falls n (r ∷ rs) h = elim (Bool-cases (p r)) [
    | inl e ↦ rw e (rw (same r) (h.0, update_where-Falls r.lease_id rs h.1))
    | inr e ↦ rw e (h.0, update_where-Falls r.lease_id rs h.1)
  ]

charge_above :
    (id now n : ℕ) (rs : List LeaseRow)
    → Falls n rs
    → n ≤ id
    → update_where (consumable id now) (charge now) rs ≡ rs
unfolding update_where
charge_above id now n [] h le = refl
charge_above id now n (r ∷ rs) h le = ground (arith, charge_above id now r.lease_id rs h.1)

-- One read is charged where a row is found.
reads-charge :
    (id now n : ℕ) (rs : List LeaseRow) (r : LeaseRow)
    → Falls n rs
    → find_first (consumable id now) rs ≡ some r
    → reads (update_where (consumable id now) (charge now) rs) ≡ reads rs + 1
unfolding update_where find_first reads
reads-charge id now n [] r h e = cc
reads-charge id now n (x ∷ rs) r h e =
    ground (arith, charge_above id now x.lease_id rs h.1, reads-charge id now x.lease_id rs r h.1)

reads_under-charge :
    (id now n : ℕ) (rs : List LeaseRow) (r : LeaseRow)
    → Falls n rs
    → find_first (consumable id now) rs ≡ some r
    → reads_under id (update_where (consumable id now) (charge now) rs) ≡ reads_under id rs + 1
unfolding update_where find_first reads_under
reads_under-charge id now n [] r h e = cc
reads_under-charge id now n (x ∷ rs) r h e =
    ground
      (arith, charge_above id now x.lease_id rs h.1, reads_under-charge id now x.lease_id rs r h.1)

reads_under_other :
    (id now other : ℕ) (rs : List LeaseRow)
    → other ≢ id
    → reads_under other (update_where (consumable id now) (charge now) rs) ≡ reads_under other rs
unfolding update_where reads_under
reads_under_other id now other [] ne = refl
reads_under_other id now other (x ∷ rs) ne =
    ground (arith, ne, reads_under_other id now other rs ne)

reads_under-close :
    (p : LeaseRow → Bool) (now : ℕ) (reason : String) (id : ℕ) (rs : List LeaseRow)
    → reads_under id (update_where p (close now reason) rs) ≡ reads_under id rs
unfolding reads_under update_where
reads_under-close p now reason id [] = refl
reads_under-close p now reason id (r ∷ rs) = ground (arith, reads_under-close p now reason id rs)

-- Closing rows charges no lease.
pub close-SameReads :
    (p : LeaseRow → Bool) (now : ℕ) (reason : String) (t : LeaseTable)
    → SameReads t (record t { rows = update_where p (close now reason) t.rows })
close-SameReads p now reason t id = reads_under-close p now reason id t.rows

WithinCap-suc :
    (cap : Option ℕ) (used : ℕ)
    → under_cap cap used ≡ true
    → WithinCap cap used
    → WithinCap cap (used + 1)
WithinCap-suc none used e h = tt
WithinCap-suc (some c) used e h = ground arith

WithinCap-zero : (cap : Option ℕ) → WithinCap cap 0
WithinCap-zero none = tt
WithinCap-zero (some c) = omega arith

charge-IsWithinCap :
    (id now : ℕ) (r : LeaseRow)
    → consumable id now r ≡ true
    → IsWithinCap r
    → IsWithinCap (charge now r)
charge-IsWithinCap id now r e h = WithinCap-suc r.max_reads r.reads_used (ground arith) h

reads-close :
    (p : LeaseRow → Bool) (now : ℕ) (reason : String) (rs : List LeaseRow)
    → reads (update_where p (close now reason) rs) ≡ reads rs
unfolding reads update_where
reads-close p now reason [] = refl
reads-close p now reason (r ∷ rs) = ground (arith, reads-close p now reason rs)

-- Closing rows keeps the table well formed and the count of reads.
pub close-IsTable :
    (p : LeaseRow → Bool) (now : ℕ) (reason : String) (t : LeaseTable)
    → IsTable t
    → let t' = record t { rows = update_where p (close now reason) t.rows } in
      IsTable t' × (total_reads t' ≡ total_reads t)
unfolding total_reads
close-IsTable p now reason t v = (
  record {
    falls = update_where-Falls p (close now reason) (λ r. refl) t.next_id t.rows v.falls;
    capped = update_where-All IsWithinCap p (close now reason) (λ r e h. h) t.rows v.capped;
    one_live = λ secret who. omega (
      arith,
      count_where-update_where-le (held_by secret who) p (close now reason) (λ r e. ground arith)
          t.rows,
      v.one_live secret who,
    );
  },
  reads-close p now reason t.rows,
)

charged_table : ℕ → ℕ → LeaseTable → LeaseTable
charged_table id now t = record t { rows = update_where (consumable id now) (charge now) t.rows }

charge-IsTable : (id now : ℕ) (t : LeaseTable) → IsTable t → IsTable (charged_table id now t)
unfolding charged_table
charge-IsTable id now t v = record {
  falls = update_where-Falls (consumable id now) (charge now) (λ r. refl) t.next_id t.rows v.falls;
  capped =
      update_where-All IsWithinCap (consumable id now) (charge now)
        (λ r e h. charge-IsWithinCap id now r e h) t.rows v.capped;
  one_live = λ secret who. omega (
    arith,
    count_where-update_where-le (held_by secret who) (consumable id now) (charge now)
        (λ r e. ground arith) t.rows,
    v.one_live secret who,
  );
}

consume_lease_cases :
    (id now n : ℕ) (t t' : LeaseTable)
    → consume_lease id now t ≡ some (n, t')
    → ((n ≡ 0) × (t' ≡ t))
      ⊎ ((r : LeaseRow) × (find_first (consumable id now) t.rows ≡ some r)
          × (n ≡ 1)
          × (t' ≡ charged_table id now t))
unfolding consume_lease charged_table
consume_lease_cases id now n t t' e = elim (Option-cases (find_first (consumable id now) t.rows)) [
  | inl missing ↦ inl (ground arith)
  | inr (r, found) ↦ inr (r, found, ground arith, ground arith)
]

-- ConsumeSecretLease charges exactly the reads that it reports.
pub consume_lease-IsTable :
    (id now n : ℕ) (t t' : LeaseTable)
    → IsTable t
    → consume_lease id now t ≡ some (n, t')
    → IsTable t' × (total_reads t' ≡ total_reads t + n) × (n ≤ 1)
unfolding total_reads charged_table
consume_lease-IsTable id now n t t' v e = elim (consume_lease_cases id now n t t' e) [
  | inl (zero_rows, same) ↦ rw (same, zero_rows) (v, omega arith, omega arith)
  | inr (r, found, one_row, same) ↦
      rw (same, one_row)
        (
          charge-IsTable id now t v,
          reads-charge id now t.next_id t.rows r v.falls found,
          omega arith,
        )
]

module _ (secret : ℕ) (who : String) (row : LeaseRow) (rs : List LeaseRow) where
  -- A row beside which nobody holds the lease keeps every pair at one live lease.
  one_live-cons :
      count_where (held_by row.secret_id row.requester) rs ≡ 0
      → count_where (held_by secret who) rs ≤ 1
      → count_where (held_by secret who) (row ∷ rs) ≤ 1
  unfolding count_where
  one_live-cons free old = elim (Bool-cases (held_by secret who row)) [
    | inl e ↦
        let s : row.secret_id ≡ secret = ground arith in
        let w : row.requester ≡ who = ground (arith, str_eq_iff row.requester who) in
        let z : count_where (held_by secret who) rs ≡ 0 =
          subst₂ (λ a b. count_where (held_by a b) rs ≡ 0) s w free in
        rw (e, z) (omega arith)
    | inr e ↦ rw e old
  ]

create_cases :
    (new row : LeaseRow) (t t' : LeaseTable)
    → create new t ≡ some (row, t')
    → (find_first (held_by new.secret_id new.requester) t.rows ≡ none)
      × (row ≡ record new { lease_id = t.next_id })
      × (t' ≡ record t {
        rows = record new { lease_id = t.next_id } ∷ t.rows;
        next_id = suc t.next_id;
      })
unfolding create
create_cases new row t t' e = (ground arith, ground arith, ground arith)

-- CreateSecretLease adds an unread lease that nobody held.
pub create-IsTable :
    (new row : LeaseRow) (t t' : LeaseTable)
    → IsTable t
    → new.reads_used ≡ 0
    → create new t ≡ some (row, t')
    → IsTable t' × (total_reads t' ≡ total_reads t)
unfolding total_reads reads
create-IsTable new row t t' v unread e =
    let (free, _, same) = create_cases new row t t' e in
    rw same (
      record {
        falls = (omega arith, v.falls);
        capped = (rw unread (WithinCap-zero new.max_reads), v.capped);
        one_live = λ secret who.
            one_live-cons secret who (record new { lease_id = t.next_id }) t.rows
              (count_where-find_first-none _ t.rows free) (v.one_live secret who);
      },
      rw unread (omega arith),
    )

-- A consumption that reports a row charges the lease of its id alone.
pub consume_lease-ChargesOne :
    (id now n : ℕ) (t t' : LeaseTable)
    → IsTable t
    → consume_lease id now t ≡ some (n, t')
    → (n == 0) ≡ false
    → ChargesOne id t t'
unfolding charged_table
consume_lease-ChargesOne id now n t t' v e some_row = elim (consume_lease_cases id now n t t' e) [
  | inl (zero_rows, same) ↦ absurd (ground (arith, zero_rows, some_row))
  | inr (r, found, one_row, same) ↦ subst (ChargesOne id t) (sym same) (
    reads_under-charge id now t.next_id t.rows r v.falls found,
    λ other ne. reads_under_other id now other t.rows ne,
  )
]

-- A new lease is unread.
pub create-SameReads :
    (new row : LeaseRow) (t t' : LeaseTable)
    → new.reads_used ≡ 0
    → create new t ≡ some (row, t')
    → SameReads t t'
unfolding reads_under
create-SameReads new row t t' unread e id =
    let (free, _, same) = create_cases new row t t' e in
    subst (λ (x : LeaseTable). reads_under id x.rows ≡ reads_under id t.rows) (sym same)
      (ground (arith, unread))
