-- ===== src/Secrets/Prune.antt =====
-- The invariant of the tables of secrets, and pruning (internal/store/secrets.go, pruneVersions).
use maintainerd_secret.Base.{
  ℕ, ◌≤◌, ◌<◌, ◌≡◌, refl, inl, inr, Bool, true, false, not, List, [], ◌∷◌, arith, ◌==◌, keep, All,
  Bool-cases,
}
use maintainerd_secret.Secrets.Rows.{
  SecretRow, VersionRow, Vault, delete_version, list_prunable, is_prunable,
}
use maintainerd_secret.Secrets.{prune_each, prune_rows}
use maintainerd_secret.Secrets.Order.{
  SFalls, VFalls, Newest, current_of, keep-All, keep-Newest, keep-VFalls,
}

abbrev pub Current : List SecretRow → VersionRow → Type 0
Current ss r = r.version ≤ current_of r.secret_id ss

abbrev pub Known : ℕ → VersionRow → Type 0
Known n r = r.secret_id < n

-- Ids fall along both tables, below their sequences; a secret's versions fall along theirs, up to
-- its current version; and no version is of a secret yet to come.
pub record IsVault (v : Vault) : Type 0 where
  pub secrets_fall : SFalls v.next_secret_id v.secrets
  pub versions_fall : VFalls v.next_version_id v.versions
  pub newest_first : Newest v.versions
  pub current : All (Current v.secrets) v.versions
  pub known : All (Known v.next_secret_id) v.versions

-- What a filter of the rows keeps.
pub record Filters (rs out : List VersionRow) : Type 1 where
  pub all : (P : VersionRow → Type 0) → All P rs → All P out
  pub newest : Newest rs → Newest out
  pub falls : (n : ℕ) → VFalls n rs → VFalls n out

pub Filters-keep : (p : VersionRow → Bool) (rs : List VersionRow) → Filters rs (keep p rs)
Filters-keep p rs = record {
  all = λ P h. keep-All P p rs h;
  newest = keep-Newest p rs;
  falls = λ n h. keep-VFalls p n rs h;
}

Filters-refl : (rs : List VersionRow) → Filters rs rs
Filters-refl rs = record { all = λ P h. h; newest = λ h. h; falls = λ n h. h }

Filters-trans : (a b c : List VersionRow) → Filters a b → Filters b c → Filters a c
Filters-trans a b c f g = record {
  all = λ P h. g.all P (f.all P h);
  newest = λ h. g.newest (f.newest h);
  falls = λ n h. g.falls n (f.falls n h);
}

pub prune_each-Filters :
    (current : ℕ) (ps rs : List VersionRow) → Filters rs (prune_each current ps rs).1
unfolding prune_each delete_version
prune_each-Filters current [] rs = Filters-refl rs
prune_each-Filters current (p ∷ ps) rs = elim (Bool-cases (p.version == current)) [
  | inl e ↦ rw e (prune_each-Filters current ps rs)
  | inr e ↦ rw e (
      Filters-trans rs _ _ (Filters-keep (λ r. not (r.version_id == p.version_id)) rs)
        (prune_each-Filters current ps (keep (λ r. not (r.version_id == p.version_id)) rs)))
]

abbrev Older : ℕ → VersionRow → Type 0
Older n r = r.version_id < n

VFalls-Older : (n : ℕ) (rs : List VersionRow) → VFalls n rs → All (Older n) rs
VFalls-Older n [] h = tt
VFalls-Older n (r ∷ rs) h =
    (h.0, weaken r.version_id n rs (omega (arith, h.0)) (VFalls-Older r.version_id rs h.1))
  where
    weaken : (m n : ℕ) (rs : List VersionRow) → m ≤ n → All (Older m) rs → All (Older n) rs
    weaken m n [] le h = tt
    weaken m n (r ∷ rs) le h = (omega (arith, h.0), weaken m n rs le h.1)

prune_each_head :
    (current : ℕ) (x : VersionRow) (ps rs : List VersionRow)
    → All (Older x.version_id) ps
    → (prune_each current ps (x ∷ rs)).1 ≡ x ∷ (prune_each current ps rs).1
unfolding prune_each delete_version keep
prune_each_head current x [] rs h = refl
prune_each_head current x (p ∷ ps) rs h = elim (Bool-cases (p.version == current)) [
  | inl e ↦ rw e (prune_each_head current x ps rs h.1)
  | inr e ↦
      let apart : (x.version_id == p.version_id) ≡ false = (let lt = h.0 in ground arith) in
      rw e (
        rw apart
          (prune_each_head current x ps (keep (λ r. not (r.version_id == p.version_id)) rs) h.1))
]

list_prunable_head :
    (id current k : ℕ) (x : VersionRow) (rs : List VersionRow)
    → x.version ≡ current
    → list_prunable id current k (x ∷ rs) ≡ keep (is_prunable id current k (x ∷ rs)) rs
unfolding list_prunable keep
list_prunable_head id current k x rs e =
    let same : (x.version == current) ≡ true = ground arith in
    let spared : is_prunable id current k (x ∷ rs) x ≡ false = ground arith in rw spared refl

-- The newest row of the table, if it is of the current version, outlives pruning.
pub prune_rows_head :
    (s : SecretRow) (k : ℕ) (x : VersionRow) (rs : List VersionRow)
    → x.version ≡ s.current_version
    → VFalls x.version_id rs
    → (rest : List VersionRow) × ((prune_rows s k (x ∷ rs)).1 ≡ x ∷ rest) × Filters rs rest
unfolding prune_rows
prune_rows_head s k x rs e h =
    let ps = keep (is_prunable s.secret_id s.current_version k (x ∷ rs)) rs in
    (
      (prune_each s.current_version ps rs).1,
      rw (list_prunable_head s.secret_id s.current_version k x rs e) (
          prune_each_head s.current_version x ps rs (
            keep-All (Older x.version_id) (is_prunable s.secret_id s.current_version k (x ∷ rs)) rs
              (VFalls-Older x.version_id rs h))),
      prune_each-Filters s.current_version ps rs,
    )
