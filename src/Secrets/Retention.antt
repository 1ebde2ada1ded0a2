-- ===== src/Secrets/Retention.antt =====
-- Retention: how many versions pruning leaves (internal/store/secrets.go, pruneVersions).
use maintainerd_secret.Base.{
  ℕ, ◌+◌, ◌≤◌, ◌≡◌, refl, subst, inl, inr, Bool, true, false, not, ◌&&◌, some, List, [], ◌∷◌, arith,
  ltb, ltb→lt, &&_iff, ◌==◌, keep, count_where, All, All-map, Bool-cases, ok,
}
use maintainerd_secret.Secrets.Rows.{
  SecretRow, VersionRow, Vault, Address, stands_at, get_by_address, of_secret, above, is_prunable,
  list_prunable,
}
use maintainerd_secret.Secrets.{Service, effective_keep_versions, prune_rows, prune_versions}
use maintainerd_secret.Secrets.Order.{Newest, current_of, find_first-has_id}
use maintainerd_secret.Secrets.Prune.{Current, IsVault}
use maintainerd_secret.Secrets.Ranks.{
  count_where-All-le, prune_each-count, keep-chosen, chosen, is_top, top_count,
}

keep_passes : (p : VersionRow → Bool) (rs : List VersionRow) → All (λ r. p r ≡ true) (keep p rs)
unfolding keep
keep_passes p [] = tt
keep_passes p (r ∷ rs) = elim (Bool-cases (p r)) [
  | inl e ↦ rw e (e, keep_passes p rs)
  | inr e ↦ rw e (keep_passes p rs)
]

above_none :
    (id n : ℕ) (rs : List VersionRow)
    → All (λ r. r.secret_id ≡ id → r.version ≤ n) rs
    → above id n rs ≡ 0
unfolding count_where
above_none id n [] h = refl
above_none id n (r ∷ rs) h = elim (Bool-cases (of_secret id r && ltb n r.version)) [
  | inl e ↦
      let (own, lt) = (&&_iff (of_secret id r) (ltb n r.version)).0 e in
      let same : r.secret_id ≡ id = ground arith in
      let le = h.0 same in absurd (let l = ltb→lt n r.version lt in omega arith)
  | inr e ↦ rw e (above_none id n rs h.1)
]

not_current :
    (id current k : ℕ) (rs : List VersionRow) (p : VersionRow)
    → is_prunable id current k rs p ≡ true
    → (p.version == current) ≡ false
not_current id current k rs p e = ground arith

spared :
    (id current k : ℕ) (rs : List VersionRow) (ps : List VersionRow) (r : VersionRow)
    → above id current rs ≡ 0
    → 1 ≤ k
    → (is_prunable id current k rs r ≡ true → chosen r.version_id ps ≡ true)
    → (of_secret id r && not (chosen r.version_id ps)) ≡ true
    → is_top id k 0 rs r ≡ true
spared id current k rs ps r z pos f t =
    let (own, out) = (&&_iff (of_secret id r) (not (chosen r.version_id ps))).0 t in
    elim (Bool-cases (ltb (above id r.version rs) k)) [
      | inl e ↦
          let lt = ltb→lt (above id r.version rs) k e in
          (&&_iff (of_secret id r) (ltb (0 + above id r.version rs) k)).1 (own, ground arith)
      | inr e ↦ elim (Bool-cases (r.version == current)) [
        | inl c ↦
            let same : r.version ≡ current = ground arith in
            let z' : above id r.version rs ≡ 0 = rw same z in
            (&&_iff (of_secret id r) (ltb (0 + above id r.version rs) k)).1
              (own, rw z' (ground arith))
        | inr c ↦
            let g : is_prunable id current k rs r ≡ true = rw own (rw c (rw e refl)) in
            let hit = f g in absurd (let no_hit : (not true) ≡ true = (rw hit at out) in cc)
      ]
    ]

prune_rows_bound :
    (s : SecretRow) (k : ℕ) (rs : List VersionRow)
    → 1 ≤ k
    → Newest rs
    → above s.secret_id s.current_version rs ≡ 0
    → count_where (of_secret s.secret_id) (prune_rows s k rs).1 ≤ k
unfolding prune_rows list_prunable
prune_rows_bound s k rs pos h z =
    let id = s.secret_id in
    let g = is_prunable id s.current_version k rs in
    let ps = keep g rs in
    let others =
      All-map (λ p. g p ≡ true) (λ p. (p.version == s.current_version) ≡ false)
        (λ p e. not_current id s.current_version k rs p e) ps (keep_passes g rs) in
    let left = prune_each-count s.current_version (of_secret id) ps rs others in
    let le =
      count_where-All-le (λ r. of_secret id r && not (chosen r.version_id ps)) (is_top id k 0 rs) rs
        (All-map (λ r. g r ≡ true → chosen r.version_id ps ≡ true)
          (λ r. (of_secret id r && not (chosen r.version_id ps)) ≡ true → is_top id k 0 rs r ≡ true)
          (λ r f t. spared id s.current_version k rs ps r z pos f t) rs (keep-chosen g rs)) in
    let most = top_count id k 0 rs h in omega arith

keep_positive : (svc : Service) (s : SecretRow) → 1 ≤ effective_keep_versions svc s
unfolding effective_keep_versions
keep_positive svc s = ground arith

highest :
    (a : Address) (s : SecretRow) (v : Vault)
    → IsVault v
    → get_by_address a v ≡ some s
    → above s.secret_id s.current_version v.versions ≡ 0
unfolding get_by_address current_of
highest a s v h found = above_none s.secret_id s.current_version v.versions (
    All-map (Current v.secrets) (λ r. r.secret_id ≡ s.secret_id → r.version ≤ s.current_version)
      (λ r le same.
        let own : current_of s.secret_id v.secrets ≡ s.current_version =
          rw (find_first-has_id (stands_at a) v.next_secret_id v.secrets s h.secrets_fall found)
            refl in
        let le' : r.version ≤ current_of s.secret_id v.secrets =
          subst (λ i. r.version ≤ current_of i v.secrets) same le in
        omega arith)
      v.versions h.current)

-- Retention by PruneVersions leaves at most as many versions of the secret as it is to keep, and this is
-- at least one.
pub prune_versions_bound :
    (svc : Service) (a : Address) (s : SecretRow) (n : ℕ) (v v' : Vault)
    → IsVault v
    → get_by_address a v ≡ some s
    → prune_versions svc a v ≡ ok (v', n)
    → count_where (of_secret s.secret_id) v'.versions ≤ effective_keep_versions svc s
unfolding prune_versions
prune_versions_bound svc a s n v v' h found ran =
    let k = effective_keep_versions svc s in
    let done : ok
          (record v { versions = (prune_rows s k v.versions).1 }, (prune_rows s k v.versions).0)
        ≡ ok (v', n) =
      rw (found, prune_versions) at ran in
    let same : record v { versions = (prune_rows s k v.versions).1 } ≡ v' = cc in
    subst (λ (x : Vault). count_where (of_secret s.secret_id) x.versions ≤ k) same
      (prune_rows_bound s k v.versions (keep_positive svc s) h.newest_first (highest a s v h found))
