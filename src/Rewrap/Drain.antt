-- ===== src/Rewrap/Drain.antt =====
-- A rotation whose rewraps succeed drains the old key (internal/crypto/rewrap.go).
use maintainerd_secret.Base.{
  ℕ, zero, suc, ◌+◌, ◌≤◌, ◌<◌, ◌≡◌, ◌≢◌, refl, sym, subst, find_first, ◌∙◌, inl, inr, true, false,
  not, Option, some, List, [], ◌∷◌, String, arith, ltb, ◌==◌, str_eq, str_eq_iff, length,
  count_where, update_where, All, update_where-All, Bool-cases, if-cases,
}
use maintainerd_secret.Crypto.Aad.{Bytes}
use maintainerd_secret.Crypto.{RootKeyProvider, KeyRing, lookup, rewrap}
use maintainerd_secret.Secrets.Rows.{VersionRow}
use maintainerd_secret.Rewrap.{
  KeyTables, RootKey, RewrapReport, retired, is_key, retirable, Pass, names, under, set_wrap,
  rewrap_version, list_wraps, persist, rewrap_one, rewrap_batch, rewrap_loop, retire_root_key,
  retire, conclude, drain_with, rewrap_all, batch_size, rounds,
}
use maintainerd_secret.Rewrap.Listing.{
  list_wraps-All, Waits, list_wraps-Waits, Waits-none, own_count,
}

-- The wrapped key of the row can be rewrapped, whatever the random source gives.
abbrev pub CanRewrap : RootKeyProvider → RootKeyProvider → VersionRow → Type 0
CanRewrap from target r =
    (nonce : Bytes)
    → (w : Bytes × Bytes) × (rewrap from target nonce r.envelope.dek_wrapped r.envelope.dek_nonce
        ≡ some w)

different : (a b : String) → a ≢ b → str_eq a b ≡ false
different a b h = elim (Bool-cases (str_eq a b)) [
  | inl e ↦ absurd (h ((str_eq_iff a b).0 e))
  | inr e ↦ e
]

module _ (draw : ℕ → Bytes) (kek : String) (from target : RootKeyProvider)
    (apart : str_eq target.key_id kek ≡ false) where
  abbrev Works : VersionRow → Type 0
  Works r = under kek r ≡ true → CanRewrap from target r

  moved : VersionRow → Bytes → Bytes → List VersionRow → List VersionRow
  moved w wrapped nonce rs = rewrap_version w.version_id kek wrapped nonce target.key_id rs

  no_longer :
      (r : VersionRow) (wrapped nonce : Bytes)
      → under kek (set_wrap wrapped nonce target.key_id r) ≡ true
      → ⊥
  no_longer r wrapped nonce u = let f : false ≡ true = sym apart ∙ u in cc

  moved-Works :
      (w : VersionRow) (wrapped nonce : Bytes) (rs : List VersionRow)
      → All Works rs
      → All Works (moved w wrapped nonce rs)
  unfolding moved rewrap_version
  moved-Works w wrapped nonce rs h =
      update_where-All Works (names w.version_id kek) (set_wrap wrapped nonce target.key_id)
        (λ r e g u. absurd (no_longer r wrapped nonce u)) rs h

  moved-count :
      (w : VersionRow) (wrapped nonce : Bytes) (rs : List VersionRow)
      → count_where (under kek) (moved w wrapped nonce rs) + count_where (names w.version_id kek) rs
        ≡ count_where (under kek) rs
  unfolding moved rewrap_version count_where update_where
  moved-count w wrapped nonce [] = refl
  moved-count w wrapped nonce (r ∷ rs) = ground (arith, apart, moved-count w wrapped nonce rs)

  moved-Waits :
      (w : VersionRow) (ws : List VersionRow) (wrapped nonce : Bytes) (rs : List VersionRow)
      → Waits kek (w ∷ ws) rs
      → Waits kek ws (moved w wrapped nonce rs)
  unfolding moved rewrap_version update_where
  moved-Waits w ws wrapped nonce [] h = tt
  moved-Waits w ws wrapped nonce (r ∷ rs) h = elim (Bool-cases (names w.version_id kek r)) [
    | inl e ↦
        rw e ((λ u. absurd (no_longer r wrapped nonce u)), moved-Waits w ws wrapped nonce rs h.1)
    | inr e ↦ rw e ((λ u. let g = h.0 u in ground arith), moved-Waits w ws wrapped nonce rs h.1)
  ]

  rewrap_one_lem :
      (w : VersionRow) (p : Pass) (wrapped nonce : Bytes)
      → rewrap from target (draw p.count) w.envelope.dek_wrapped w.envelope.dek_nonce
        ≡ some (wrapped, nonce)
      → rewrap_one draw kek from target w p
        ≡ record { rows = moved w wrapped nonce p.rows; count = p.count + 1; fine = true }
  unfolding rewrap_one moved
  rewrap_one_lem w p wrapped nonce e = rw (e, persist) refl

  abbrev first_count : List VersionRow → List VersionRow → ℕ
  first_count [] rs = 0
  first_count (w ∷ ws) rs = count_where (names w.version_id kek) rs

  -- What a batch whose rewraps succeed has done.
  record Progresses (ws : List VersionRow) (p p' : Pass) : Type 0 where
    fine : p'.fine ≡ true
    works : All Works p'.rows
    fewer : count_where (under kek) p'.rows + first_count ws p.rows ≤ count_where (under kek) p.rows
    waits : Waits kek ws p.rows → Waits kek [] p'.rows

  rewrap_batch-Progresses :
      (ws : List VersionRow) (p : Pass)
      → p.fine ≡ true
      → All Works p.rows
      → All (CanRewrap from target) ws
      → Progresses ws p (rewrap_batch draw kek from target ws p)
  unfolding rewrap_batch
  rewrap_batch-Progresses [] p fine works can = record {
    fine = fine;
    works = works;
    fewer = omega arith;
    waits = λ h. h;
  }
  rewrap_batch-Progresses (w ∷ ws) p fine works can =
      let ((wrapped, nonce), e) = can.0 (draw p.count) in
      let p' : Pass = record {
        rows = moved w wrapped nonce p.rows;
        count = p.count + 1;
        fine = true;
      } in
      let rest =
        rewrap_batch-Progresses ws p' refl (moved-Works w wrapped nonce p.rows works) can.1 in
      rw (rewrap_one_lem w p wrapped nonce e) (record {
        fine = rest.fine;
        works = rest.works;
        fewer =
            (let less = rest.fewer in let one = moved-count w wrapped nonce p.rows in omega arith);
        waits = λ h. rest.waits (moved-Waits w ws wrapped nonce p.rows h);
      })

  abbrev Drained : Pass → Type 0
  Drained p = (p.fine ≡ true) × (count_where (under kek) p.rows ≡ 0)

  first_counts :
      (ws rs : List VersionRow)
      → All (λ w. 1 ≤ count_where (names w.version_id kek) rs) ws
      → 1 ≤ length ws
      → 1 ≤ first_count ws rs
  first_counts [] rs h l = absurd (omega (arith, l))
  first_counts (w ∷ ws) rs h l = h.0

  -- Enough fuel is one round more than there are rows under the key.
  rewrap_loop-Drained :
      (batch fuel : ℕ) (p : Pass)
      → 1 ≤ batch
      → count_where (under kek) p.rows < fuel
      → p.fine ≡ true
      → All Works p.rows
      → Drained (rewrap_loop draw kek from target batch fuel p)
  unfolding rewrap_loop
  rewrap_loop-Drained batch zero p some_batch enough fine works = absurd (omega (arith, enough))
  rewrap_loop-Drained batch (suc fuel) p some_batch enough fine works =
      let ws = list_wraps kek batch p.rows in
      let went =
        rewrap_batch-Progresses ws p fine works
          (list_wraps-All kek (CanRewrap from target) batch p.rows works) in
      let p' = rewrap_batch draw kek from target ws p in
      let is_fine = went.fine in
      if-cases Drained (not p'.fine) _ _
        (λ e. let f : false ≡ true = (rw is_fine at e) in absurd cc)
        (λ e.
          if-cases Drained (ltb (length ws) batch) _ _
            (λ short. (
              is_fine,
              Waits-none kek p'.rows
                  (went.waits (list_wraps-Waits kek batch p.rows (ground arith))),
            ))
            (λ full.
              let less = went.fewer in
              let moved_one =
                first_counts ws p.rows
                  (list_wraps-All kek (λ w. 1 ≤ count_where (names w.version_id kek) p.rows) batch
                    p.rows (own_count kek p.rows))
                  (ground arith) in
              rewrap_loop-Drained batch fuel p' some_batch (omega arith) is_fine went.works))

positive : (batch : ℕ) → 1 ≤ batch_size batch
positive batch = ground arith

module _ (kek : String) (key : RootKey) where
  -- The update of a key that may be retired retires the row of its id.
  retired_row :
      (keys : List RootKey)
      → find_first (is_key kek) keys ≡ some key
      → retirable kek key ≡ true
      → find_first
          (is_key kek)
          (update_where (retirable kek) (λ k. record k { state = retired }) keys)
        ≡ some (record key { state = retired })
  unfolding find_first update_where
  retired_row [] h r = cc
  retired_row (k ∷ keys) h r = elim (Bool-cases (is_key kek k)) [
    | inl e ↦
        let head : ◌≡◌ {A = Option RootKey} (some k) (some key) = (rw e at h) in
        let same : key ≡ k = cc in
        let may : retirable kek k ≡ true = subst (λ (x : RootKey). retirable kek x ≡ true) same r in
        rw (may, e, same) refl
    | inr e ↦
        let no : retirable kek k ≡ false = rw e refl in rw (no, e) (retired_row keys (rw e at h) r)
  ]

  found_retirable :
      (keys : List RootKey)
      → find_first (is_key kek) keys ≡ some key
      → retirable kek key ≡ true
      → (k : RootKey) × (find_first (retirable kek) keys ≡ some k)
  unfolding find_first
  found_retirable [] h r = absurd cc
  found_retirable (k ∷ keys) h r = elim (Bool-cases (retirable kek k)) [
    | inl e ↦ rw e (k, refl)
    | inr e ↦ elim (Bool-cases (is_key kek k)) [
      | inl own ↦
          let head : ◌≡◌ {A = Option RootKey} (some k) (some key) = (rw own at h) in
          let same : key ≡ k = cc in
          absurd (
            let may : retirable kek k ≡ true =
              subst (λ (x : RootKey). retirable kek x ≡ true) same r in
            let f : false ≡ true = sym e ∙ may in cc)
      | inr other ↦ rw e (found_retirable keys (rw other at h) r)
    ]
  ]

  retire_root_key_lem :
      (keys : List RootKey)
      → find_first (is_key kek) keys ≡ some key
      → retirable kek key ≡ true
      → (new : List RootKey) × (retire_root_key kek keys ≡ some new)
        × (find_first (is_key kek) new ≡ some (record key { state = retired }))
  unfolding retire_root_key
  retire_root_key_lem keys h r =
      let (k, found) = found_retirable keys h r in
      (
        update_where (retirable kek) (λ k. record k { state = retired }) keys,
        rw (found, retire_root_key) refl,
        retired_row keys h r,
      )

-- The report, the rows and the key of the id at the end.
abbrev Ends : String → RootKey → Option RewrapReport × KeyTables → Type 0
Ends kek key out =
    (report : RewrapReport) × (out.0 ≡ some report)
    × (report.remaining ≡ 0)
    × (report.retired_key ≡ true)
    × (find_first (is_key kek) out.1.root_keys ≡ some (record key { state = retired }))
    × (count_where (under kek) out.1.versions ≡ 0)

conclude-Ends :
    (t : KeyTables) (kek : String) (key : RootKey) (p : Pass)
    → p.fine ≡ true
    → count_where (under kek) p.rows ≡ 0
    → find_first (is_key kek) t.root_keys ≡ some key
    → retirable kek key ≡ true
    → Ends kek key (conclude t kek p)
conclude-Ends t kek key p fine none_left there may =
    let (keys, retires, marked) = retire_root_key_lem kek key t.root_keys there may in
    let drained : (count_where (under kek) p.rows == 0) ≡ true = ground arith in
    if-cases (Ends kek key) (not p.fine) _ _
      (λ e. let f : false ≡ true = (rw fine at e) in absurd cc)
      (λ e.
        if-cases (Ends kek key) (not (count_where (under kek) p.rows == 0)) _ _
          (λ e. let f : false ≡ true = (rw drained at e) in absurd cc)
          (λ e.
            subst (λ o. Ends kek key (retire t p kek o)) (sym retires)
              (
                record {
                  rewrapped = p.count;
                  remaining = count_where (under kek) p.rows;
                  retired_key = true;
                },
                refl,
                none_left,
                refl,
                marked,
                none_left,
              )))

-- Where the ring knows the old key, it is not the active one, the first row of root_keys with its id
-- may be retired, and every key that it wraps can be rewrapped: RewrapAll reports that nothing remains
-- and that the key is retired, the row of the key is retired, and no version is under the key.
pub rewrap_all_drains :
    (draw : ℕ → Bytes) (ring : KeyRing) (from : RootKeyProvider) (kek : String) (key : RootKey)
    (batch : ℕ) (t : KeyTables)
    → kek ≢ ring.active.key_id
    → lookup kek ring.by_id ≡ some from
    → find_first (is_key kek) t.root_keys ≡ some key
    → retirable kek key ≡ true
    → All (λ r. under kek r ≡ true → CanRewrap from ring.active r) t.versions
    → (report : RewrapReport) × ((rewrap_all draw ring kek batch t).0 ≡ some report)
      × (report.remaining ≡ 0)
      × (report.retired_key ≡ true)
      × (find_first (is_key kek) (rewrap_all draw ring kek batch t).1.root_keys
          ≡ some (record key { state = retired }))
      × (count_where (under kek) (rewrap_all draw ring kek batch t).1.versions ≡ 0)
unfolding rewrap_all
rewrap_all_drains draw ring from kek key batch t other known there may works =
    let apart = different ring.active.key_id kek (λ e. other (sym e)) in
    let first : Pass = record { rows = t.versions; count = 0; fine = true } in
    let (fine, none_left) =
      rewrap_loop-Drained draw kek from ring.active apart (batch_size batch) (rounds kek t.versions)
        first (positive batch) (omega arith) refl works in
    rw (different kek ring.active.key_id other)
      (rw (known, drain_with) (conclude-Ends t kek key _ fine none_left there may))
