-- ===== src/Leader/Handover.antt =====
-- How leadership ends and passes on (internal/leader/leader.go).
use maintainerd_secret.Base.{
  ℕ, suc, ◌+◌, ◌≡◌, ◌↔◌, refl, Bool, true, false, Option, none, some, arith, sym, ◌∙◌,
  if◌then◌else◌, if-cases, elim-cases,
}
use maintainerd_secret.Leader.{
  Lock, Elector, is_held_by, stand_down, try_lock, ping, release, release_locked, resign, elect,
  heartbeat, step,
}

-- A session still holds the lock.
abbrev pub Backs : Elector → Lock → Type 0
Backs e k = (s : ℕ) × (e.session ≡ some s) × (k.held_by ≡ some s)

is_held_by_lem : (s : ℕ) (o : Option ℕ) → is_held_by s o ≡ true → o ≡ some s
is_held_by_lem s none h = cc
is_held_by_lem s (some t) h = let e : t ≡ s = ground arith in rw e refl

abbrev Sound : Bool → Elector → Lock → Bool × (Elector × Lock) → Type 0
Sound pings e k out = (out.1.0.leader ≡ true) ↔ ((pings ≡ true) × Backs e k)

no_session : (e : Elector) (k : Lock) → e.session ≡ none → Backs e k → ⊥
no_session e k f (s, own, at) = cc

pinged :
    (pings : Bool) (s : ℕ) (k : Lock)
    → ping pings s k ≡ true
    → (pings ≡ true) × (k.held_by ≡ some s)
unfolding ping
pinged true s k h = (refl, is_held_by_lem s k.held_by h)
pinged false s k h = cc

unanswered :
    (pings : Bool) (s : ℕ) (e : Elector) (k : Lock)
    → e.session ≡ some s
    → ping pings s k ≡ false
    → pings ≡ true
    → Backs e k
    → ⊥
unfolding ping
unanswered pings s e k held dead p (t, own, at) =
    let eq : some s ≡ some t = sym held ∙ own in
    let same : t ≡ s = cc in
    let alive : is_held_by s k.held_by ≡ true = rw at (ground arith) in ground arith

stood_down :
    (reaches : Bool) (e : Elector) (k : Lock) → (release_locked reaches e k).1.0.leader ≡ false
unfolding release_locked
stood_down reaches e k =
    elim-cases (λ (out : Bool × (Elector × Lock)). out.1.0.leader ≡ false) e.session
      (true, (record e { leader = false }, k))
      (λ s. let (ok, k') = release reaches s k in (ok, (stand_down e, k'))) (λ h. refl)
      (λ s h. refl)

-- After a heartbeat an elector says that it leads exactly if its ping reached the database and its
-- session holds the lock.
pub heartbeat_iff :
    (pings releases : Bool) (e : Elector) (k : Lock)
    → e.leader ≡ true
    → ((heartbeat pings releases e k).1.0.leader ≡ true) ↔ ((pings ≡ true) × Backs e k)
unfolding heartbeat
heartbeat_iff pings releases e k leads =
    elim-cases (Sound pings e k) e.session (true, (record e { leader = false }, k))
      (λ s. if ping pings s k then (true, (e, k)) else (false, (release_locked releases e k).1))
      (λ free. (λ l. absurd cc, λ b. absurd (no_session e k free b.1)))
      (λ s held.
        if-cases (Sound pings e k) (ping pings s k) _ _
          (λ alive. let (p, at) = pinged pings s k alive in (λ l. (p, (s, held, at)), λ b. leads))
          (λ dead.
            let down = stood_down releases e k in
            (λ l. absurd cc, λ b. absurd (unanswered pings s e k held dead b.0 b.1))))

release_frees :
    (s : ℕ) (k : Lock) → k.held_by ≡ some s → release true s k ≡ (true, record k { held_by = none })
unfolding release
release_frees s k held =
    let own : is_held_by s k.held_by ≡ true = rw held (ground arith) in rw own refl

resign_frees :
    (e : Elector) (k : Lock) (s : ℕ)
    → e.session ≡ some s
    → k.held_by ≡ some s
    → (resign true e k).1 ≡ (stand_down e, record k { held_by = none })
unfolding resign release_locked
resign_frees e k s own held = rw (own, release_locked) (rw (release_frees s k held) refl)

follower_wins :
    (e : Elector) (k : Lock) (releases : Bool)
    → e.session ≡ none
    → e.leader ≡ false
    → k.held_by ≡ none
    → step false true releases e k ≡ (
      record { session = some k.next; leader = true; promotions = e.promotions + 1 },
      record { held_by = some k.next; next = suc k.next },
    )
unfolding step elect try_lock
follower_wins e k releases free follows unheld =
    rw follows (rw (free, elect) (rw (unheld, try_lock) refl))

-- A leader that resigns while the database answers, then a follower that iterates: the first no
-- longer leads, the lock is the second's, and it counts one more promotion.
pub resign_hands_over :
    (a b : Elector) (k : Lock) (releases : Bool)
    → Backs a k
    → b.session ≡ none
    → b.leader ≡ false
    → let (ok, (a', k')) = resign true a k in
      let (b', k'') = step false true releases b k' in
      (a'.leader ≡ false) × (b'.leader ≡ true) × Backs b' k'' × (b'.promotions ≡ b.promotions + 1)
resign_hands_over a b k releases (s, own, held) free follows = rw (resign_frees a k s own held) (
    rw (follower_wins b (record k { held_by = none }) releases free follows refl)
      (refl, refl, (k.next, refl, refl), refl))
