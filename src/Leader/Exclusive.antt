-- ===== src/Leader/Exclusive.antt =====
-- No two replicas lead on the lock (internal/leader/leader.go).
use maintainerd_secret.Base.{
  ℕ, ◌+◌, ◌≤◌, ◌≡◌, refl, inl, inr, Bool, true, false, not, ◌&&◌, Option, none, some, List, [], ◌∷◌,
  arith, ltb, if◌then◌else◌, is_null, sum, sum-remove, All, All-append, All-split, All-remove,
  Option-cases, Bool-cases, if-cases, elim-cases,
}
use maintainerd_secret.Leader.{
  Lock, Elector, is_held_by, stand_down, try_lock, ping, release, release_locked, resign, elect,
  elected, heartbeat, step,
}
use maintainerd_secret.Leader.Cluster.{
  Call, elects, beats, resigns, iterates, call, end_session, Cluster, Move, calls, ends, Moves,
  rests, goes,
}

-- The flag says that there is a session.
abbrev pub IsElector : Elector → Type 0
IsElector e = e.leader ≡ not (is_null e.session)

owns : ℕ → Elector → ℕ
owns s e = if is_held_by s e.session then 1 else 0

abbrev issued : ℕ → Lock → ℕ
issued s k = if ltb s k.next then 1 else 0

-- The electors whose session holds the lock and that say so.
abbrev backed : Option ℕ → Elector → ℕ
backed none e = 0
backed (some s) e = if e.leader && is_held_by s e.session then 1 else 0

abbrev pub backed_leaders : Cluster → ℕ
backed_leaders c = sum (backed c.lock.held_by) c.electors

-- A call takes no session but a new one.
abbrev Takes : Elector → Lock → Elector × Lock → Type 0
Takes e k out = IsElector out.0 × ((s : ℕ) → owns s out.0 + issued s k ≤ owns s e + issued s out.1)

stay-Takes : (e : Elector) (k : Lock) → IsElector e → Takes e k (e, k)
stay-Takes e k h = (h, λ s. omega arith)

stand_down-Takes : (e : Elector) (k k' : Lock) → k'.next ≡ k.next → Takes e k (stand_down e, k')
unfolding owns
stand_down-Takes e k k' same = (refl, λ s. rw same (ground arith))

release-next : (reaches : Bool) (s : ℕ) (k : Lock) → (release reaches s k).1.next ≡ k.next
unfolding release
release-next reaches s k = ground arith

release_locked-Takes :
    (reaches : Bool) (e : Elector) (k : Lock)
    → IsElector e
    → Takes e k (release_locked reaches e k).1
unfolding release_locked owns
release_locked-Takes reaches e k h = elim (Option-cases e.session) [
  | inl unheld ↦ rw (unheld, release_locked) (rw unheld refl, λ s. rw unheld (omega arith))
  | inr (t, held) ↦
      rw (held, release_locked) (refl, λ s. let same = release-next reaches t k in ground arith)
]

elected-Takes :
    (e : Elector) (k : Lock)
    → IsElector e
    → (reaches : Bool) → Takes e k (elected (try_lock reaches k) e).1
unfolding try_lock owns
elected-Takes e k h false = (h, λ s. omega arith)
elected-Takes e k h true = elim (Option-cases k.held_by) [
  | inr (t, held) ↦ rw (held, try_lock) (h, λ s. omega arith)
  | inl unheld ↦ rw (unheld, try_lock) (refl, λ s. ground arith)
]

elect-Takes :
    (reaches : Bool) (e : Elector) (k : Lock) → IsElector e → Takes e k (elect reaches e k).1
unfolding elect
elect-Takes reaches e k h =
    elim-cases (λ (out : Option Bool × (Elector × Lock)). Takes e k out.1) e.session
      (elected (try_lock reaches k) e) (λ s. (some true, (e, k)))
      (λ free. elected-Takes e k h reaches) (λ s held. stay-Takes e k h)

flag_down : (e : Elector) (k : Lock) → e.session ≡ none → Takes e k (record e { leader = false }, k)
unfolding owns
flag_down e k free = (rw free refl, λ s. omega arith)

heartbeat-Takes :
    (pings releases : Bool) (e : Elector) (k : Lock)
    → IsElector e
    → Takes e k (heartbeat pings releases e k).1
unfolding heartbeat
heartbeat-Takes pings releases e k h =
    elim-cases (λ (out : Bool × (Elector × Lock)). Takes e k out.1) e.session
      (true, (record e { leader = false }, k))
      (λ s. if ping pings s k then (true, (e, k)) else (false, (release_locked releases e k).1))
      (λ free. flag_down e k free)
      (λ s held.
        if-cases (λ (out : Bool × (Elector × Lock)). Takes e k out.1) (ping pings s k) _ _
          (λ alive. stay-Takes e k h) (λ dead. release_locked-Takes releases e k h))

call-Takes : (c : Call) (e : Elector) (k : Lock) → IsElector e → Takes e k (call c e k)
unfolding call resign step
call-Takes (elects reaches) e k h = elect-Takes reaches e k h
call-Takes (beats pings releases) e k h = heartbeat-Takes pings releases e k h
call-Takes (resigns reaches) e k h = release_locked-Takes reaches e k h
call-Takes (iterates true reaches releases) e k h = stay-Takes e k h
call-Takes (iterates false reaches releases) e k h =
    if-cases (Takes e k) (not e.leader) _ _ (λ follows. elect-Takes reaches e k h)
      (λ leads. heartbeat-Takes reaches releases e k h)

-- Every flag tells of a session, and no session is held twice.
record IsCluster (c : Cluster) : Type 0 where
  electors_ok : All IsElector c.electors
  once : (s : ℕ) → sum (owns s) c.electors ≤ issued s c.lock

end_session-once :
    (es : List Elector) (k : Lock) (t s : ℕ)
    → sum (owns s) es ≤ issued s k
    → sum (owns s) es ≤ issued s (end_session t k)
unfolding end_session
end_session-once es k t s le = elim (Bool-cases (is_held_by t k.held_by)) [
  | inl e ↦ rw e le
  | inr e ↦ rw e le
]

Move-IsCluster : (c d : Cluster) → Move c d → IsCluster c → IsCluster d
Move-IsCluster _ _ (calls {k} before after e m) h =
    let (ok, oks) = All-remove IsElector before after e h.electors_ok in
    let (left, right) = All-split IsElector before after oks in
    let (ok', takes) = call-Takes m e k ok in
    record {
      electors_ok = All-append IsElector before ((call m e k).0 ∷ after) left (ok', right);
      once = λ s. omega (
        arith,
        h.once s,
        takes s,
        sum-remove (owns s) before after e,
        sum-remove (owns s) before after (call m e k).0,
      );
    }
Move-IsCluster _ _ (ends {es} {k} t) h = record {
  electors_ok = h.electors_ok;
  once = λ s. end_session-once es k t s (h.once s);
}

Moves-IsCluster : (c d : Cluster) → Moves c d → IsCluster c → IsCluster d
Moves-IsCluster c _ rests h = h
Moves-IsCluster c e (goes {d = d} run m) h = Move-IsCluster d e m (Moves-IsCluster c d run h)

backed-le : (s : ℕ) (es : List Elector) → sum (backed (some s)) es ≤ sum (owns s) es
unfolding owns
backed-le s [] = omega arith
backed-le s (e ∷ es) = ground (arith, backed-le s es)

backed-none : (es : List Elector) → sum (backed none) es ≡ 0
backed-none [] = refl
backed-none (e ∷ es) = omega (arith, backed-none es)

-- No elector has a session yet.
abbrev pub IsFresh : Elector → Type 0
IsFresh e = (e.session ≡ none) × (e.leader ≡ false)

fresh-owns : (s : ℕ) (es : List Elector) → All IsFresh es → sum (owns s) es ≡ 0
unfolding owns
fresh-owns s [] h = refl
fresh-owns s (e ∷ es) h = rw h.0.0 (omega (arith, fresh-owns s es h.1))

fresh-All : (es : List Elector) → All IsFresh es → All IsElector es
fresh-All [] h = tt
fresh-All (e ∷ es) h = (rw h.0.0 h.0.1, fresh-All es h.1)

-- From replicas without sessions, after any calls of theirs and any ends of sessions, an elector's
-- flag is set exactly if it has a session, and at most one elector that says it leads has the
-- session that holds the lock.
pub one_backed_leader :
    (c d : Cluster)
    → All IsFresh c.electors
    → Moves c d
    → All IsElector d.electors × (backed_leaders d ≤ 1)
one_backed_leader c d h run =
    let ok = Moves-IsCluster c d run (record {
      electors_ok = fresh-All c.electors h;
      once = λ s. omega (arith, fresh-owns s c.electors h);
    }) in
    (
      ok.electors_ok,
      elim (Option-cases d.lock.held_by) [
        | inl free ↦ rw free (omega (arith, backed-none d.electors))
        | inr (s, held) ↦
            rw held (let le = ok.once s in let le' = backed-le s d.electors in ground arith)
      ],
    )
