-- ===== src/Examples/Leaders.antt =====
-- The election on concrete replicas: tests, and instances of its theorems.
use maintainerd_secret.Base.{ℕ, ◌+◌, ◌≤◌, ◌↔◌, ◌≡◌, refl, true, false, none, some, [], ◌∷◌, All}
use maintainerd_secret.Leader.{
  Lock, Elector, new_elector, try_lock, resign, elect, heartbeat, step, periodic_tick,
}
use maintainerd_secret.Leader.Cluster.{
  iterates, call, end_session, Cluster, cluster, calls, ends, Moves, rests, goes,
}
use maintainerd_secret.Leader.Exclusive.{IsElector, backed_leaders, one_backed_leader}
use maintainerd_secret.Leader.Handover.{Backs, heartbeat_iff, resign_hands_over}

abbrev free_lock : Lock
free_lock = record { held_by = none; next = 0 }

abbrev leads_with : ℕ → Elector
leads_with s = record { session = some s; leader = true; promotions = 1 }

abbrev locked : Lock
locked = record { held_by = some 0; next = 1 }

abbrev two_followers : Cluster
two_followers = cluster (new_elector ∷ new_elector ∷ []) free_lock

-- The first replica leads, its session ends unnoticed, and the second is promoted.
abbrev both_say_so : Cluster
both_say_so = cluster (leads_with 0 ∷ leads_with 1 ∷ []) (record { held_by = some 1; next = 2 })

promotion : Moves two_followers both_say_so
unfolding call step elect try_lock end_session
promotion =
    goes
      (goes (goes rests (calls [] (new_elector ∷ []) new_elector (iterates false true true)))
        (ends 0))
      (calls (leads_with 0 ∷ []) [] new_elector (iterates false true true))

one_backed_leader_example : All IsElector both_say_so.electors × (backed_leaders both_say_so ≤ 1)
one_backed_leader_example =
    one_backed_leader two_followers both_say_so ((refl, refl), ((refl, refl), tt)) promotion

heartbeat_iff_example :
    ((heartbeat true true (leads_with 0) locked).1.0.leader ≡ true)
    ↔ ((true ≡ true) × Backs (leads_with 0) locked)
heartbeat_iff_example = heartbeat_iff true true (leads_with 0) locked refl

resign_hands_over_example :
    let (ok, (a, k)) = resign true (leads_with 0) locked in
    let (b, k') = step false true true new_elector k in
    (a.leader ≡ false)
    × (b.leader ≡ true)
    × Backs b k'
    × (b.promotions ≡ new_elector.promotions + 1)
resign_hands_over_example =
    resign_hands_over (leads_with 0) new_elector locked true (0, refl, refl) refl refl

-- A worker is paused on a follower, and the change is noted once.
paused : periodic_tick false (some new_elector) true ≡ (false, false)
unfolding periodic_tick
paused = refl
