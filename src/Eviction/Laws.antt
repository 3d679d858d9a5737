-- ===== src/Eviction/Laws.antt =====
-- That an eviction ends, and how.
use auto_repair.Common.{ℕ, suc, ◌≤◌, Bool, true, false, [], ◌∷◌, ◌≡◌, ◌⊎◌, if◌then◌else◌}
use auto_repair.Common.Int.{ℤ}
use auto_repair.Kube.{Pod}
use auto_repair.Env.{Env, Trace, read_clock, evict, EvictReply, evicted, no_such_pod, evict_failed}
use auto_repair.Calls.{slept}
use auto_repair.Eviction.{PodEvictionResult, was_eviction_successful}

-- A clock that shows at least how long the program has slept, as time.Sleep promises.
abbrev pub Advances : Env → Type 0
Advances env = (t : Trace) → slept t ≤ env.time_now t

-- The time that was read last.
abbrev pub last_reading : Env → Trace → ℕ
last_reading env [] = 0
last_reading env (read_clock ∷ t) = env.time_now t
last_reading env (c ∷ t) = last_reading env t

abbrev pub IsGone : EvictReply → Type 0
IsGone evicted = Unit
IsGone (no_such_pod e) = Unit
IsGone (evict_failed e) = ⊥

-- The last call has asked for the eviction of the pod, and was told that it is done or the pod is
-- gone.
abbrev pub LastEvicts : Env → Pod → ℤ → Trace → Type 0
LastEvicts env pod grace [] = ⊥
LastEvicts env pod grace (evict namespace name g ∷ t) =
    (namespace ≡ pod.namespace)
    × (name ≡ pod.name)
    × (g ≡ grace)
    × IsGone (env.evict_reply t namespace name)
LastEvicts env pod grace (c ∷ t) = ⊥

abbrev pub is_gone : EvictReply → Bool
is_gone evicted = true
is_gone (no_such_pod e) = true
is_gone (evict_failed e) = false

-- How many requests for an eviction were granted, or found the pod gone.
abbrev pub successes : Env → Trace → ℕ
successes env [] = 0
successes env (evict namespace name g ∷ t) =
    let before = successes env t in
    if is_gone (env.evict_reply t namespace name) then suc before else before
successes env (c ∷ t) = successes env t

-- Success at the first such request, which is the last call; or an error without any such request, once
-- the clock has shown that the time is over.
abbrev pub Decided : Env → Pod → ℤ → ℕ → ℕ → PodEvictionResult → Trace → Type 0
Decided env pod grace retry_until before r u =
    ((was_eviction_successful r ≡ true)
      × LastEvicts env pod grace u
      × (successes env u ≡ suc before))
    ⊎ ((was_eviction_successful r ≡ false)
        × (r.timed_out ≡ true)
        × (successes env u ≡ before)
        × (retry_until ≤ last_reading env u))
