-- ===== src/Cache/Tests.antt =====
-- Runs of a cache, and instances of the theorems on it.
use spice.Prelude.{ℕ, ◌+◌, ◌≡◌, refl, arith, some, List, [], ◌∷◌, map}
use spice.Cache.{Cache, Verdict, from_cache, cache_me, uncached, reset}
use spice.Cache.Recency.{run_recent, recent_of, entry_of, total}
use spice.Cache.Refinement.{run, requests_refine, AllBelow}
use spice.Cache.Budget.{run-balances}

abbrev empty : Cache
empty = record { table = λ k. []; lru = []; available = 0; next_address = 0; invalidated = [] }

-- Ids with the same hash; one that is used again, and one that needs room.
abbrev requests : List (ℕ × ℕ)
requests = (5, 2) ∷ (261, 1) ∷ (5, 2) ∷ (7, 1) ∷ (9, 9) ∷ []

verdicts :
    (run_recent requests (record { entries = []; room = 3; dropped = [] })).1
    ≡ cache_me ∷ cache_me ∷ from_cache ∷ cache_me ∷ uncached ∷ []
verdicts = refl

requests-AllBelow : AllBelow requests
requests-AllBelow = (omega arith, (omega arith, (omega arith, (omega arith, (omega arith, tt)))))

requests_refine_example :
    (c' : Cache) × (vs : List Verdict) × (run requests (reset 3 empty) ≡ some (c', vs))
    × (run_recent requests (record { entries = []; room = 3; dropped = [] }) ≡ (recent_of c', vs))
requests_refine_example = requests_refine requests 3 empty (omega arith) requests-AllBelow

run-balances_example :
    (c' : Cache) × (vs : List Verdict) × (run requests (reset 3 empty) ≡ some (c', vs))
    × (total (map entry_of c'.lru) + c'.available ≡ 3)
run-balances_example = run-balances requests 3 empty (omega arith) requests-AllBelow
