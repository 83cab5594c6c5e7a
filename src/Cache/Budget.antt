-- ===== src/Cache/Budget.antt =====
-- What the items of a cache take and the room that is left.
use spice.Prelude.{ℕ, ◌+◌, ◌<◌, ◌^◌, ◌≡◌, refl, ap, sym, ◌∙◌, some, List, [], ◌∷◌, map, arith}
use spice.Cache.{Cache, Verdict, reset}
use spice.Cache.Recency.{Recent, request_recent, entry_of, run_recent, total, sum, sum-request}
use spice.Cache.Refinement.{run, requests_refine, AllBelow}

sum-run : (ks : List (ℕ × ℕ)) (r : Recent) → sum (run_recent ks r).0 ≡ sum r
sum-run [] r = refl
sum-run (k ∷ ks) r = sum-run ks (request_recent k.0 k.1 r).0 ∙ sum-request k.0 k.1 r

-- The sizes of the items that a cache holds and the room that is left always add up to the size that
-- it was reset to, after any requests, as long as that size and those of the requests are below
-- 2 ^ 63.
pub run-balances :
    (ks : List (ℕ × ℕ)) (size : ℕ) (c : Cache)
    → size < 2 ^ 63
    → AllBelow ks
    → (c' : Cache) × (vs : List Verdict) × (run ks (reset size c) ≡ some (c', vs))
      × (total (map entry_of c'.lru) + c'.available ≡ size)
run-balances ks size c small below =
    let (c', vs, ran, spec) = requests_refine ks size c small below in
    let r : Recent = record { entries = []; room = size; dropped = c.invalidated } in
    (c', vs, ran, ap (λ z. sum z.0) (sym spec) ∙ sum-run ks r ∙ omega arith)
