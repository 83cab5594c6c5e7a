-- ===== src/Cache/Refinement.antt =====
-- The cache serves requests as the list of ids by use does.
use spice.Prelude.{
  ℕ, suc, ◌+◌, ◌-◌, ◌<◌, ◌≤◌, ◌^◌, ◌≡◌, ◌≢◌, refl, sym, ap, ◌∙◌, Bool, true, false, not, Option,
  none, some, List, [], ◌∷◌, ◌++◌, map, ltb, ◌==◌, inl, inr, arith, Bool-cases, Option-cases,
  length, ◌>>=◌,
}
use spice.Cache.{
  CacheItem, Cache, seek, without, used, find, hash_key, make_room, insert, add, reset, u64,
  take_off, Verdict, from_cache, cache_me, uncached, verdict_of, add_missing, request,
}
use spice.Cache.Recency.{
  total, sum, sum-trim, sum-request, has_id, only, others, trim, put, request_recent, entry_of,
  recent_of, run_recent,
}
use spice.Cache.Chains.{In, here, there, Distinct, same_item, ==-false, ==-refl}
use spice.Cache.Lru.{
  IsConsistent, no_some, seek-In, seek-none, seek_same, used-IsConsistent, insert-IsConsistent,
  reset-IsConsistent, same_items-IsConsistent,
}
use spice.Cache.Room.{view, make_room-Roomy}

map-snoc :
    (xs : List CacheItem) (x : CacheItem)
    → map entry_of (xs ++ (x ∷ [])) ≡ map entry_of xs ++ (entry_of x ∷ [])
map-snoc [] x = refl
map-snoc (y ∷ xs) x = ap (λ z. entry_of y ∷ z) (map-snoc xs x)

-- An item that is missed.
has_id-missed :
    (id : ℕ) (xs : List CacheItem) → seek id xs ≡ none → has_id id (map entry_of xs) ≡ false
unfolding seek
has_id-missed id [] e = refl
has_id-missed id (x ∷ xs) e = elim (Bool-cases (x.id == id)) [
  | inl h ↦ absurd (no_some (rw h at e))
  | inr h ↦ rw h (has_id-missed id xs (rw h at e))
]

has_id-found :
    (id : ℕ) (xs : List CacheItem) (x : CacheItem)
    → seek id xs ≡ some x
    → has_id id (map entry_of xs) ≡ true
unfolding seek
has_id-found id [] x e = cc
has_id-found id (y ∷ xs) x e = elim (Bool-cases (y.id == id)) [
  | inl h ↦ rw h refl
  | inr h ↦ rw h (has_id-found id xs x (rw h at e))
]

-- An item that is found.
others-without :
    (x : CacheItem) (xs : List CacheItem)
    → ((y : CacheItem) → In y xs → (y.address == x.address) ≡ (y.id == x.id))
    → map entry_of (without x.address xs) ≡ others x.id (map entry_of xs)
unfolding without
others-without x [] f = refl
others-without x (y ∷ xs) f = elim (Bool-cases (y.id == x.id)) [
  | inl h ↦ rw (f y here, h) (others-without x xs (λ z i. f z (there i)))
  | inr h ↦ rw (f y here, h) (ap (λ z. entry_of y ∷ z) (others-without x xs (λ z i. f z (there i))))
]

only_nothing :
    (id : ℕ) (xs : List CacheItem)
    → ((y : CacheItem) → In y xs → id ≢ y.id)
    → only id (map entry_of xs) ≡ []
only_nothing id [] n = refl
only_nothing id (y ∷ xs) n =
    rw (==-false (λ e. n y here (sym e))) (only_nothing id xs (λ z i. n z (there i)))

only_one :
    (x : CacheItem) (xs : List CacheItem)
    → Distinct (λ z. z.id) xs
    → In x xs
    → only x.id (map entry_of xs) ≡ entry_of x ∷ []
unfolding Distinct
only_one x (y ∷ xs) d here = rw (==-refl x.id, only_nothing x.id xs d.0) refl
only_one x (y ∷ xs) d (there i) = rw (==-false (d.0 x i)) (only_one x xs d.1 i)
only_one x [] d i = elim i [ ]

same_test :
    (c : Cache)
    → IsConsistent c
    → (x y : CacheItem) → In x c.lru
    → In y c.lru
    → (y.address == x.address) ≡ (y.id == x.id)
same_test c q x y i j = elim (Bool-cases (y.id == x.id)) [
  | inl e ↦
      let same = same_item (λ z. z.id) c.lru y x q.ids j i (ground (arith, e)) in
      ap (λ z. z.address == x.address) same ∙ ==-refl x.address ∙ sym e
  | inr e ↦
      ==-false (λ h.
        let same = ap (λ z. z.id) (same_item (λ z. z.address) c.lru y x q.addresses j i h) in
        ground (arith, e, same))
      ∙ sym e
]

-- A request is served as promised.
abbrev Serves : ℕ → ℕ → Cache → Type 0
Serves id size c =
    (c' : Cache) × (v : Verdict) × (request id size c ≡ some (c', v))
    × IsConsistent c'
    × (request_recent id size (recent_of c) ≡ (recent_of c', v))

found-Serves :
    (id size : ℕ) (c : Cache) (x : CacheItem)
    → IsConsistent c
    → seek id c.lru ≡ some x
    → Serves id size c
unfolding request find add_missing used
found-Serves id size c x q e =
    let (i, h) = seek-In id c.lru x e in
    let c' : Cache = record c { lru = without x.address c.lru ++ (x ∷ []) } in
    let entries : map entry_of c'.lru
        ≡ others id (map entry_of c.lru) ++ only id (map entry_of c.lru) =
      map-snoc (without x.address c.lru) x
      ∙ ap (λ z. z ++ (entry_of x ∷ [])) (others-without x c.lru (λ y j. same_test c q x y i j))
      ∙ ap (λ z. others x.id (map entry_of c.lru) ++ z) (sym (only_one x c.lru q.ids i))
      ∙ ap (λ z. others z (map entry_of c.lru) ++ only z (map entry_of c.lru)) h in
    (
      c',
      from_cache,
      ap (λ o. add_missing id size (o, used o c)) (seek_same c q id ∙ e),
      used-IsConsistent c q x i,
      rw (has_id-found id c.lru x e)
          (ap (λ z. (record (recent_of c) { entries = z }, from_cache)) (sym entries)),
    )

-- What is put where there is room, or is not.
put-full :
    (id room size : ℕ) (c : Cache)
    → ltb room size ≡ true
    → u64 (c.available + size) ≡ room
    → put id size (view room c) ≡ (recent_of (insert id size (c, false)).0, uncached)
put-full id room size c s e = rw (s, e) refl

put-inserted :
    (id room size : ℕ) (c : Cache)
    → ltb room size ≡ false
    → c.available ≡ room - size
    → put id size (view room c) ≡ (recent_of (insert id size (c, true)).0, cache_me)
put-inserted id room size c s e =
    rw (s, e)
      (ap (λ z. (record { entries = z; room = room - size; dropped = c.invalidated }, cache_me))
        (sym (map-snoc c.lru (record { address = c.next_address; size = size; id = id }))))

request_recent-missed :
    (id room size : ℕ) (c c' : Cache)
    → has_id id (map entry_of c.lru) ≡ false
    → view room c' ≡ trim size (map entry_of c.lru) c.available c.invalidated
    → request_recent id size (recent_of c) ≡ put id size (view room c')
request_recent-missed id room size c c' h t = rw h (ap (put id size) (sym t))

-- The cache with the size of a new item taken off.
abbrev charged : ℕ → Cache → Cache
charged size c = record c { available = take_off c.available size }

charged-IsConsistent : (size : ℕ) (c : Cache) → IsConsistent c → IsConsistent (charged size c)
charged-IsConsistent size c q = same_items-IsConsistent c (take_off c.available size) q

request-missed :
    (id size : ℕ) (c c' : Cache) (b : Bool)
    → seek id (c.table (hash_key id)) ≡ none
    → make_room (suc (length c.lru)) (charged size c) ≡ some (c', b)
    → request id size c ≡ some ((insert id size (c', b)).0, verdict_of (insert id size (c', b)).1)
unfolding request find add_missing used add
request-missed id size c c' b e ran = ap (λ o. add_missing id size (o, used o c)) e ∙ rw ran refl

-- What the items take and the room make up less than a `long` can hold.
abbrev Fits : Cache → Type 0
Fits c = sum (recent_of c) < 2 ^ 63

missed-Serves :
    (id size : ℕ) (c : Cache)
    → IsConsistent c
    → Fits c
    → size < 2 ^ 63
    → seek id c.lru ≡ none
    → Serves id size c
missed-Serves id size c q fits small e =
    let (c', b, ran, r) =
      make_room-Roomy (suc (length c.lru)) c.available size c.lru (charged size c)
        (charged-IsConsistent size c q) refl (omega arith) small fits refl in
    let absent = seek_same c q id ∙ e in
    let spec = request_recent-missed id r.left size c c' (has_id-missed id c.lru e) r.trimmed in
    let kept : total (map entry_of c'.lru) + r.left ≡ sum (recent_of c) =
      ap sum r.trimmed ∙ sum-trim size (map entry_of c.lru) c.available c.invalidated in
    elim (Bool-cases (ltb r.left size)) [
      | inl s ↦
          let known : b ≡ false = r.enough ∙ ap not s in
          (
            (insert id size (c', false)).0,
            uncached,
            request-missed id size c c' false absent (ran ∙ ap (λ z. some (c', z)) known),
            same_items-IsConsistent c' (u64 (c'.available + size)) r.consistent,
            spec ∙ put-full id r.left size c' s (omega (arith, r.owed, kept, fits)),
          )
      | inr s ↦
          let known : b ≡ true = r.enough ∙ ap not s in
          let le : size ≤ r.left = ground (arith, s) in
          (
            (insert id size (c', true)).0,
            cache_me,
            request-missed id size c c' true absent (ran ∙ ap (λ z. some (c', z)) known),
            insert-IsConsistent c' r.consistent id size
                (λ y j. seek-none id c.lru y e (r.were y j)),
            spec ∙ put-inserted id r.left size c' s (omega (arith, r.owed, kept, fits, le)),
          )
    ]

request-Serves :
    (id size : ℕ) (c : Cache) → IsConsistent c → Fits c → size < 2 ^ 63 → Serves id size c
request-Serves id size c q fits small = elim (Option-cases (seek id c.lru)) [
  | inl e ↦ missed-Serves id size c q fits small e
  | inr (x, e) ↦ found-Serves id size c x q e
]

-- Requests of ids and sizes, one after the other.
unfoldable pub run : List (ℕ × ℕ) → Cache → Option (Cache × List Verdict)
run [] c = some (c, [])
run (k ∷ ks) c = request k.0 k.1 c >>= λ r. run ks r.0 >>= λ q. some (q.0, r.1 ∷ q.1)

-- All sizes are below 2 ^ 63.
abbrev pub AllBelow : List (ℕ × ℕ) → Type 0
AllBelow [] = Unit {0}
AllBelow (k ∷ ks) = (k.1 < 2 ^ 63) × AllBelow ks

run-Consistent :
    (ks : List (ℕ × ℕ)) (c : Cache)
    → IsConsistent c
    → Fits c
    → AllBelow ks
    → (c' : Cache) × (vs : List Verdict) × (run ks c ≡ some (c', vs))
      × (run_recent ks (recent_of c) ≡ (recent_of c', vs))
unfolding run
run-Consistent [] c q fits below = (c, [], refl, refl)
run-Consistent (k ∷ ks) c q fits below =
    let (c1, v, ran, q1, spec) = request-Serves k.0 k.1 c q fits below.0 in
    let kept : sum (recent_of c1) ≡ sum (recent_of c) =
      ap (λ z. sum z.0) (sym spec) ∙ sum-request k.0 k.1 (recent_of c) in
    let (c', vs, ran', spec') = run-Consistent ks c1 q1 (omega (arith, kept, fits)) below.1 in
    (c', v ∷ vs, rw (ran, ran') refl, rw (spec, spec') refl)

-- A cache that is reset to a size below 2 ^ 63 serves any requests, of any ids and of sizes below
-- 2 ^ 63, without a failed assertion, and its verdicts, its room, the entries it keeps and the ids it
-- has the client drop are those of a list in which a request moves its id to the end and room is
-- made from the front.
pub requests_refine :
    (ks : List (ℕ × ℕ)) (size : ℕ) (c : Cache)
    → size < 2 ^ 63
    → AllBelow ks
    → (c' : Cache) × (vs : List Verdict) × (run ks (reset size c) ≡ some (c', vs))
      × (run_recent ks (record { entries = []; room = size; dropped = c.invalidated })
          ≡ (recent_of c', vs))
unfolding reset
requests_refine ks size c small below =
    run-Consistent ks (reset size c) (reset-IsConsistent size c) (omega (arith, small)) below
