-- ===== src/Cache/Recency.antt =====
-- What a cache promises: a list of ids in the order of their use.
use spice.Prelude.{
  ℕ, ◌≡◌, refl, inl, inr, arith, Bool-cases, ◌∙◌, ◌+◌, ◌-◌, Bool, true, false, List, [], ◌∷◌, ◌++◌,
  map, if◌then◌else◌, ltb, ◌==◌,
}
use spice.Cache.{CacheItem, Cache, Verdict, from_cache, cache_me, uncached}

pub record Entry : Type 0 where
  pub size : ℕ
  pub id : ℕ

-- What a cache promises: entries by use, least recent first, the room, and the ids dropped.
pub record Recent : Type 0 where
  pub entries : List Entry
  pub room : ℕ
  pub dropped : List ℕ

abbrev pub has_id : ℕ → List Entry → Bool
has_id id [] = false
has_id id (e ∷ es) = if e.id == id then true else has_id id es

-- The entries of an id, and the others.
abbrev pub only : ℕ → List Entry → List Entry
only id [] = []
only id (e ∷ es) = if e.id == id then e ∷ only id es else only id es

abbrev pub others : ℕ → List Entry → List Entry
others id [] = []
others id (e ∷ es) = if e.id == id then others id es else e ∷ others id es

-- Room is made by dropping the entries used least recently, no more than it takes.
abbrev pub trim : ℕ → List Entry → ℕ → List ℕ → Recent
trim size [] room dropped = record { entries = []; room = room; dropped = dropped }
trim size (e ∷ es) room dropped =
    let next = trim size es (room + e.size) (e.id ∷ dropped) in
    if ltb room size then next else record { entries = e ∷ es; room = room; dropped = dropped }

abbrev pub put : ℕ → ℕ → Recent → Recent × Verdict
put id size r = if ltb r.room size then (r, uncached) else (
  record r { entries = r.entries ++ (record { size = size; id = id } ∷ []); room = r.room - size },
  cache_me,
)

abbrev pub request_recent : ℕ → ℕ → Recent → Recent × Verdict
request_recent id size r =
    if has_id id r.entries
    then (record r { entries = others id r.entries ++ only id r.entries }, from_cache)
    else put id size (trim size r.entries r.room r.dropped)

abbrev pub entry_of : CacheItem → Entry
entry_of x = record { size = x.size; id = x.id }

abbrev pub recent_of : Cache → Recent
recent_of c = record { entries = map entry_of c.lru; room = c.available; dropped = c.invalidated }

abbrev pub run_recent : List (ℕ × ℕ) → Recent → Recent × List Verdict
run_recent [] r = (r, [])
run_recent (k ∷ ks) r =
    let q = request_recent k.0 k.1 r in let p = run_recent ks q.0 in (p.0, q.1 ∷ p.1)

-- The sizes of the entries.
abbrev pub total : List Entry → ℕ
total [] = 0
total (e ∷ es) = e.size + total es

-- What the entries take and the room that is left.
abbrev pub sum : Recent → ℕ
sum r = total r.entries + r.room

total-append : (es ds : List Entry) → total (es ++ ds) ≡ total es + total ds
total-append [] ds = omega arith
total-append (e ∷ es) ds = omega (arith, total-append es ds)

total-others : (id : ℕ) (es : List Entry) → total (others id es) + total (only id es) ≡ total es
total-others id [] = refl
total-others id (e ∷ es) = ground (arith, total-others id es)

pub sum-trim :
    (size : ℕ) (es : List Entry) (room : ℕ) (dropped : List ℕ)
    → sum (trim size es room dropped) ≡ total es + room
sum-trim size [] room dropped = refl
sum-trim size (e ∷ es) room dropped = elim (Bool-cases (ltb room size)) [
  | inl s ↦
      rw s (let rest = sum-trim size es (room + e.size) (e.id ∷ dropped) in omega (arith, rest))
  | inr s ↦ rw s refl
]

sum-put : (id size : ℕ) (r : Recent) → sum (put id size r).0 ≡ sum r
sum-put id size r = elim (Bool-cases (ltb r.room size)) [
  | inl s ↦ rw s refl
  | inr s ↦ rw s (
      let t = total-append r.entries (record { size = size; id = id } ∷ []) in ground (arith, s, t))
]

pub sum-request : (id size : ℕ) (r : Recent) → sum (request_recent id size r).0 ≡ sum r
sum-request id size r = elim (Bool-cases (has_id id r.entries)) [
  | inl s ↦ rw s (
      let t = total-append (others id r.entries) (only id r.entries) in
      let u = total-others id r.entries in omega (arith, t, u))
  | inr s ↦ rw s (
      sum-put id size (trim size r.entries r.room r.dropped)
      ∙ sum-trim size r.entries r.room r.dropped)
]
