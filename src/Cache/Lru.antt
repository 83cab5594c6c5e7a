-- ===== src/Cache/Lru.antt =====
-- The hash table and the ring hold the same items.
use spice.Prelude.{
  ℕ, suc, ◌+◌, ◌<◌, ◌≡◌, ◌≢◌, refl, sym, ap, subst, ◌∙◌, true, false, none, some, List, [], ◌∷◌,
  ◌++◌, ◌==◌, inl, inr, arith, Bool-cases, Option-cases, some_inj,
}
use spice.Cache.{
  CacheItem, Cache, seek, without, used, remove, hash_key, set_chain, insert, reset, u64,
}
use spice.Cache.Chains.{
  In, here, there, Distinct, same_item, In-without, without-In, without-Distinct, In-snoc, snoc-old,
  snoc-new, snoc-Distinct, Unlinks, unlink-Unlinks, ==-false, ==-refl,
}

pub record IsConsistent (c : Cache) : Type 0 where
  pub linked : (x : CacheItem) → In x c.lru → In x (c.table (hash_key x.id))
  pub listed : (k : ℕ) (x : CacheItem) → In x (c.table k) → In x c.lru × (hash_key x.id ≡ k)
  pub addresses : Distinct (λ x. x.address) c.lru
  pub ids : Distinct (λ x. x.id) c.lru
  pub chains : (k : ℕ) → Distinct (λ x. x.address) (c.table k)
  pub allocated : (x : CacheItem) → In x c.lru → x.address < c.next_address

pub seek-In :
    (id : ℕ) (xs : List CacheItem) (x : CacheItem) → seek id xs ≡ some x → In x xs × (x.id ≡ id)
unfolding seek
seek-In id [] x e = cc
seek-In id (y ∷ xs) x e = elim (Bool-cases (y.id == id)) [
  | inl h ↦
      let same : y ≡ x = some_inj (rw h at e) in
      (subst (λ z. In z (y ∷ xs)) same here, ap (λ z. z.id) (sym same) ∙ ground (arith, h))
  | inr h ↦ let (i, q) = seek-In id xs x (rw h at e) in (there i, q)
]

pub no_some : {x : CacheItem} → some x ≡ none → ⊥
no_some e = cc

pub seek-none :
    (id : ℕ) (xs : List CacheItem) (x : CacheItem) → seek id xs ≡ none → In x xs → x.id ≢ id
unfolding seek
seek-none id [] x e i = elim i [ ]
seek-none id (x ∷ xs) x' e here =
    λ q. let t : (x.id == id) ≡ true = ground (arith, q) in no_some (rw t at e)
seek-none id (y ∷ xs) x e (there i) = elim (Bool-cases (y.id == id)) [
  | inl h ↦ absurd (no_some (rw h at e))
  | inr h ↦ seek-none id xs x (rw h at e) i
]

module _ (c : Cache) (q : IsConsistent c) where
  -- The walk along a chain finds what a walk along the ring would.
  pub seek_same : (id : ℕ) → seek id (c.table (hash_key id)) ≡ seek id c.lru
  seek_same id = elim (Option-cases (seek id (c.table (hash_key id)))) [
    | inl e ↦ elim (Option-cases (seek id c.lru)) [
      | inl e' ↦ e ∙ sym e'
      | inr (x, e') ↦
          let (i, h) = seek-In id c.lru x e' in
          absurd (
            seek-none id (c.table (hash_key id)) x e
              (subst (λ z. In x (c.table (hash_key z))) h (q.linked x i)) h)
    ]
    | inr (y, e) ↦
        let (j, k) = seek-In id (c.table (hash_key id)) y e in
        let y_in = (q.listed (hash_key id) y j).0 in
        elim (Option-cases (seek id c.lru)) [
          | inl e' ↦ absurd (seek-none id c.lru y e' y_in k)
          | inr (x, e') ↦
              let (i, h) = seek-In id c.lru x e' in
              e ∙ ap some (same_item (λ z. z.id) c.lru y x q.ids y_in i (k ∙ sym h)) ∙ sym e'
        ]
  ]

  moved_old :
      (x y : CacheItem) → In x c.lru → In y (without x.address c.lru ++ (x ∷ [])) → In y c.lru
  moved_old x y i j = elim (In-snoc (without x.address c.lru) x y j) [
    | inl k ↦ (In-without x.address c.lru y k).0
    | inr e ↦ subst (λ z. In z c.lru) (sym e) i
  ]

  moved_In :
      (x y : CacheItem) → In x c.lru → In y c.lru → In y (without x.address c.lru ++ (x ∷ []))
  moved_In x y i j = elim (Bool-cases (y.address == x.address)) [
    | inl e ↦
        subst (λ z. In z (without x.address c.lru ++ (x ∷ [])))
          (same_item (λ z. z.address) c.lru x y q.addresses i j (ground (arith, e)))
          (snoc-new (without x.address c.lru) x)
    | inr e ↦
        snoc-old (without x.address c.lru) x y
          (without-In x.address c.lru y j (λ h. ground (arith, e, h)))
  ]

  -- An item that is used goes to the other end.
  pub used-IsConsistent : (x : CacheItem) → In x c.lru → IsConsistent (used (some x) c)
  unfolding used
  used-IsConsistent x i = record {
    linked = λ y j. q.linked y (moved_old x y i j);
    listed = λ k y j. let (m, h) = q.listed k y j in (moved_In x y i m, h);
    addresses =
        snoc-Distinct (λ z. z.address) _ x
          (without-Distinct (λ z. z.address) x.address c.lru q.addresses)
          (λ y j h. (In-without x.address c.lru y j).1 (sym h));
    ids =
        snoc-Distinct (λ z. z.id) _ x (without-Distinct (λ z. z.id) x.address c.lru q.ids)
          (λ y j h.
            let (m, n) = In-without x.address c.lru y j in
            n (ap (λ z. z.address) (same_item (λ z. z.id) c.lru y x q.ids m i (sym h))));
    chains = q.chains;
    allocated = λ y j. q.allocated y (moved_old x y i j);
  }

  -- The cache without an item.
  abbrev pub removed : CacheItem → List CacheItem → Cache
  removed x xs = record c {
    table = set_chain (hash_key x.id) xs c.table;
    lru = without x.address c.lru;
    available = u64 (c.available + x.size);
    invalidated = x.id ∷ c.invalidated;
  }

  elsewhere :
      (x y : CacheItem) (k : ℕ)
      → In x c.lru
      → In y c.lru
      → hash_key y.id ≡ k
      → (k == hash_key x.id) ≡ false
      → y.address ≡ x.address
      → ⊥
  elsewhere x y k i j h e n =
      let same = same_item (λ z. z.address) c.lru y x q.addresses j i n in
      let h' : k ≡ hash_key x.id = sym h ∙ ap (λ z. hash_key z.id) same in ground (arith, e, h')

  removed_linked :
      (x : CacheItem) (xs : List CacheItem) (y : CacheItem)
      → Unlinks x (c.table (hash_key x.id)) xs
      → In y (without x.address c.lru)
      → In y ((removed x xs).table (hash_key y.id))
  removed_linked x xs y u j =
      let (m, n) = In-without x.address c.lru y j in
      elim (Bool-cases (hash_key y.id == hash_key x.id)) [
        | inr e ↦ rw e (q.linked y m)
        | inl e ↦
            let same : hash_key y.id ≡ hash_key x.id = ground (arith, e) in
            rw e (u.stay y (subst (λ z. In y (c.table z)) same (q.linked y m)) n)
      ]

  removed_chain :
      (x : CacheItem) (xs : List CacheItem) (k : ℕ)
      → Unlinks x (c.table (hash_key x.id)) xs
      → Distinct (λ z. z.address) ((removed x xs).table k)
  removed_chain x xs k u = elim (Bool-cases (k == hash_key x.id)) [
    | inl e ↦ rw e u.distinct
    | inr e ↦ rw e (q.chains k)
  ]

  removed_listed :
      (x : CacheItem) (xs : List CacheItem) (k : ℕ) (y : CacheItem)
      → In x c.lru
      → Unlinks x (c.table (hash_key x.id)) xs
      → In y ((removed x xs).table k)
      → In y (without x.address c.lru) × (hash_key y.id ≡ k)
  removed_listed x xs k y i u j = elim (Bool-cases (k == hash_key x.id)) [
    | inl e ↦
        let (m, n) = u.were y (rw e at j) in
        let (l, h) = q.listed (hash_key x.id) y m in
        (without-In x.address c.lru y l n, h ∙ ground (arith, e))
    | inr e ↦
        let (l, h) = q.listed k y (rw e at j) in
        (without-In x.address c.lru y l (λ n. elsewhere x y k i l h e n), h)
  ]

  -- No assertion fails when an item of the ring is removed.
  pub remove-IsConsistent :
      (x : CacheItem)
      → In x c.lru
      → (xs : List CacheItem) × (remove x c ≡ some (removed x xs)) × IsConsistent (removed x xs)
  unfolding remove
  remove-IsConsistent x i =
      let (xs, e, u) =
        unlink-Unlinks x (c.table (hash_key x.id)) (q.linked x i) (q.chains (hash_key x.id)) in
      (
        xs,
        rw e refl,
        record {
          linked = λ y j. removed_linked x xs y u j;
          listed = λ k y j. removed_listed x xs k y i u j;
          addresses = without-Distinct (λ z. z.address) x.address c.lru q.addresses;
          ids = without-Distinct (λ z. z.id) x.address c.lru q.ids;
          chains = λ k. removed_chain x xs k u;
          allocated = λ y j. q.allocated y (In-without x.address c.lru y j).0;
        },
      )

module _ (c : Cache) (q : IsConsistent c) where
  -- The item that `insert` makes.
  abbrev pub new_item : ℕ → ℕ → CacheItem
  new_item id size = record { address = c.next_address; size = size; id = id }

  inserted_linked :
      (id size : ℕ) (y : CacheItem)
      → In y (c.lru ++ (new_item id size ∷ []))
      → In y ((insert id size (c, true)).0.table (hash_key y.id))
  inserted_linked id size y j = elim (In-snoc c.lru (new_item id size) y j) [
    | inr e ↦
        subst (λ z. In z ((insert id size (c, true)).0.table (hash_key z.id))) (sym e)
          (rw (==-refl (hash_key id)) here)
    | inl k ↦ elim (Bool-cases (hash_key y.id == hash_key id)) [
      | inr e ↦ rw e (q.linked y k)
      | inl e ↦
          let same : hash_key y.id ≡ hash_key id = ground (arith, e) in
          rw e (there (subst (λ z. In y (c.table z)) same (q.linked y k)))
    ]
  ]

  inserted_chain :
      (id size k : ℕ) (y : CacheItem)
      → In y (new_item id size ∷ c.table (hash_key id))
      → In y (c.lru ++ (new_item id size ∷ [])) × (hash_key y.id ≡ hash_key id)
  inserted_chain id size k y here = (snoc-new c.lru (new_item id size), refl)
  inserted_chain id size k y (there j) =
      let (m, h) = q.listed (hash_key id) y j in (snoc-old c.lru (new_item id size) y m, h)

  inserted_listed :
      (id size k : ℕ) (y : CacheItem)
      → In y ((insert id size (c, true)).0.table k)
      → In y (c.lru ++ (new_item id size ∷ [])) × (hash_key y.id ≡ k)
  inserted_listed id size k y j = elim (Bool-cases (k == hash_key id)) [
    | inr e ↦ let (m, h) = q.listed k y (rw e at j) in (snoc-old c.lru (new_item id size) y m, h)
    | inl e ↦ let (m, h) = inserted_chain id size k y (rw e at j) in (m, h ∙ ground (arith, e))
  ]

  inserted_chains :
      (id size k : ℕ) → Distinct (λ z. z.address) ((insert id size (c, true)).0.table k)
  unfolding Distinct
  inserted_chains id size k = elim (Bool-cases (k == hash_key id)) [
    | inr e ↦ rw e (q.chains k)
    | inl e ↦ rw e (
      (λ y j h. let less = q.allocated y (q.listed (hash_key id) y j).0 in omega (arith, h, less)),
      q.chains (hash_key id),
    )
  ]

  inserted_allocated :
      (id size : ℕ) (y : CacheItem)
      → In y (c.lru ++ (new_item id size ∷ []))
      → y.address < suc c.next_address
  inserted_allocated id size y j = elim (In-snoc c.lru (new_item id size) y j) [
    | inl k ↦ let less = q.allocated y k in omega (arith, less)
    | inr e ↦ let same = ap (λ z. z.address) e in omega (arith, same)
  ]

  pub insert-IsConsistent :
      (id size : ℕ)
      → ((y : CacheItem) → In y c.lru → y.id ≢ id)
      → IsConsistent (insert id size (c, true)).0
  insert-IsConsistent id size n = record {
    linked = λ y j. inserted_linked id size y j;
    listed = λ k y j. inserted_listed id size k y j;
    addresses =
        snoc-Distinct (λ z. z.address) c.lru (new_item id size) q.addresses
          (λ y j h. let less = q.allocated y j in omega (arith, h, less));
    ids = snoc-Distinct (λ z. z.id) c.lru (new_item id size) q.ids (λ y j h. n y j (sym h));
    chains = λ k. inserted_chains id size k;
    allocated = λ y j. inserted_allocated id size y j;
  }

-- The head of a list without its address is its tail.
without_apart :
    (a : ℕ) (xs : List CacheItem) → ((y : CacheItem) → In y xs → a ≢ y.address) → without a xs ≡ xs
unfolding without
without_apart a [] n = refl
without_apart a (x ∷ xs) n =
    rw (==-false (λ e. n x here (sym e)), without_apart a xs (λ y i. n y (there i))) refl

pub without_head :
    (x : CacheItem) (xs : List CacheItem)
    → Distinct (λ z. z.address) (x ∷ xs)
    → without x.address (x ∷ xs) ≡ xs
unfolding without Distinct
without_head x xs d = rw (==-refl x.address) (without_apart x.address xs d.0)

pub reset-IsConsistent : (size : ℕ) (c : Cache) → IsConsistent (reset size c)
unfolding reset Distinct
reset-IsConsistent size c = record {
  linked = λ x i. elim i [ ];
  listed = λ k x i. elim i [ ];
  addresses = tt;
  ids = tt;
  chains = λ k. tt;
  allocated = λ x i. elim i [ ];
}

-- A change of the room alone.
pub same_items-IsConsistent :
    (c : Cache) (n : ℕ) → IsConsistent c → IsConsistent (record c { available = n })
same_items-IsConsistent c n q = record {
  linked = q.linked;
  listed = q.listed;
  addresses = q.addresses;
  ids = q.ids;
  chains = q.chains;
  allocated = q.allocated;
}
