-- ===== src/Cache/Chains.antt =====
-- Lists of items in which no address and no id stands twice.
use spice.Prelude.{
  ℕ, ◌≡◌, ◌≢◌, refl, sym, ap, ◌∙◌, true, false, some, List, [], ◌∷◌, ◌++◌, ◌==◌, ◌⊎◌, inl, inr,
  arith, Bool-cases,
}
use spice.Cache.{CacheItem, without, unlink}

pub ==-false : {a b : ℕ} → a ≢ b → (a == b) ≡ false
==-false {a} {b} n = elim (Bool-cases (a == b)) [
  | inr e ↦ e
  | inl e ↦ absurd (n (ground (arith, e)))
]

pub ==-refl : (a : ℕ) → (a == a) ≡ true
==-refl a = ground arith

pub data In (x : CacheItem) : List CacheItem → Type 0 where
  here : {xs : List CacheItem} → In x (x ∷ xs)
  there : {y : CacheItem} {xs : List CacheItem} → In x xs → In x (y ∷ xs)

-- No item of the list has the value of `x` under `f`.
abbrev pub Apart : (CacheItem → ℕ) → CacheItem → List CacheItem → Type 0
Apart f x xs = (y : CacheItem) → In y xs → f x ≢ f y

unfoldable pub Distinct : (CacheItem → ℕ) → List CacheItem → Type 0
Distinct f [] = Unit {0}
Distinct f (x ∷ xs) = Apart f x xs × Distinct f xs

pub same_item :
    (f : CacheItem → ℕ) (xs : List CacheItem) (x y : CacheItem)
    → Distinct f xs
    → In x xs
    → In y xs
    → f x ≡ f y
    → x ≡ y
unfolding Distinct
same_item f [] x y d i j e = elim i [ ]
same_item f (z ∷ xs) x y d here here e = refl
same_item f (z ∷ xs) x y d here (there j) e = absurd (d.0 y j e)
same_item f (z ∷ xs) x y d (there i) here e = absurd (d.0 x i (sym e))
same_item f (z ∷ xs) x y d (there i) (there j) e = same_item f xs x y d.1 i j e

kept_apart :
    (a : ℕ) (xs ys : List CacheItem) (x y : CacheItem)
    → (In y ys → In y xs × (y.address ≢ a))
    → x.address ≢ a
    → In y (x ∷ ys)
    → In y (x ∷ xs) × (y.address ≢ a)
kept_apart a xs ys x y f n here = (here, n)
kept_apart a xs ys x y f n (there j) = let (k, m) = f j in (there k, m)

-- What `without` leaves.
pub In-without :
    (a : ℕ) (xs : List CacheItem) (y : CacheItem) → In y (without a xs) → In y xs × (y.address ≢ a)
unfolding without
In-without a [] y i = elim i [ ]
In-without a (x ∷ xs) y i = elim (Bool-cases (x.address == a)) [
  | inl e ↦ let (j, n) = In-without a xs y (rw e at i) in (there j, n)
  | inr e ↦
      kept_apart a xs (without a xs) x y (λ j. In-without a xs y j) (λ h. ground (arith, e, h))
        (rw e at i)
]

pub without-In :
    (a : ℕ) (xs : List CacheItem) (y : CacheItem) → In y xs → y.address ≢ a → In y (without a xs)
unfolding without
without-In a [] y i n = elim i [ ]
without-In a (x ∷ xs) y here n = rw (==-false n) here
without-In a (x ∷ xs) y (there j) n = elim (Bool-cases (x.address == a)) [
  | inl e ↦ rw e (without-In a xs y j n)
  | inr e ↦ rw e (there (without-In a xs y j n))
]

pub without-Distinct :
    (f : CacheItem → ℕ) (a : ℕ) (xs : List CacheItem) → Distinct f xs → Distinct f (without a xs)
unfolding without Distinct
without-Distinct f a [] d = tt
without-Distinct f a (x ∷ xs) d = elim (Bool-cases (x.address == a)) [
  | inl e ↦ rw e (without-Distinct f a xs d.1)
  | inr e ↦ rw e ((λ y i. d.0 y (In-without a xs y i).0), without-Distinct f a xs d.1)
]

-- An item at the end.
pub In-snoc : (xs : List CacheItem) (x y : CacheItem) → In y (xs ++ (x ∷ [])) → In y xs ⊎ (y ≡ x)
In-snoc [] x y here = inr refl
In-snoc [] x y (there i) = elim i [ ]
In-snoc (z ∷ xs) x y here = inl here
In-snoc (z ∷ xs) x y (there i) = elim (In-snoc xs x y i) [ inl j ↦ inl (there j) | inr e ↦ inr e ]

pub snoc-old : (xs : List CacheItem) (x y : CacheItem) → In y xs → In y (xs ++ (x ∷ []))
snoc-old [] x y i = elim i [ ]
snoc-old (z ∷ xs) x y here = here
snoc-old (z ∷ xs) x y (there i) = there (snoc-old xs x y i)

pub snoc-new : (xs : List CacheItem) (x : CacheItem) → In x (xs ++ (x ∷ []))
snoc-new [] x = here
snoc-new (z ∷ xs) x = there (snoc-new xs x)

pub snoc-Distinct :
    (f : CacheItem → ℕ) (xs : List CacheItem) (x : CacheItem)
    → Distinct f xs
    → Apart f x xs
    → Distinct f (xs ++ (x ∷ []))
unfolding Distinct
snoc-Distinct f [] x d n = ((λ y i. elim i [ ]), tt)
snoc-Distinct f (z ∷ xs) x d n = (
  (λ y i. elim (In-snoc xs x y i) [ inl j ↦ d.0 y j | inr e ↦ λ h. n z here (sym (h ∙ ap f e)) ]),
  snoc-Distinct f xs x d.1 (λ y i. n y (there i)),
)

-- What `unlink` leaves.
pub record Unlinks (x : CacheItem) (xs ys : List CacheItem) : Type 0 where
  pub were : (y : CacheItem) → In y ys → In y xs × (y.address ≢ x.address)
  pub stay : (y : CacheItem) → In y xs → y.address ≢ x.address → In y ys
  pub distinct : Distinct (λ z. z.address) ys

pub unlink-Unlinks :
    (x : CacheItem) (xs : List CacheItem)
    → In x xs
    → Distinct (λ z. z.address) xs
    → (ys : List CacheItem) × (unlink x.address xs ≡ some ys) × Unlinks x xs ys
unfolding unlink Distinct
unlink-Unlinks x [] i d = elim i [ ]
unlink-Unlinks x (z ∷ xs) here d = (
  xs,
  rw (==-refl x.address) refl,
  record {
    were = λ y i. (there i, λ h. d.0 y i (sym h));
    stay = λ y i n. behind n i;
    distinct = d.1;
  },
)
  where
    behind : {y : CacheItem} → y.address ≢ x.address → In y (x ∷ xs) → In y xs
    behind n here = absurd (n refl)
    behind n (there i) = i
unlink-Unlinks x (z ∷ xs) (there i) d =
    let (ys, e, u) = unlink-Unlinks x xs i d.1 in
    (
      z ∷ ys,
      rw (==-false (d.0 x i), e) refl,
      record {
        were = λ y j. were_cons u y j;
        stay = λ y j n. stay_cons u y j n;
        distinct = ((λ y j. d.0 y (u.were y j).0), u.distinct);
      },
    )
  where
    were_cons :
        {ys : List CacheItem}
        → Unlinks x xs ys
        → (y : CacheItem) → In y (z ∷ ys)
        → In y (z ∷ xs) × (y.address ≢ x.address)
    were_cons u y here = (here, d.0 x i)
    were_cons u y (there j) = let (k, n) = u.were y j in (there k, n)

    stay_cons :
        {ys : List CacheItem}
        → Unlinks x xs ys
        → (y : CacheItem) → In y (z ∷ xs)
        → y.address ≢ x.address
        → In y (z ∷ ys)
    stay_cons u y here n = here
    stay_cons u y (there j) n = there (u.stay y j n)
