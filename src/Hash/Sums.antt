-- ===== src/Hash/Sums.antt =====
-- How often an element stands in a list, and in the lists of an array.
use os_pintos.Common.{
  ℕ, zero, suc, ◌+◌, ◌≤◌, ◌<◌, ◌≡◌, refl, ◌∙◌, ap, List, [], ◌∷◌, ◌++◌, arith, ◌==◌, length, set,
  replicate, if◌then◌else◌, inl, inr, Bool-cases, length-append,
}
use os_pintos.Sched.{list_remove}
use os_pintos.Hash.{bucket}

abbrev pub one : ℕ → ℕ → ℕ
one x y = if x == y then 1 else 0

unfoldable pub count : ℕ → List ℕ → ℕ
count y [] = 0
count y (x ∷ l) = one x y + count y l

-- All elements of the buckets, one after the other.
unfoldable pub all : List (List ℕ) → List ℕ
all [] = []
all (b ∷ bs) = b ++ all bs

pub count-append : (y : ℕ) (a b : List ℕ) → count y (a ++ b) ≡ count y a + count y b
unfolding count
count-append y [] b = omega arith
count-append y (x ∷ a) b = omega (arith, count-append y a b)

-- What a change of one bucket does to all.
pub count-set :
    (y : ℕ) (bs : List (List ℕ)) (i : ℕ) (l : List ℕ)
    → i < length bs
    → count y (all (set bs i l)) + count y (bucket bs i) ≡ count y l + count y (all bs)
unfolding all
count-set y [] i l h = absurd (omega (arith, h))
count-set y (b ∷ bs) zero l h = omega (arith, count-append y l (all bs), count-append y b (all bs))
count-set y (b ∷ bs) (suc i) l h = omega (
  arith,
  count-append y b (all (set bs i l)),
  count-append y b (all bs),
  count-set y bs i l (omega (arith, h)),
)

pub length-set-all :
    (bs : List (List ℕ)) (i : ℕ) (l : List ℕ)
    → i < length bs
    → length (all (set bs i l)) + length (bucket bs i) ≡ length l + length (all bs)
unfolding all
length-set-all [] i l h = absurd (omega (arith, h))
length-set-all (b ∷ bs) zero l h = omega (arith, length-append l (all bs), length-append b (all bs))
length-set-all (b ∷ bs) (suc i) l h = omega (
  arith,
  length-append b (all (set bs i l)),
  length-append b (all bs),
  length-set-all bs i l (omega (arith, h)),
)

pub bucket-set :
    (bs : List (List ℕ)) (i j : ℕ) (l : List ℕ)
    → i < length bs
    → bucket (set bs i l) j ≡ (if i == j then l else bucket bs j)
bucket-set [] i j l h = absurd (omega (arith, h))
bucket-set (b ∷ bs) zero zero l h = ground arith
bucket-set (b ∷ bs) zero (suc j) l h = ground arith
bucket-set (b ∷ bs) (suc i) zero l h = ground arith
bucket-set (b ∷ bs) (suc i) (suc j) l h = ground (arith, bucket-set bs i j l (omega (arith, h)))

pub count-bucket_le :
    (y : ℕ) (bs : List (List ℕ)) (i : ℕ) → count y (bucket bs i) ≤ count y (all bs)
unfolding all count
count-bucket_le y [] i = omega arith
count-bucket_le y (b ∷ bs) zero = omega (arith, count-append y b (all bs))
count-bucket_le y (b ∷ bs) (suc i) =
    omega (arith, count-append y b (all bs), count-bucket_le y bs i)

-- An element that stands somewhere stands in a bucket.
pub in_bucket :
    (y : ℕ) (bs : List (List ℕ)) → 0 < count y (all bs) → (i : ℕ) × (0 < count y (bucket bs i))
unfolding all count
in_bucket y [] h = absurd (omega (arith, h))
in_bucket y (b ∷ bs) h = elim (Bool-cases (count y b == 0)) [
  | inr n ↦ (0, ground (arith, n))
  | inl z ↦
      let (i, p) = in_bucket y bs (ground (arith, count-append y b (all bs), z, h)) in (suc i, p)
]

pub count-replicate : (y n : ℕ) → count y (all (replicate n [])) ≡ 0
unfolding all count
count-replicate y zero = refl
count-replicate y (suc n) = count-replicate y n

pub length-replicate-all : (n : ℕ) → length (all (replicate n [])) ≡ 0
unfolding all
length-replicate-all zero = refl
length-replicate-all (suc n) = length-replicate-all n

pub bucket-replicate : (n i : ℕ) → bucket (replicate n []) i ≡ []
bucket-replicate zero i = refl
bucket-replicate (suc n) zero = refl
bucket-replicate (suc n) (suc i) = bucket-replicate n i

pub count-list_remove :
    (x y : ℕ) (l : List ℕ) → 0 < count x l → count y (list_remove x l) + one x y ≡ count y l
unfolding list_remove count
count-list_remove x y [] h = absurd (omega (arith, h))
count-list_remove x y (z ∷ l) h = elim (Bool-cases (x == z)) [
  | inl e ↦
      let q : x ≡ z = ground (arith, e) in rw e (ap (λ k. count y l + one k y) q ∙ omega arith)
  | inr n ↦
      let p : 0 < count x l = ground (arith, n, h) in
      rw n (omega (arith, count-list_remove x y l p))
]

pub length-list_remove :
    (x : ℕ) (l : List ℕ) → 0 < count x l → length (list_remove x l) + 1 ≡ length l
unfolding list_remove count
length-list_remove x [] h = absurd (omega (arith, h))
length-list_remove x (z ∷ l) h = elim (Bool-cases (x == z)) [
  | inl e ↦ rw e (omega arith)
  | inr n ↦
      let p : 0 < count x l = ground (arith, n, h) in rw n (omega (arith, length-list_remove x l p))
]
