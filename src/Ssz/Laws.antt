-- ===== src/Ssz/Laws.antt =====
-- The laws of bit lists in the form that proofs use: the operation succeeds, and its bits are.
use ethlambda.Base.{
  ℕ, ◌≤◌, ◌<◌, ◌≡◌, refl, Bool, false, Option, none, some, length, get_elem?, set, replicate, arith,
  lt→ltb, le→leb, unwrap_or, List, [], ◌∷◌, zero, suc, get_elem?-replicate,
}
use mathlib.Core.Option
use ethlambda.Ssz.{Ssz, SszLaws, list_ssz, or_bits}

map-eq-some {ℓ κ} :
    {A : Type ℓ} {B : Type κ} (f : A → B) (o : Option A) {b : B}
    → Option.map f o ≡ some b
    → (a : A) × (o ≡ some a) × (f a ≡ b)
map-eq-some f none h = cc
map-eq-some f (some a) h = (a, refl, cc)

-- The union with an all-zero list keeps every bit, read with `unwrap_or(false)`.
get-or_bits-zeros :
    (xs : List Bool) (n i : ℕ)
    → unwrap_or (get_elem? (or_bits xs (replicate n false)) i) false
      ≡ unwrap_or (get_elem? xs i) false
get-or_bits-zeros [] n i = ground (arith, get_elem?-replicate n i false)
get-or_bits-zeros (x ∷ xs) zero i = refl
get-or_bits-zeros (x ∷ xs) (suc n) zero = ground arith
get-or_bits-zeros (x ∷ xs) (suc n) (suc i) = get-or_bits-zeros xs n i

length-or_bits : (xs ys : List Bool) → length xs ≤ length ys → length (or_bits xs ys) ≡ length ys
length-or_bits [] ys h = refl
length-or_bits (x ∷ xs) [] h = absurd (omega arith)
length-or_bits (x ∷ xs) (y ∷ ys) h = omega (arith, length-or_bits xs ys)

pub list_ssz-SszLaws : SszLaws list_ssz
list_ssz-SszLaws = record {
  len-iter = λ b. refl;
  get-iter = λ b i. refl;
  iter-put = λ b i v. ground arith;
  iter-with_capacity = λ limit n. ground arith;
  iter-union = λ a b. refl;
}

module _ (S : Ssz) (L : SszLaws S) where
  open S use {BitList, iter, put, with_capacity, union}

  pub put_ok :
      (b : BitList) (i : ℕ) (v : Bool)
      → i < length (iter b)
      → (b' : BitList) × (put b i v ≡ some b') × (iter b' ≡ set (iter b) i v)
  put_ok b i v h =
      map-eq-some iter (put b i v) (rw (lt→ltb i (length (iter b)) h) at (L.iter-put b i v))

  pub with_capacity_ok :
      (limit n : ℕ)
      → n ≤ limit
      → (b : BitList) × (with_capacity limit n ≡ some b) × (iter b ≡ replicate n false)
  with_capacity_ok limit n h =
      map-eq-some iter (with_capacity limit n)
        (rw (le→leb n limit h) at (L.iter-with_capacity limit n))

  pub get-union_zeros :
      (a b : BitList) (n i : ℕ)
      → iter b ≡ replicate n false
      → unwrap_or (get_elem? (iter (union a b)) i) false ≡ unwrap_or (get_elem? (iter a) i) false
  get-union_zeros a b n i e = rw (L.iter-union a b, e) (get-or_bits-zeros (iter a) n i)

  pub length-union :
      (a b : BitList)
      → length (iter a) ≤ length (iter b)
      → length (iter (union a b)) ≡ length (iter b)
  length-union a b h = rw (L.iter-union a b) (length-or_bits (iter a) (iter b) h)
