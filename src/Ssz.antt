-- ===== src/Ssz.antt =====
-- What the program takes from its SSZ and hashing libraries (ssz_types, tree_hash): bit lists with
-- a length limit, and the hash tree roots of the consensus containers. Neither is code of the
-- repository, so both are parameters; the laws state the documented behaviour of the bit lists.
pub mod Laws
use ethlambda.Base.{
  ℕ, ◌≡◌, Bool, false, Option, List, length, get_elem?, set, replicate, leb, ltb, if◌then◌else◌,
  ◌||◌, [], ◌∷◌, none, some,
}
use mathlib.Core.Option

-- `ssz_types::BitList<N>`: `none` is the library's `Err`. The limit `N` is an argument of
-- `with_capacity`.
pub record Ssz : Type 1 where
  pub BitList : Type 0
  pub iter : BitList → List Bool
  pub len : BitList → ℕ
  pub get : BitList → ℕ → Option Bool
  pub put : BitList → ℕ → Bool → Option BitList
  pub with_capacity : ℕ → ℕ → Option BitList
  pub union : BitList → BitList → BitList

-- The bits of either list; the result is as long as the longer one.
abbrev pub or_bits : List Bool → List Bool → List Bool
or_bits [] ys = ys
or_bits (x ∷ xs) [] = x ∷ xs
or_bits (x ∷ xs) (y ∷ ys) = (x || y) ∷ or_bits xs ys

pub record SszLaws (S : Ssz) : Type 0 where
  pub len-iter : (b : S.BitList) → S.len b ≡ length (S.iter b)
  pub get-iter : (b : S.BitList) (i : ℕ) → S.get b i ≡ get_elem? (S.iter b) i
  pub iter-put :
      (b : S.BitList) (i : ℕ) (v : Bool)
      → Option.map S.iter (S.put b i v)
        ≡ (if ltb i (length (S.iter b)) then some (set (S.iter b) i v) else none)
  pub iter-with_capacity :
      (limit n : ℕ)
      → Option.map S.iter (S.with_capacity limit n)
        ≡ (if leb n limit then some (replicate n false) else none)
  pub iter-union : (a b : S.BitList) → S.iter (S.union a b) ≡ or_bits (S.iter a) (S.iter b)

-- The laws can hold: a bit list is the list of its bits.
abbrev pub list_ssz : Ssz
list_ssz = record {
  BitList = List Bool;
  iter = λ b. b;
  len = length;
  get = get_elem?;
  put = λ b i v. if ltb i (length b) then some (set b i v) else none;
  with_capacity = λ limit n. if leb n limit then some (replicate n false) else none;
  union = or_bits;
}
