-- ===== src/Stf/Attestations/Rows.antt =====
-- The rows of the vote table: what loading and sorting make of them, in
-- crates/blockchain/state_transition/src/lib.rs.
use ethlambda.Base.{
  ℕ, zero, suc, ◌+◌, ◌*◌, ◌≤◌, ◌≡◌, refl, ap, sym, ◌∙◌, Bool, true, false, ◌||◌, arith, any, ◌==◌,
  nat_eq, nat_beq_iff, if◌then◌else◌, Bool-cases, inl, inr, Option, none, some, List, [], ◌∷◌, ◌++◌,
  length, replicate, take, drop, keys, ok, expect, lookup, insert, lookup-insert, length-append,
  get_elem?-replicate, length-drop, length-take_of_le, >>=-eq-ok,
}
use mathlib.Core.Path.{ap₂}
use mathlib.Core.List.{append_assoc}
use ethlambda.Types.{H256}
use ethlambda.Stf.Error.{Error}
use ethlambda.Stf.Invariant.{Rows}
use ethlambda.Stf.Attestations.{Votes, sort, insert_sorted, flat_votes, load_votes}
use ethlambda.Stf.Attestations.Tables.{insert-Rows, keys-insert}
use ethlambda.Stf.Attestations.Votes.{bit}

drop-append {ℓ} : {A : Type ℓ} (xs ys : List A) (n : ℕ) → length xs ≡ n → drop n (xs ++ ys) ≡ ys
drop-append [] ys zero h = refl
drop-append [] ys (suc n) h = absurd (omega arith)
drop-append (x ∷ xs) ys zero h = absurd (omega arith)
drop-append (x ∷ xs) ys (suc n) h = drop-append xs ys n (omega arith)

take-append {ℓ} : {A : Type ℓ} (xs ys : List A) (n : ℕ) → length xs ≡ n → take n (xs ++ ys) ≡ xs
take-append [] ys zero h = refl
take-append [] ys (suc n) h = absurd (omega arith)
take-append (x ∷ xs) ys zero h = absurd (omega arith)
take-append (x ∷ xs) ys (suc n) h = ap (◌∷◌ x) (take-append xs ys n (omega arith))

-- Lists of one length with the same bits are one.
pub ext_bit :
    (xs ys : List Bool) → length xs ≡ length ys → ((j : ℕ) → bit xs j ≡ bit ys j) → xs ≡ ys
ext_bit [] [] e h = refl
ext_bit [] (y ∷ ys) e h = absurd (omega arith)
ext_bit (x ∷ xs) [] e h = absurd (omega arith)
ext_bit (x ∷ xs) (y ∷ ys) e h =
    let here : x ≡ y = h 0 in
    let there : xs ≡ ys = ext_bit xs ys (omega arith) (λ j. h (suc j)) in cc

pub bit-replicate : (n j : ℕ) → bit (replicate n false) j ≡ false
bit-replicate n j = ground (arith, get_elem?-replicate n j false)

expect-eq-ok {ℓ κ} :
    {E : Type ℓ} {A : Type κ} (o : Option A) {a : A} → expect {E = E} o ≡ ok a → o ≡ some a
expect-eq-ok none h = cc
expect-eq-ok (some b) h = cc

flat_first :
    (k : H256) (roots : List H256) (votes : Votes) (flat : List Bool)
    → flat_votes {E = Error} (k ∷ roots) votes ≡ ok flat
    → (row : List Bool) × (rest : List Bool) × (lookup k votes ≡ some row)
      × (flat_votes {E = Error} roots votes ≡ ok rest)
      × (flat ≡ row ++ rest)
unfolding flat_votes
flat_first k roots votes flat h =
    let (row, found, h₁) = >>=-eq-ok (expect (lookup k votes)) _ h in
    let (rest, ran, h₂) = >>=-eq-ok (flat_votes roots votes) _ h₁ in
    (row, rest, expect-eq-ok (lookup k votes) found, ran, cc)

pub length-flat_votes :
    (n : ℕ) (roots : List H256) (votes : Votes) (flat : List Bool)
    → Rows n votes
    → flat_votes {E = Error} roots votes ≡ ok flat
    → length flat ≡ length roots * n
unfolding flat_votes
length-flat_votes n [] votes flat r h = let q : flat ≡ [] = cc in rw q (omega arith)
length-flat_votes n (k ∷ roots) votes flat r h =
    let (row, rest, found, ran, e) = flat_first k roots votes flat h in
    rw e (
      omega (
        arith,
        length-append row rest,
        r.row k row found,
        length-flat_votes n roots votes rest r ran,
      ))

load-Rows :
    (n i : ℕ) (bits : List Bool) (roots : List H256) (votes : Votes)
    → (i + length roots) * n ≤ length bits
    → Rows n votes
    → Rows n (load_votes n bits i roots votes)
unfolding load_votes
load-Rows n i bits [] votes h r = r
load-Rows n i bits (k ∷ roots) votes h r = load-Rows n (i + 1) bits roots _ (omega arith) (
    insert-Rows n k _ votes
      (length-take_of_le n (drop (i * n) bits) (omega (arith, length-drop (i * n) bits))) r)

-- The table of a state has rows of the right length if its bits are as many as they should be.
pub load_tally-Rows :
    (n : ℕ) (bits : List Bool) (roots : List H256)
    → length bits ≡ length roots * n
    → Rows n (load_votes n bits 0 roots [])
unfolding lookup
load_tally-Rows n bits roots h =
    load-Rows n 0 bits roots [] (omega arith) (record { row = λ k w e. cc })

length-load_votes :
    (n i : ℕ) (bits : List Bool) (roots : List H256) (votes : Votes)
    → length (keys (load_votes n bits i roots votes)) ≤ length roots + length (keys votes)
unfolding load_votes
length-load_votes n i bits [] votes = omega arith
length-load_votes n i bits (k ∷ roots) votes = omega (
  arith,
  length-load_votes n (i + 1) bits roots (insert k (take n (drop (i * n) bits)) votes),
  keys-insert k (take n (drop (i * n) bits)) votes,
)

pub load_tally-size :
    (n : ℕ) (bits : List Bool) (roots : List H256)
    → length (keys (load_votes n bits 0 roots [])) ≤ length roots
load_tally-size n bits roots = omega (arith, length-load_votes n 0 bits roots [])

module _ (root : H256) where
  load_absent :
      (n i : ℕ) (bits : List Bool) (roots : List H256) (votes : Votes)
      → any (λ r. r == root) roots ≡ false
      → lookup root (load_votes n bits i roots votes) ≡ lookup root votes
  unfolding load_votes
  load_absent n i bits [] votes h = refl
  load_absent n i bits (k ∷ roots) votes h =
      load_absent n (i + 1) bits roots _ (ground arith)
      ∙ ground (arith, lookup-insert k root (take n (drop (i * n) bits)) votes)

  -- A root that a state does not list has no row.
  pub load_tally_absent :
      (n : ℕ) (bits : List Bool) (roots : List H256)
      → any (λ r. r == root) roots ≡ false
      → lookup root (load_votes n bits 0 roots []) ≡ none
  unfolding lookup
  load_tally_absent n bits roots h = load_absent n 0 bits roots [] h

  pub is_root : H256 → Bool
  is_root r = r == root

  any-insert_sorted :
      (a : H256) (l : List H256) → any is_root (insert_sorted a l) ≡ (is_root a || any is_root l)
  unfolding insert_sorted
  any-insert_sorted a [] = refl
  any-insert_sorted a (b ∷ l) = ground (arith, any-insert_sorted a l)

  pub any-sort : (l : List H256) → any is_root (sort l) ≡ any is_root l
  unfolding sort
  any-sort [] = refl
  any-sort (a ∷ l) = any-insert_sorted a (sort l) ∙ ap (λ b. is_root a || b) (any-sort l)

  pub lookup-any :
      (votes : Votes)
      → lookup root votes ≡ (if any is_root (keys votes) then lookup root votes else none)
  unfolding lookup is_root
  lookup-any [] = refl
  lookup-any ((k, v) ∷ votes) = ground (arith, lookup-any votes)

  -- Rows written one after another are read back under their roots.
  pub reload :
      (n i : ℕ) (roots : List H256) (votes m : Votes) (pre flat : List Bool)
      → Rows n votes
      → length pre ≡ i * n
      → flat_votes {E = Error} roots votes ≡ ok flat
      → lookup root (load_votes n (pre ++ flat) i roots m)
        ≡ (if any is_root roots then lookup root votes else lookup root m)
  unfolding load_votes is_root
  reload n i [] votes m pre flat r size e = refl
  reload n i (k ∷ roots) votes m pre flat r size e =
      let (row, rest, found, ran, q) = flat_first k roots votes flat e in
      let here : take n (drop (i * n) (pre ++ flat)) ≡ row =
        ap (take n) (drop-append pre flat (i * n) size)
        ∙ ap (take n) q
        ∙ take-append row rest n (r.row k row found) in
      let there : pre ++ flat ≡ (pre ++ row) ++ rest =
        ap (λ l. pre ++ l) q ∙ sym (append_assoc pre row rest) in
      let m' = insert k row m in
      let more =
        reload n (i + 1) roots votes m' (pre ++ row) rest r
          (omega (arith, length-append pre row, r.row k row found)) ran in
      ap₂ (λ v bits. lookup root (load_votes n bits (i + 1) roots (insert k v m))) here there
      ∙ (more ∙ ground (arith, lookup-insert k root row m, found, nat_beq_iff k root))

  pub key_found :
      (votes : Votes)
      → any is_root (keys votes) ≡ true
      → (v : List Bool) × (lookup root votes ≡ some v)
  unfolding lookup is_root
  key_found [] h = cc
  key_found ((k, v) ∷ votes) h = elim (Bool-cases (k == root)) [
    | inl same ↦ (v, rw same)
    | inr other ↦ let (w, found) = key_found votes (ground arith) in (w, rw other found)
  ]

  -- A root without a row is not among the sorted keys.
  pub sort_absent :
      (votes : Votes) → lookup root votes ≡ none → any (λ r. r == root) (sort (keys votes)) ≡ false
  unfolding is_root
  sort_absent votes h = any-sort (keys votes) ∙ elim (Bool-cases (any is_root (keys votes))) [
    | inl there ↦ let (v, found) = key_found votes there in cc
    | inr absent ↦ absent
  ]

pub flat_total :
    (roots : List H256) (votes : Votes)
    → ((root : H256)
        → any (is_root root) roots ≡ true
        → (v : List Bool) × (lookup root votes ≡ some v))
    → (flat : List Bool) × (flat_votes {E = Error} roots votes ≡ ok flat)
unfolding flat_votes is_root
flat_total [] votes h = ([], refl)
flat_total (k ∷ roots) votes h =
    let (row, found) = h k (ground (arith, nat_beq_iff k k)) in
    let (rest, ran) = flat_total roots votes (λ root e. h root (ground arith)) in
    (row ++ rest, rw (found, ran))

length-insert_sorted : (a : H256) (l : List H256) → length (insert_sorted a l) ≡ suc (length l)
unfolding insert_sorted
length-insert_sorted a [] = refl
length-insert_sorted a (b ∷ l) = ground (arith, length-insert_sorted a l)

pub length-sort : (l : List H256) → length (sort l) ≡ length l
unfolding sort
length-sort [] = refl
length-sort (a ∷ l) = length-insert_sorted a (sort l) ∙ ap suc (length-sort l)

pub room : (a b c d : ℕ) → a ≤ c → b ≤ d → a * b ≤ c * d
room a b c d h k = grind arith
