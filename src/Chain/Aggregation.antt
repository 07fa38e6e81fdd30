-- ===== src/Chain/Aggregation.antt =====
-- `aggregation_bits_from_validator_indices` and `aggregate_attestations_by_data` of
-- crates/blockchain/src/store.rs. The groups come in the order of their first votes; that of the
-- source's map is unspecified.
use ethlambda.Base.{
  ℕ, ◌+◌, ◌<◌, ◌≤◌, ◌≡◌, refl, Bool, true, false, List, [], ◌∷◌, ◌++◌, ltb, if◌then◌else◌,
  get_elem?, get_elem?-set_self, get_elem?-set_ne, length-set, length-replicate, zero, suc,
  unwrap_or, ◌||◌, ◌∙◌, nat_eq, ◌==◌, Outcome, ok, expect, ◌>>=◌, Map, lookup, insert, arith, any,
  length, replicate, set,
}
use ethlambda.Ssz.{Ssz, SszLaws}
use ethlambda.Ssz.Laws.{put_ok, with_capacity_ok}
use ethlambda.Types.{
  H256, validator_registry_limit, AttestationData, Attestation, AggregatedAttestation, Roots,
}

-- `iter().max().unwrap_or(0)`
abbrev pub max_id : List ℕ → ℕ
max_id [] = 0
max_id (i ∷ ids) = let rest = max_id ids in if ltb rest i then i else rest

module _ (S : Ssz) where
  open S use {BitList, put, with_capacity}

  unfoldable pub set_bits {ℓ} : {E : Type ℓ} → List ℕ → BitList → Outcome E BitList
  set_bits [] bits = ok bits
  set_bits (i ∷ ids) bits = expect (put bits i true) >>= λ bits'. set_bits ids bits'

  unfoldable pub bits_of {ℓ} : {E : Type ℓ} → ℕ → List ℕ → Outcome E BitList
  unfolding set_bits
  bits_of capacity ids = expect (with_capacity validator_registry_limit capacity) >>= set_bits ids

  unfoldable pub aggregation_bits_from_validator_indices {ℓ} :
      {E : Type ℓ} → List ℕ → Outcome E BitList
  unfolding bits_of
  aggregation_bits_from_validator_indices [] = bits_of 0 []
  aggregation_bits_from_validator_indices (i ∷ ids) = bits_of (max_id (i ∷ ids) + 1) (i ∷ ids)

  module _ (R : Roots S) where
    abbrev pub Groups : Type 0
    Groups = Map H256 (AttestationData × List ℕ)

    unfoldable pub add_vote : Attestation → Groups → Groups
    add_vote a groups =
        let data_root = R.attestation_data_hash a.attestation_data in
        let (d, ids) = unwrap_or (lookup data_root groups) (a.attestation_data, []) in
        insert data_root (d, ids ++ (a.validator_id ∷ [])) groups

    unfoldable pub group_votes : List Attestation → Groups → Groups
    unfolding add_vote
    group_votes [] groups = groups
    group_votes (a ∷ attestations) groups = group_votes attestations (add_vote a groups)

    unfoldable pub aggregate_groups {ℓ} :
        {E : Type ℓ} → Groups → Outcome E (List (AggregatedAttestation S))
    aggregate_groups [] = ok []
    aggregate_groups ((data_root, (d, ids)) ∷ groups) = bits_of (max_id ids + 1) ids >>= λ bits.
        aggregate_groups groups >>= λ rest.
        ok ((record { aggregation_bits = bits; attestation_data = d }) ∷ rest)

    unfoldable pub aggregate_attestations_by_data {ℓ} :
        {E : Type ℓ} → List Attestation → Outcome E (List (AggregatedAttestation S))
    unfolding group_votes aggregate_groups
    aggregate_attestations_by_data attestations = aggregate_groups (group_votes attestations [])

abbrev pub bit : List Bool → ℕ → Bool
bit bits i = unwrap_or (get_elem? bits i) false

bit-set :
    (bits : List Bool) (i j : ℕ)
    → i < length bits
    → bit (set bits i true) j ≡ (if i == j then true else bit bits j)
bit-set bits i j h =
    ground
      (arith, nat_eq.beq_iff i j, get_elem?-set_self bits i true h, get_elem?-set_ne bits i j true)

le-max_id : (ids : List ℕ) (i : ℕ) → any (λ j. j == i) ids ≡ true → i ≤ max_id ids
le-max_id [] i h = absurd cc
le-max_id (j ∷ ids) i h = ground (arith, nat_eq.beq_iff j i, le-max_id ids i, h)

bit-replicate : (n i : ℕ) → bit (replicate n false) i ≡ false
bit-replicate zero i = refl
bit-replicate (suc n) zero = refl
bit-replicate (suc n) (suc i) = bit-replicate n i

abbrev AllBelow : ℕ → List ℕ → Type 0
AllBelow n [] = Unit
AllBelow n (i ∷ ids) = (i < n) × AllBelow n ids

AllBelow-eq : (m n : ℕ) (ids : List ℕ) → m ≡ n → AllBelow n ids → AllBelow m ids
AllBelow-eq m n ids e h = rw e h

AllBelow-max_id : (ids : List ℕ) (n : ℕ) → max_id ids < n → AllBelow n ids
AllBelow-max_id [] n h = tt
AllBelow-max_id (i ∷ ids) n h = (ground (arith, h), AllBelow-max_id ids n (ground (arith, h)))

module _ (S : Ssz) (L : SszLaws S) where
  open S use {BitList, iter}

  set_bits_lem {ℓ} :
      {E : Type ℓ} (ids : List ℕ) (bits : BitList)
      → AllBelow (length (iter bits)) ids
      → (bits' : BitList) × (set_bits S {E = E} ids bits ≡ ok bits')
        × (length (iter bits') ≡ length (iter bits))
        × ((i : ℕ) → bit (iter bits') i ≡ (any (λ j. j == i) ids || bit (iter bits) i))
  unfolding set_bits
  set_bits_lem [] bits h = (bits, refl, refl, λ i. refl)
  set_bits_lem {E = E} (j ∷ ids) bits h =
      let (marked, put_marked, is_set) = put_ok S L bits j true h.0 in
      let size : length (iter marked) ≡ length (iter bits) =
        rw is_set (length-set (iter bits) j true) in
      let below : AllBelow (length (iter marked)) ids = rw size h.1 in
      let (bits', ran, same, read) = set_bits_lem {E = E} ids marked below in
      (
        bits',
        rw put_marked ran,
        same ∙ size,
        (λ i. ground (arith, read i, is_set, bit-set (iter bits) j i h.0)),
      )

  -- For validators below the registry limit the bits are built without a panic; they are one more
  -- than the highest index (none for no validators), and a validator's bit is set exactly when the
  -- validator is in the list.
  pub aggregation_bits_lem {ℓ} :
      {E : Type ℓ} (ids : List ℕ)
      → max_id ids < validator_registry_limit
      → (bits : BitList) × (aggregation_bits_from_validator_indices S {E = E} ids ≡ ok bits)
        × (length (iter bits) ≡ (if any (λ j. true) ids then max_id ids + 1 else 0))
        × ((i : ℕ) → bit (iter bits) i ≡ any (λ j. j == i) ids)
  unfolding aggregation_bits_from_validator_indices bits_of set_bits
  aggregation_bits_lem {E = E} [] h =
      let (fresh, got, is_fresh) = with_capacity_ok S L validator_registry_limit 0 (omega arith) in
      (fresh, rw got refl, rw is_fresh refl, (λ i. rw is_fresh refl))
  aggregation_bits_lem {E = E} (j ∷ ids) h =
      let all = j ∷ ids in
      let n = max_id all + 1 in
      let (fresh, got, is_fresh) =
        with_capacity_ok S L validator_registry_limit n (omega (arith, h)) in
      let size : length (iter fresh) ≡ n = rw is_fresh (length-replicate n false) in
      let below : AllBelow (length (iter fresh)) all =
        AllBelow-eq (length (iter fresh)) n all size (AllBelow-max_id all n (omega arith)) in
      let (bits, ran, same, read) = set_bits_lem {E = E} all fresh below in
      (bits, rw got ran, same ∙ size, (λ i. ground (arith, read i, is_fresh, bit-replicate n i)))
