-- ===== src/Stf/Attestations.antt =====
-- crates/blockchain/state_transition/src/lib.rs: attestations, justification and finalization.
-- The vote table is a `HashMap` in the source: a map here, whose order serialization sorts away.
pub mod Votes
pub mod Finality
mod Tables
pub mod Rows
pub mod Justify
pub mod Loop
pub mod Serialize
use ethlambda.Base.{
  ℕ, zero, suc, ◌+◌, ◌-◌, ◌*◌, Bool, true, false, ◌&&◌, ◌||◌, not, none, some, List, [], ◌∷◌, ◌++◌,
  length, get_elem?, set, take, drop, replicate, any, count, ltb, leb, ◌==◌, nat_eq, unwrap_or,
  if◌then◌else◌, sub_u64, Map, keys, lookup, insert, remove, retain, Outcome, ok, panic, expect,
  ensure, ◌>>=◌, ◌>>◌,
}
use ethlambda.Ssz.{Ssz}
use ethlambda.Types.{
  H256, zero_hash, historical_roots_limit, validator_registry_limit, Checkpoint,
  AggregatedAttestation, State, indices_from,
}
use ethlambda.Stf.Error.{Error, zero_hash_in_justification_roots}
use ethlambda.Stf.JustifiedSlots.{is_slot_justified, set_justified, shift_window}
use ethlambda.Stf.Justifiable.{slot_is_justifiable_after}

-- `lo..hi` for `n` numbers
unfoldable pub range_from : ℕ → ℕ → List ℕ
range_from lo zero = []
range_from lo (suc n) = lo ∷ range_from (lo + 1) n

abbrev pub Votes : Type 0
Votes = Map H256 (List Bool)

-- The vote table of a state: row `i` of `bits` belongs to root `i`.
unfoldable pub load_votes : ℕ → List Bool → ℕ → List H256 → Votes → Votes
load_votes validator_count bits i [] votes = votes
load_votes validator_count bits i (root ∷ roots) votes =
    load_votes validator_count bits (i + 1) roots
      (insert root (take validator_count (drop (i * validator_count) bits)) votes)

-- The latest slot of each root, over `rounds` slots from `slot` on.
unfoldable pub latest_slots : List H256 → ℕ → ℕ → Map H256 ℕ → Map H256 ℕ
latest_slots hashes slot zero m = m
latest_slots hashes slot (suc rounds) m =
    latest_slots hashes (slot + 1) rounds (elim (get_elem? hashes slot) [
      | none ↦ m
      | some root ↦
          insert root
            (elim (lookup root m) [ none ↦ slot | some x ↦ if ltb x slot then slot else x ]) m
    ])

-- `votes[id] = true` for each id; panics out of bounds
unfoldable pub mark_votes {ℓ} : {E : Type ℓ} → List ℕ → List Bool → Outcome E (List Bool)
mark_votes [] votes = ok votes
mark_votes (id ∷ ids) votes =
    expect (if ltb id (length votes) then some (set votes id true) else none) >>= mark_votes ids

-- `sort` on roots
unfoldable pub insert_sorted : H256 → List H256 → List H256
insert_sorted a [] = a ∷ []
insert_sorted a (b ∷ l) = let rest = insert_sorted a l in if leb a b then a ∷ b ∷ l else b ∷ rest

unfoldable pub sort : List H256 → List H256
unfolding insert_sorted
sort [] = []
sort (a ∷ l) = insert_sorted a (sort l)

-- the rows of the sorted roots, one after another
unfoldable pub flat_votes {ℓ} : {E : Type ℓ} → List H256 → Votes → Outcome E (List Bool)
flat_votes [] votes = ok []
flat_votes (root ∷ roots) votes =
    expect (lookup root votes) >>= λ row. flat_votes roots votes >>= λ rest. ok (row ++ rest)

-- Is some slot strictly between the two justifiable?
unfoldable pub justifiable_between : ℕ → ℕ → ℕ → Bool
unfolding range_from
justifiable_between finalized_slot source_slot target_slot =
    any (λ slot. slot_is_justifiable_after slot finalized_slot)
      (range_from (source_slot + 1) (target_slot - (source_slot + 1)))

-- Is the root's latest slot after the finalized slot? A root without a slot is pruned.
unfoldable pub is_unfinalized : Map H256 ℕ → ℕ → H256 → Bool
is_unfinalized root_to_slot finalized_slot root = elim (lookup root root_to_slot) [
  | none ↦ false
  | some slot ↦ ltb finalized_slot slot
]

module _ (S : Ssz) where
  open S use {BitList, iter, len, put, with_capacity}

  unfoldable pub checkpoint_exists : State S → Checkpoint → Bool
  checkpoint_exists state checkpoint =
      elim (get_elem? state.historical_block_hashes checkpoint.slot) [
        | none ↦ false
        | some root ↦ root == checkpoint.root
      ]

  unfoldable pub is_valid_vote : State S → Checkpoint → Checkpoint → Bool
  is_valid_vote state source target =
      is_slot_justified S state.justified_slots state.latest_finalized.slot source.slot
      && not (is_slot_justified S state.justified_slots state.latest_finalized.slot target.slot)
      && not (source.root == zero_hash || target.root == zero_hash)
      && not (not (checkpoint_exists state source) || not (checkpoint_exists state target))
      && not (leb target.slot source.slot)
      && slot_is_justifiable_after target.slot state.latest_finalized.slot

  -- what the loop over the attestations changes
  pub record Tally : Type 0 where
    pub state : State S
    pub justifications : Votes

  unfoldable pub try_finalize : Tally → Checkpoint → Checkpoint → Map H256 ℕ → Outcome Error Tally
  unfolding justifiable_between is_unfinalized
  try_finalize t source target root_to_slot =
      if justifiable_between t.state.latest_finalized.slot source.slot target.slot
      then ok t
      else (do
        slots ←
            shift_window S t.state.justified_slots
              (sub_u64 source.slot t.state.latest_finalized.slot)
        ok (record {
          state = record (t.state) { latest_finalized = source; justified_slots = slots };
          justifications = retain (is_unfinalized root_to_slot source.slot) t.justifications;
        }))

  -- A target that has the votes of two thirds becomes justified.
  unfoldable pub justify : Tally → Checkpoint → Checkpoint → Map H256 ℕ → Outcome Error Tally
  justify t source target root_to_slot = do
    slots ← set_justified S t.state.justified_slots t.state.latest_finalized.slot target.slot
    try_finalize
        (record {
          state = record (t.state) { latest_justified = target; justified_slots = slots };
          justifications = remove target.root t.justifications;
        })
        source target root_to_slot

  -- one turn of the loop of `process_attestations`
  unfoldable pub process_attestation :
      Map H256 ℕ → Tally → AggregatedAttestation S → Outcome Error Tally
  process_attestation root_to_slot t attestation =
      let source = attestation.attestation_data.source in
      let target = attestation.attestation_data.target in
      let validator_count = length t.state.validators in
      let votes =
        unwrap_or (lookup target.root t.justifications) (replicate validator_count false) in
      if not (is_valid_vote t.state source target)
      then ok t
      else if ltb validator_count (len attestation.aggregation_bits)
      then ok (record t { justifications = insert target.root votes t.justifications })
      else (do
        marked ← mark_votes (indices_from 0 (iter attestation.aggregation_bits)) votes
        let t' = record t { justifications = insert target.root marked t.justifications }
        if leb (2 * validator_count) (3 * count (λ voted. voted) marked)
            then justify t' source target root_to_slot
            else ok t')

  unfoldable pub process_each :
      Map H256 ℕ → Tally → List (AggregatedAttestation S) → Outcome Error Tally
  process_each root_to_slot t [] = ok t
  process_each root_to_slot t (a ∷ attestations) =
      process_attestation root_to_slot t a >>= λ t'. process_each root_to_slot t' attestations

  -- Set the bits of `votes`, counted from `i`.
  unfoldable pub write_bits {ℓ} : {E : Type ℓ} → ℕ → List Bool → BitList → Outcome E BitList
  write_bits i [] bits = ok bits
  write_bits i (voted ∷ votes) bits =
      expect (if voted then put bits i true else some bits) >>= write_bits (i + 1) votes

  unfoldable pub serialize_justifications : Tally → Outcome Error (State S)
  unfolding sort flat_votes write_bits
  serialize_justifications t = do
    let roots = sort (keys t.justifications)
    empty ← expect (
        with_capacity (historical_roots_limit * validator_registry_limit)
          (length roots * length t.state.validators))
    flat ← flat_votes roots t.justifications
    bits ← write_bits 0 flat empty
    if leb (length roots) historical_roots_limit
        then ok
            (record (t.state) { justifications_roots = roots; justifications_validators = bits })
        else panic

  unfoldable pub root_slots : State S → Map H256 ℕ
  unfolding latest_slots
  root_slots state =
      latest_slots state.historical_block_hashes (state.latest_finalized.slot + 1)
        (length state.historical_block_hashes - (state.latest_finalized.slot + 1)) []

  unfoldable pub load_tally : State S → Tally
  unfolding load_votes
  load_tally state = record {
    state = state;
    justifications =
        load_votes (length state.validators) (iter state.justifications_validators) 0
          state.justifications_roots [];
  }

  unfoldable pub process_attestations :
      State S → List (AggregatedAttestation S) → Outcome Error (State S)
  process_attestations state attestations = do
    ensure (not (any (λ root. root == zero_hash) state.justifications_roots))
        zero_hash_in_justification_roots
    t ← process_each (root_slots state) (load_tally state) attestations
    serialize_justifications t
