-- ===== src/Stf/Genesis.antt =====
-- crates/common/types/src/{state,genesis}.rs: the genesis state, and the chains that grow from it.
use ethlambda.Base.{
  ℕ, ◌+◌, ◌*◌, ◌≤◌, ◌≡◌, refl, ap, List, [], ◌∷◌, length, leb, le→leb, if◌then◌else◌, arith,
  Outcome, ok, panic, expect, ◌>>=◌,
}
use ethlambda.Ssz.{Ssz, SszLaws}
use ethlambda.Ssz.Laws.{with_capacity_ok}
use ethlambda.Types.{
  zero_hash, historical_roots_limit, validator_registry_limit, default_checkpoint, BlockHeader,
  Validator, State, Block, Roots,
}
use ethlambda.Stf.Error.{Error}
use ethlambda.Stf.Blocks.{state_transition}
use ethlambda.Stf.Blocks.Valid.{IsValid}
use ethlambda.Stf.Blocks.Transition.{state_transition-eq-ok}

-- `GenesisConfig::validators`, from index `i`
unfoldable pub genesis_validators : ℕ → List (List ℕ) → List Validator
genesis_validators i [] = []
genesis_validators i (pubkey ∷ pubkeys) =
    record { pubkey = pubkey; index = i } ∷ genesis_validators (i + 1) pubkeys

pub length-genesis_validators :
    (i : ℕ) (pubkeys : List (List ℕ)) → length (genesis_validators i pubkeys) ≡ length pubkeys
unfolding genesis_validators
length-genesis_validators i [] = refl
length-genesis_validators i (p ∷ pubkeys) = omega (arith, length-genesis_validators (i + 1) pubkeys)

module _ (S : Ssz) (R : Roots S) where
  open S use {with_capacity, iter}
  open R use {body_hash}

  -- The header of the genesis block.
  unfoldable pub genesis_header : BlockHeader
  genesis_header = record {
    slot = 0;
    proposer_index = 0;
    parent_root = zero_hash;
    state_root = zero_hash;
    body_root = body_hash (record { attestations = [] });
  }

  -- Panics with more validators than the registry takes.
  unfoldable pub from_genesis : ℕ → List Validator → Outcome Error (State S)
  unfolding genesis_header
  from_genesis genesis_time validators =
      if leb (length validators) validator_registry_limit
      then (do
        justified_slots ← expect (with_capacity historical_roots_limit 0)
        justifications_validators ←
            expect (with_capacity (historical_roots_limit * validator_registry_limit) 0)
        ok (record {
          config = record { genesis_time = genesis_time };
          slot = 0;
          latest_block_header = genesis_header;
          latest_justified = default_checkpoint;
          latest_finalized = default_checkpoint;
          historical_block_hashes = [];
          justified_slots = justified_slots;
          validators = validators;
          justifications_roots = [];
          justifications_validators = justifications_validators;
        }))
      else panic

  -- A chain of accepted blocks.
  pub data Chain (s : State S) : State S → Type 0 where
    start : Chain s s
    grow :
        {t u : State S} (block : Block S)
        → Chain s t
        → state_transition S R t block ≡ ok u
        → Chain s u

  -- Before each block the table of votes has room for all its attestations.
  abbrev pub HasRoom : {s t : State S} → Chain s t → Type 0
  HasRoom start = Unit
  HasRoom (grow {t = t} block chain ran) =
      HasRoom chain
      × (length t.justifications_roots + length block.body.attestations ≤ historical_roots_limit)

module _ (S : Ssz) (R : Roots S) (L : SszLaws S) where
  open S use {iter}

  -- With a registry in its limit the genesis state is built without a panic, is valid, and has the validators.
  from_genesis_ok :
      (genesis_time : ℕ) (validators : List Validator)
      → length validators ≤ validator_registry_limit
      → (s : State S) × (from_genesis S R genesis_time validators ≡ ok s)
        × IsValid S s
        × (s.validators ≡ validators)
  unfolding from_genesis genesis_header
  from_genesis_ok genesis_time validators h =
      let (b, got, zeros) = with_capacity_ok S L historical_roots_limit 0 (omega arith) in
      let (c, got', zeros') =
        with_capacity_ok S L (historical_roots_limit * validator_registry_limit) 0 (omega arith) in
      (
        record {
          config = record { genesis_time = genesis_time };
          slot = 0;
          latest_block_header = genesis_header S R;
          latest_justified = default_checkpoint;
          latest_finalized = default_checkpoint;
          historical_block_hashes = [];
          justified_slots = b;
          validators = validators;
          justifications_roots = [];
          justifications_validators = c;
        },
        rw (le→leb (length validators) validator_registry_limit h, got, got'),
        record {
          consistent = record {
            history = refl;
            window = ap length zeros;
            finalized_past = omega arith;
            in_limit = omega arith;
          };
          nonzero = refl;
          table = omega (arith, ap length zeros');
          registry = h;
        },
        refl,
      )

  -- Along a chain of accepted blocks from a valid state, where the vote table had room before each
  -- block for all its attestations, the state is valid and the finalized slot has not moved back.
  pub Chain-IsValid :
      {s t : State S}
      → IsValid S s
      → (chain : Chain S R s t) → HasRoom S R chain
      → IsValid S t × (s.latest_finalized.slot ≤ t.latest_finalized.slot)
  Chain-IsValid v start room = (v, omega arith)
  Chain-IsValid {s} {t} v (grow {t = m} block chain ran) room =
      let (vm, le) = Chain-IsValid v chain room.0 in
      let (_, _, a, _, _) = state_transition-eq-ok S R L m t block vm room.1 ran in
      (a.valid, omega (arith, le, a.finalized))
