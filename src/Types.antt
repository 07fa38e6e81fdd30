-- ===== src/Types.antt =====
-- The consensus containers: crates/common/types/src/{checkpoint,attestation,block,state}.rs.
-- An `H256` is the number that its 32 bytes write in big-endian order, so that the order of the
-- source (lexicographic on bytes) is that of numbers. A `VariableList` is the list of its elements;
-- where the source converts into one, the limit is tested there.
use ethlambda.Base.{
  ℕ, ◌≡◌, ◌↔◌, Bool, true, ◌&&◌, List, nat_beq, arith, [], ◌∷◌, ◌+◌, if◌then◌else◌, Eq,
}
use ethlambda.Ssz.{Ssz}

abbrev pub H256 : Type 0
H256 = ℕ

abbrev pub zero_hash : H256
zero_hash = 0

-- `HISTORICAL_ROOTS_LIMIT`, 2 ** 18
abbrev pub historical_roots_limit : ℕ
historical_roots_limit = 262144

-- `ValidatorRegistryLimit`, U4096
abbrev pub validator_registry_limit : ℕ
validator_registry_limit = 4096

pub record Checkpoint : Type 0 where
  pub root : H256
  pub slot : ℕ

-- `Checkpoint::default()`
abbrev pub default_checkpoint : Checkpoint
default_checkpoint = record { root = zero_hash; slot = 0 }

abbrev pub checkpoint_beq : Checkpoint → Checkpoint → Bool
checkpoint_beq a b = nat_beq a.root b.root && nat_beq a.slot b.slot

pub checkpoint_beq_iff : (a b : Checkpoint) → (checkpoint_beq a b ≡ true) ↔ (a ≡ b)
checkpoint_beq_iff a b = ground arith

instance abbrev pub checkpoint_eq : Eq Checkpoint
checkpoint_eq = record { beq = checkpoint_beq; beq_iff = checkpoint_beq_iff }

pub record AttestationData : Type 0 where
  pub slot : ℕ
  pub head : Checkpoint
  pub target : Checkpoint
  pub source : Checkpoint

pub record Attestation : Type 0 where
  pub validator_id : ℕ
  pub attestation_data : AttestationData

-- `signature` is the bytes of an XMSS signature.
pub record SignedAttestation : Type 0 where
  pub validator_id : ℕ
  pub attestation_data : AttestationData
  pub signature : List ℕ

pub record BlockHeader : Type 0 where
  pub slot : ℕ
  pub proposer_index : ℕ
  pub parent_root : H256
  pub state_root : H256
  pub body_root : H256

-- `pubkey` is the 52 bytes of an XMSS public key.
pub record Validator : Type 0 where
  pub pubkey : List ℕ
  pub index : ℕ

pub record ChainConfig : Type 0 where
  pub genesis_time : ℕ

-- the set positions of `bits`, counted from `i`
abbrev pub indices_from : ℕ → List Bool → List ℕ
indices_from i [] = []
indices_from i (b ∷ bits) = let rest = indices_from (i + 1) bits in if b then i ∷ rest else rest

module _ (S : Ssz) where
  open S use {BitList, iter}

  unfoldable pub validator_indices : BitList → List ℕ
  validator_indices bits = indices_from 0 (iter bits)

  pub record AggregatedAttestation : Type 0 where
    pub aggregation_bits : BitList
    pub attestation_data : AttestationData

  pub record BlockBody : Type 0 where
    pub attestations : List AggregatedAttestation

  pub record Block : Type 0 where
    pub slot : ℕ
    pub proposer_index : ℕ
    pub parent_root : H256
    pub state_root : H256
    pub body : BlockBody

  -- `proof_data` is the bytes of the leanVM proof.
  pub record AggregatedSignatureProof : Type 0 where
    pub participants : BitList
    pub proof_data : List ℕ

  pub record SignedAggregatedAttestation : Type 0 where
    pub attestation_data : AttestationData
    pub proof : AggregatedSignatureProof

  pub record BlockSignatures : Type 0 where
    pub attestation_signatures : List AggregatedSignatureProof
    pub proposer_signature : List ℕ

  pub record BlockWithAttestation : Type 0 where
    pub block : Block
    pub proposer_attestation : Attestation

  pub record SignedBlockWithAttestation : Type 0 where
    pub message : BlockWithAttestation
    pub signature : BlockSignatures

  pub record BlockSignaturesWithAttestation : Type 0 where
    pub proposer_attestation : Attestation
    pub signatures : BlockSignatures

  pub record State : Type 0 where
    pub config : ChainConfig
    pub slot : ℕ
    pub latest_block_header : BlockHeader
    pub latest_justified : Checkpoint
    pub latest_finalized : Checkpoint
    pub historical_block_hashes : List H256
    pub justified_slots : BitList
    pub validators : List Validator
    pub justifications_roots : List H256
    pub justifications_validators : BitList

-- `tree_hash_root` of each container.
pub record Roots (S : Ssz) : Type 0 where
  pub state_hash : State S → H256
  pub header_hash : BlockHeader → H256
  pub block_hash : Block S → H256
  pub body_hash : BlockBody S → H256
  pub attestation_data_hash : AttestationData → H256
