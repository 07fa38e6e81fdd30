-- ===== src/Chain/Committee.antt =====
-- `aggregate_committee_signatures` of crates/blockchain/src/store.rs. The groups come in the order of
-- their first signatures; that of the source's map is unspecified.
pub mod Total
use ethlambda.Base.{
  ℕ, ◌%◌, ◌^◌, Option, none, some, List, [], ◌∷◌, ◌++◌, get_elem?, ◌==◌, nat_eq, map, unwrap_or,
  Outcome, ok, err, panic, Map, lookup, insert, ◌>>=◌,
}
use ethlambda.Ssz.{Ssz}
use ethlambda.Types.{
  H256, Validator, AttestationData, AggregatedSignatureProof, SignedAggregatedAttestation, State,
  Roots,
}
use ethlambda.Xmss.{Xmss, aggregate_signatures}
use ethlambda.Storage.Payloads.{SignatureKey}
use ethlambda.Storage.Store.{
  Store, StoredSignature, StoredAggregatedPayload, head_state, get_attestation_data_by_root,
  insert_new_aggregated_payloads_batch, delete_gossip_signatures,
}
use ethlambda.Chain.Aggregation.{aggregation_bits_from_validator_indices}
use ethlambda.Chain.Gossip.{payload_entries}
use ethlambda.Chain.Target.{OutOfFuel}

module _ (S : Ssz) (R : Roots S) (X : Xmss) where
  open X use {PublicKey, Signature}

  abbrev pub SignatureGroups : Type 0
  SignatureGroups = Map H256 (List (ℕ × Signature))

  -- The signatures that decode, by the root of what they sign.
  unfoldable pub group_signatures :
      Map SignatureKey StoredSignature → SignatureGroups → SignatureGroups
  group_signatures [] groups = groups
  group_signatures (((validator_id, data_root), stored) ∷ gossip_sigs) groups =
      group_signatures gossip_sigs (elim (X.signature_from_bytes stored.signature_bytes) [
        | none ↦ groups
        | some sig ↦
            insert data_root (unwrap_or (lookup data_root groups) [] ++ ((validator_id, sig) ∷ []))
              groups
      ])

  -- The group's members with a public key: its signature, its key and its index.
  unfoldable pub signers : List Validator → List (ℕ × Signature) → List (Signature × PublicKey × ℕ)
  signers validators [] = []
  signers validators ((vid, sig) ∷ group) =
      let rest = signers validators group in
      elim (get_elem? validators vid) [
        | none ↦ rest
        | some validator ↦ elim (X.public_key_from_bytes validator.pubkey) [
          | none ↦ rest
          | some key ↦ (sig, key, vid) ∷ rest
        ]
      ]

  -- What a group comes to: its aggregate, the payloads to insert and the keys to delete.
  abbrev pub Aggregates : Type 0
  Aggregates =
      List (SignedAggregatedAttestation S)
      × List (SignatureKey × StoredAggregatedPayload S)
      × List SignatureKey

  unfoldable pub aggregate_members :
      AttestationData → H256 → List (Signature × PublicKey × ℕ) → Outcome OutOfFuel Aggregates
  aggregate_members d data_root [] = ok ([], [], [])
  aggregate_members d data_root (m ∷ members) =
      let all = m ∷ members in
      let ids = map (λ e. e.2) all in
      elim (aggregate_signatures X (map (λ e. e.1) all) (map (λ e. e.0) all) data_root
        (d.slot % 2 ^ 32)) [
          | err e ↦ ok ([], [], [])
          | panic ↦ panic
          | ok proof_data ↦ aggregation_bits_from_validator_indices S ids >>= λ participants.
              let proof : AggregatedSignatureProof S = record {
                participants = participants;
                proof_data = proof_data;
              } in
              ok (
                (record { attestation_data = d; proof = proof }) ∷ [],
                map (λ vid. ((vid, data_root), record { slot = d.slot; proof = proof })) ids,
                map (λ vid. (vid, data_root)) ids,
              )
        ]

  unfoldable pub aggregate_group :
      Store S → List Validator → H256 → List (ℕ × Signature) → Outcome OutOfFuel Aggregates
  unfolding signers aggregate_members
  aggregate_group store validators data_root group =
      elim (get_attestation_data_by_root S store data_root) [
        | none ↦ ok ([], [], [])
        | some d ↦ aggregate_members d data_root (signers validators group)
      ]

  unfoldable pub aggregate_groups :
      Store S → List Validator → SignatureGroups → Outcome OutOfFuel Aggregates
  unfolding aggregate_group
  aggregate_groups store validators [] = ok ([], [], [])
  aggregate_groups store validators ((data_root, group) ∷ groups) =
      aggregate_group store validators data_root group >>= λ here.
      aggregate_groups store validators groups >>= λ rest.
      ok (here.0 ++ rest.0, here.1 ++ rest.1, here.2 ++ rest.2)

  -- The panics are the `expect` on the head state and those of the bit lists.
  unfoldable pub aggregate_committee_signatures :
      Store S → Outcome OutOfFuel (Store S × List (SignedAggregatedAttestation S))
  unfolding group_signatures aggregate_groups
  aggregate_committee_signatures store = elim store.tables.gossip_signatures [
    | [] ↦ ok (store, [])
    | first ∷ more ↦ elim (head_state S store) [
      | none ↦ panic
      | some state ↦
          aggregate_groups store state.validators (group_signatures (first ∷ more) [])
          >>= λ (new_aggregates, payloads, keys_to_delete). ok (
            delete_gossip_signatures S (insert_new_aggregated_payloads_batch S store payloads)
                keys_to_delete,
            new_aggregates,
          )
    ]
  ]
