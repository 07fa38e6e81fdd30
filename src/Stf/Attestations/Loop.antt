-- ===== src/Stf/Attestations/Loop.antt =====
-- The loop of `process_attestations`: on a consistent state no turn panics, the state stays
-- consistent, finality moves forward only, and checkpoints move only with two thirds of the votes.
use ethlambda.Base.{
  ℕ, suc, ◌+◌, ◌*◌, ◌≤◌, ◌≡◌, ◌≢◌, ◌⊎◌, refl, ap, ◌∙◌, Bool, true, false, arith, ltb, leb, nat_eq,
  if◌then◌else◌, Bool-cases, leb→le, le→ltb, inl, inr, none, List, [], ◌∷◌, length, count,
  replicate, ok, ◌>>=◌, unwrap_or, keys, lookup, insert, lookup-insert, Map,
}
use ethlambda.Ssz.{Ssz, SszLaws}
use ethlambda.Types.{H256, zero_hash, AggregatedAttestation, indices_from}
use ethlambda.Stf.Error.{Error}
use ethlambda.Stf.Invariant.{Rows}
use ethlambda.Stf.Attestations.{
  Votes, Tally, is_valid_vote, justify, mark_votes, process_attestation, process_each,
}
use ethlambda.Stf.Attestations.Tables.{insert-Rows, row_size, keys-insert}
use ethlambda.Stf.Attestations.Votes.{mark_votes_lem}
use ethlambda.Stf.Attestations.Finality.{IsVote, is_valid_vote-IsVote, IsVote-is_valid_vote}
use ethlambda.Stf.Attestations.Justify.{
  IsSound, Advances, Advances-refl, Advances-trans, Justifies, justify_ok,
}

module _ (S : Ssz) (L : SszLaws S) (root_to_slot : Map H256 ℕ) where
  open S use {iter, len}

  row_of : Tally S → AggregatedAttestation S → List Bool
  row_of t a =
      unwrap_or (lookup a.attestation_data.target.root t.justifications)
        (replicate (length t.state.validators) false)

  -- What one turn of the loop does.
  pub record Turned (t : Tally S) (a : AggregatedAttestation S) (t' : Tally S) : Type 0 where
    pub sound : IsSound S t'
    pub advances : Advances S t.state t'.state
    pub more : length (keys t'.justifications) ≤ suc (length (keys t.justifications))
    pub effect : (t'.state ≡ t.state) ⊎ Justifies S t a t'.state

  kept :
      (t : Tally S) (a : AggregatedAttestation S) (votes : Votes)
      → IsSound S t
      → Rows (length t.state.validators) votes
      → lookup zero_hash votes ≡ none
      → length (keys votes) ≤ suc (length (keys t.justifications))
      → Turned t a (record t { justifications = votes })
  kept t a votes i r z m = record {
    sound = record { consistent = i.consistent; rows = r; nonzero = z };
    more = m;
    advances = Advances-refl S t.state;
    effect = inl refl;
  }

  valid_turn :
      (t : Tally S) (a : AggregatedAttestation S) (marked : List Bool)
      → IsVote S t.state a.attestation_data.source a.attestation_data.target
      → len a.aggregation_bits ≤ length t.state.validators
      → mark_votes {E = Error} (indices_from 0 (iter a.aggregation_bits)) (row_of t a) ≡ ok marked
      → process_attestation S root_to_slot t a ≡ (
          if leb (2 * length t.state.validators) (3 * count (λ voted. voted) marked)
          then justify S
              (record t {
                justifications = insert a.attestation_data.target.root marked t.justifications;
              })
              a.attestation_data.source
              a.attestation_data.target
              root_to_slot
          else ok (record t {
            justifications = insert a.attestation_data.target.root marked t.justifications;
          }))
  unfolding process_attestation row_of
  valid_turn t a marked v fits ran =
      let valid =
        IsVote-is_valid_vote S t.state a.attestation_data.source a.attestation_data.target v in
      rw (valid, le→ltb (length t.state.validators) (len a.aggregation_bits) fits, ran)

  long_turn :
      (t : Tally S) (a : AggregatedAttestation S)
      → is_valid_vote S t.state a.attestation_data.source a.attestation_data.target ≡ true
      → ltb (length t.state.validators) (len a.aggregation_bits) ≡ true
      → process_attestation S root_to_slot t a
        ≡ ok (record t {
          justifications = insert a.attestation_data.target.root (row_of t a) t.justifications;
        })
  unfolding process_attestation row_of
  long_turn t a valid long = rw (valid, long)

  inserted_nonzero :
      (t : Tally S) (root : H256) (v : List Bool)
      → IsSound S t
      → root ≢ zero_hash
      → lookup zero_hash (insert root v t.justifications) ≡ none
  inserted_nonzero t root v i h =
      ground (arith, i.nonzero, lookup-insert root zero_hash v t.justifications)

  vote_counted :
      (t : Tally S) (a : AggregatedAttestation S)
      → IsSound S t
      → IsVote S t.state a.attestation_data.source a.attestation_data.target
      → len a.aggregation_bits ≤ length t.state.validators
      → (t' : Tally S) × (process_attestation S root_to_slot t a ≡ ok t') × Turned t a t'
  unfolding row_of
  vote_counted t a i v fits =
      let n = length t.state.validators in
      let target = a.attestation_data.target in
      let full : length (row_of t a) ≡ n = row_size n target.root t.justifications i.rows in
      let (marked, ran, size, who) =
        mark_votes_lem {E = Error} 0 (iter a.aggregation_bits) (row_of t a)
          (omega (arith, full, L.len-iter a.aggregation_bits)) in
      let t₁ : Tally S = record t { justifications = insert target.root marked t.justifications } in
      let rows₁ = insert-Rows n target.root marked t.justifications (size ∙ full) i.rows in
      let zero₁ = inserted_nonzero t target.root marked i v.target_nonzero in
      let more₁ = keys-insert target.root marked t.justifications in
      let step = valid_turn t a marked v fits ran in
      let enough = leb (2 * n) (3 * count (λ voted. voted) marked) in
      elim (Bool-cases enough) [
        | inr few ↦ (t₁, step ∙ rw few, kept t a t₁.justifications i rows₁ zero₁ more₁)
        | inl many ↦
            let (t', done, sound, advances, justified, finality, fewer) =
              justify_ok S L root_to_slot t₁ a.attestation_data.source target
                (record { consistent = i.consistent; rows = rows₁; nonzero = zero₁ }) v in
            (
              t',
              step ∙ rw many done,
              record {
                sound = sound;
                advances = advances;
                more = omega (arith, fewer, more₁);
                effect = inr (record {
                  vote = v;
                  voters = marked;
                  size = size ∙ full;
                  who = λ j. who j ∙ ground arith;
                  supermajority = leb→le (2 * n) (3 * count (λ voted. voted) marked) many;
                  justified = justified;
                  finality = finality;
                });
              },
            )
      ]

  invalid_turn :
      (t : Tally S) (a : AggregatedAttestation S)
      → is_valid_vote S t.state a.attestation_data.source a.attestation_data.target ≡ false
      → process_attestation S root_to_slot t a ≡ ok t
  unfolding process_attestation
  invalid_turn t a invalid = rw invalid

  -- On a sound tally no attestation makes the code panic or fail. The tally stays sound, the
  -- finalized slot does not move back, and either the state is unchanged, or the attestation was a
  -- valid vote, the validators that have voted for its target are those that had and those of its
  -- bits, they are two thirds of all, the target is now the justified checkpoint, and finality has
  -- stayed or moved to the source, with no slot between source and target justifiable after the
  -- slot that was finalized before this turn.
  pub process_attestation_ok :
      (t : Tally S) (a : AggregatedAttestation S)
      → IsSound S t
      → (t' : Tally S) × (process_attestation S root_to_slot t a ≡ ok t') × Turned t a t'
  unfolding row_of
  process_attestation_ok t a i =
      let source = a.attestation_data.source in
      let target = a.attestation_data.target in
      elim (Bool-cases (is_valid_vote S t.state source target)) [
        | inr invalid ↦ (
          t,
          invalid_turn t a invalid,
          kept t a t.justifications i i.rows i.nonzero (omega arith),
        )
        | inl valid ↦ elim (Bool-cases (ltb (length t.state.validators) (len a.aggregation_bits))) [
          | inl long ↦ (
            record t { justifications = insert target.root (row_of t a) t.justifications },
            long_turn t a valid long,
            kept t a _ i
                (insert-Rows _ target.root _ t.justifications
                  (row_size _ target.root t.justifications i.rows) i.rows)
                (inserted_nonzero t target.root (row_of t a) i
                  (is_valid_vote-IsVote S t.state source target valid).target_nonzero)
                (keys-insert target.root (row_of t a) t.justifications),
          )
          | inr short ↦
              vote_counted t a i (is_valid_vote-IsVote S t.state source target valid) (ground arith)
        ]
      ]

  -- So for a list of attestations.
  pub process_each_ok :
      (t : Tally S) (attestations : List (AggregatedAttestation S))
      → IsSound S t
      → (t' : Tally S) × (process_each S root_to_slot t attestations ≡ ok t')
        × IsSound S t'
        × Advances S t.state t'.state
        × (length (keys t'.justifications) ≤ length (keys t.justifications) + length attestations)
  unfolding process_each
  process_each_ok t [] i = (t, refl, i, Advances-refl S t.state, omega arith)
  process_each_ok t (a ∷ attestations) i =
      let (t₁, ran, turned) = process_attestation_ok t a i in
      let (t', rest, sound, advances, size) = process_each_ok t₁ attestations turned.sound in
      (
        t',
        ap (λ o. o >>= λ r. process_each S root_to_slot r attestations) ran ∙ rest,
        sound,
        Advances-trans S t.state t₁.state t'.state turned.advances advances,
        omega (arith, size, turned.more),
      )
