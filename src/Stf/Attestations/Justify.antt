-- ===== src/Stf/Attestations/Justify.antt =====
-- Justification and finality on a sound tally: `try_finalize` and what follows a vote of two
-- thirds, in crates/blockchain/state_transition/src/lib.rs.
use ethlambda.Base.{
  ℕ, ◌*◌, ◌<◌, ◌≤◌, ◌≡◌, ◌⊎◌, refl, ◌∙◌, Bool, false, ◌||◌, arith, nat_eq, Bool-cases, inl, inr,
  none, List, length, count, replicate, ok, get_elem?-lt, unwrap_or, keys, lookup, remove, retain,
  lookup-remove, lookup-retain, Map,
}
use ethlambda.Ssz.{Ssz, SszLaws}
use ethlambda.Types.{H256, zero_hash, Checkpoint, State, AggregatedAttestation}
use ethlambda.Stf.Error.{Error}
use ethlambda.Stf.Invariant.{IsConsistent, Rows}
use ethlambda.Stf.Justifiable.{slot_is_justifiable_after}
use ethlambda.Stf.JustifiedSlots.Laws.{is_slot_justified_lem, set_justified_lem}
use ethlambda.Stf.JustifiedSlots.Shift.{shift_window_lem}
use ethlambda.Stf.Attestations.{Tally, is_unfinalized, justifiable_between, try_finalize, justify}
use ethlambda.Stf.Attestations.Tables.{remove-Rows, retain-Rows, keys-remove, keys-retain}
use ethlambda.Stf.Attestations.Votes.{bit}
use ethlambda.Stf.Attestations.Finality.{justifiable_between-none, source_not_behind, IsVote}

module _ (S : Ssz) where
  open S use {iter, len}

  pub record IsSound (t : Tally S) : Type 0 where
    pub consistent : IsConsistent S t.state
    pub rows : Rows (length t.state.validators) t.justifications
    pub nonzero : lookup zero_hash t.justifications ≡ none

  -- What every turn keeps, and the direction in which finality moves.
  pub record Advances (s s' : State S) : Type 0 where
    pub header : s'.latest_block_header ≡ s.latest_block_header
    pub history : s'.historical_block_hashes ≡ s.historical_block_hashes
    pub validators : s'.validators ≡ s.validators
    pub at_slot : s'.slot ≡ s.slot
    pub finalized : s.latest_finalized.slot ≤ s'.latest_finalized.slot

  pub Advances-refl : (s : State S) → Advances s s
  Advances-refl s = record {
    header = refl;
    history = refl;
    validators = refl;
    at_slot = refl;
    finalized = omega arith;
  }

  pub Advances-trans : (a b c : State S) → Advances a b → Advances b c → Advances a c
  Advances-trans a b c p q = record {
    header = q.header ∙ p.header;
    history = q.history ∙ p.history;
    validators = q.validators ∙ p.validators;
    at_slot = q.at_slot ∙ p.at_slot;
    finalized = omega arith;
  }

  -- Finality stays, or moves to the source, with no justifiable slot up to the target.
  abbrev Finality : State S → Checkpoint → Checkpoint → State S → Type 0
  Finality s source target s' =
      (s'.latest_finalized ≡ s.latest_finalized)
      ⊎ ((s'.latest_finalized ≡ source)
          × ((x : ℕ)
              → source.slot < x
              → x < target.slot
              → slot_is_justifiable_after x s.latest_finalized.slot ≡ false))

  -- What a vote for `target` does to the state once it has two thirds of the votes.
  pub record Justifies (t : Tally S) (a : AggregatedAttestation S) (s' : State S) : Type 0 where
    pub vote : IsVote S t.state a.attestation_data.source a.attestation_data.target
    pub voters : List Bool
    pub size : length voters ≡ length t.state.validators
    pub who :
        (j : ℕ)
        → bit voters j ≡ (
            bit
              (unwrap_or
                (lookup a.attestation_data.target.root t.justifications)
                (replicate (length t.state.validators) false))
              j
            || bit (iter a.aggregation_bits) j)
    pub supermajority : 2 * length t.state.validators ≤ 3 * count (λ voted. voted) voters
    pub justified : s'.latest_justified ≡ a.attestation_data.target
    pub finality : Finality t.state a.attestation_data.source a.attestation_data.target s'

module _ (S : Ssz) (L : SszLaws S) (root_to_slot : Map H256 ℕ) where
  open S use {iter, len}

  -- The result of a step from a state, with what it did to the checkpoints.
  pub record Stepped (s : State S) (size : ℕ) (source target : Checkpoint) (t' : Tally S)
      : Type 0 where
    pub sound : IsSound S t'
    pub advances : Advances S s t'.state
    pub justified : t'.state.latest_justified ≡ s.latest_justified
    pub finality : Finality S s source target t'.state
    pub fewer : length (keys t'.justifications) ≤ size

  try_finalize_ok :
      (t : Tally S) (source target : Checkpoint)
      → IsSound S t
      → t.state.latest_finalized.slot < target.slot
      → source.slot < target.slot
      → target.slot < t.state.latest_block_header.slot
      → (t' : Tally S) × (try_finalize S t source target root_to_slot ≡ ok t')
        × Stepped t.state (length (keys t.justifications)) source target t'
  unfolding try_finalize
  try_finalize_ok t source target i after forward known =
      elim (Bool-cases
        (justifiable_between t.state.latest_finalized.slot source.slot target.slot)) [
          | inl between ↦ (
            t,
            rw between,
            record {
              sound = i;
              advances = Advances-refl S t.state;
              justified = refl;
              finality = inl refl;
              fewer = omega arith;
            },
          )
          | inr clear ↦
              let f = t.state.latest_finalized.slot in
              let le = source_not_behind f source.slot target.slot after clear in
              let c = i.consistent in
              let (slots, ran, size, kept) =
                shift_window_lem S L {E = Error} t.state.justified_slots f source.slot le
                  (omega arith) in
              (
                record {
                  state = record (t.state) { latest_finalized = source; justified_slots = slots };
                  justifications =
                      retain (is_unfinalized root_to_slot source.slot) t.justifications;
                },
                ground (arith, clear, ran),
                record {
                  sound = record {
                    consistent = record {
                      history = c.history;
                      window = omega (arith, size);
                      finalized_past = omega arith;
                      in_limit = c.in_limit;
                    };
                    rows = retain-Rows _ _ _ i.rows;
                    nonzero = ground (
                      arith,
                      i.nonzero,
                      lookup-retain (is_unfinalized root_to_slot source.slot) zero_hash
                          t.justifications,
                    );
                  };
                  advances = record {
                    header = refl;
                    history = refl;
                    validators = refl;
                    at_slot = refl;
                    finalized = le;
                  };
                  justified = refl;
                  finality =
                      inr (refl, λ x. justifiable_between-none f source.slot target.slot x clear);
                  fewer = keys-retain _ _;
                },
              )
        ]

  pub justify_ok :
      (t : Tally S) (source target : Checkpoint)
      → IsSound S t
      → IsVote S t.state source target
      → (t' : Tally S) × (justify S t source target root_to_slot ≡ ok t')
        × IsSound S t'
        × Advances S t.state t'.state
        × (t'.state.latest_justified ≡ target)
        × Finality S t.state source target t'.state
        × (length (keys t'.justifications) ≤ length (keys t.justifications))
  unfolding justify
  justify_ok t source target i v =
      let c = i.consistent in
      let f = t.state.latest_finalized.slot in
      let known =
        get_elem?-lt t.state.historical_block_hashes target.slot target.root v.target_known in
      let after : f < target.slot =
        ground
          (arith, v.target_open, is_slot_justified_lem S L t.state.justified_slots f target.slot) in
      let (slots, set_, size, _) =
        set_justified_lem S L {E = Error} t.state.justified_slots f target.slot (omega arith) in
      let t₁ : Tally S = record {
        state = record (t.state) { latest_justified = target; justified_slots = slots };
        justifications = remove target.root t.justifications;
      } in
      let i₁ : IsSound S t₁ = record {
        consistent = record {
          history = c.history;
          window = size ∙ c.window;
          finalized_past = c.finalized_past;
          in_limit = c.in_limit;
        };
        rows = remove-Rows _ _ _ i.rows;
        nonzero = ground (arith, i.nonzero, lookup-remove target.root zero_hash t.justifications);
      } in
      let (t', ran, r) = try_finalize_ok t₁ source target i₁ after v.forward (omega arith) in
      (
        t',
        ground (arith, set_, ran),
        r.sound,
        record {
          header = r.advances.header;
          history = r.advances.history;
          validators = r.advances.validators;
          at_slot = r.advances.at_slot;
          finalized = r.advances.finalized;
        },
        r.justified,
        r.finality,
        omega (arith, r.fewer, keys-remove target.root t.justifications),
      )
