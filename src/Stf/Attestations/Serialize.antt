-- ===== src/Stf/Attestations/Serialize.antt =====
-- The vote table survives its way through the state: what `serialize_justifications` writes,
-- `load_votes` reads back.
use ethlambda.Base.{
  ℕ, ◌+◌, ◌-◌, ◌*◌, ◌≤◌, ◌≡◌, refl, ap, sym, ◌∙◌, Bool, true, false, ◌&&◌, ◌||◌, arith, leb, nat_eq,
  if◌then◌else◌, none, some, List, [], ◌∷◌, length, replicate, keys, ok, lookup, length-replicate,
  length-set,
}
use ethlambda.Ssz.{Ssz, SszLaws}
use ethlambda.Ssz.Laws.{put_ok, with_capacity_ok}
use ethlambda.Types.{H256, historical_roots_limit, validator_registry_limit}
use ethlambda.Stf.Error.{Error}
use ethlambda.Stf.Invariant.{Rows}
use ethlambda.Stf.Attestations.{Tally, sort, write_bits, load_votes, serialize_justifications}
use ethlambda.Stf.Attestations.Votes.{bit, bit-set, marked_step}
use ethlambda.Stf.Attestations.Rows.{
  ext_bit, bit-replicate, length-flat_votes, any-sort, lookup-any, reload, key_found, flat_total,
  length-sort, room,
}

module _ (S : Ssz) (L : SszLaws S) where
  open S use {BitList, iter, put, with_capacity}

  write_first {ℓ} :
      {E : Type ℓ} (i : ℕ) (voted : Bool) (votes : List Bool) (b b' : BitList)
      → (if voted then put b i true else some b) ≡ some b'
      → write_bits S {E = E} i (voted ∷ votes) b ≡ write_bits S (i + 1) votes b'
  unfolding write_bits
  write_first i voted votes b b' h = rw h

  write_bits_lem {ℓ} :
      {E : Type ℓ} (i : ℕ) (votes : List Bool) (b : BitList)
      → i + length votes ≤ length (iter b)
      → (b' : BitList) × (write_bits S {E = E} i votes b ≡ ok b')
        × (length (iter b') ≡ length (iter b))
        × ((j : ℕ) → bit (iter b') j ≡ (bit (iter b) j || (leb i j && bit votes (j - i))))
  unfolding write_bits
  write_bits_lem i [] b h = (b, refl, refl, λ j. ground arith)
  write_bits_lem {E} i (true ∷ votes) b h =
      let (b₁, found, bits) = put_ok S L b i true (omega arith) in
      let size₁ = ap length bits ∙ length-set (iter b) i true in
      let (b', ran, size, reads) = write_bits_lem {E = E} (i + 1) votes b₁ (omega (arith, size₁)) in
      (
        b',
        write_first i true votes b b₁ found ∙ ran,
        size ∙ size₁,
        λ j.
            reads j
            ∙ marked_step true votes i j (bit (iter b) j) (bit (iter b₁) j)
                (ap (λ l. bit l j) bits ∙ bit-set (iter b) i j (omega arith)),
      )
  write_bits_lem {E} i (false ∷ votes) b h =
      let (b', ran, size, reads) = write_bits_lem {E = E} (i + 1) votes b (omega arith) in
      (
        b',
        ran,
        size,
        λ j. reads j ∙ marked_step false votes i j (bit (iter b) j) (bit (iter b) j) refl,
      )

  -- Into a list of unset bits of the right length.
  write_all {ℓ} :
      {E : Type ℓ} (votes : List Bool) (b : BitList)
      → iter b ≡ replicate (length votes) false
      → (b' : BitList) × (write_bits S {E = E} 0 votes b ≡ ok b') × (iter b' ≡ votes)
  write_all {E} votes b e =
      let zeros = ap length e ∙ length-replicate (length votes) false in
      let (b', ran, size, reads) = write_bits_lem {E = E} 0 votes b (omega (arith, zeros)) in
      (
        b',
        ran,
        ext_bit (iter b') votes (size ∙ zeros)
            λ j. reads j ∙ ground (arith, ap (λ l. bit l j) e, bit-replicate (length votes) j),
      )

  -- A table with at most as many rows as the limit, each as long as the validator registry, is
  -- written without a panic; the state is otherwise the same, its roots are the sorted keys of
  -- the table, its bit list has a row for each, and the table that the next block loads from it
  -- has the same votes under every root.
  pub serialize_justifications_lem :
      (t : Tally S)
      → Rows (length t.state.validators) t.justifications
      → length (keys t.justifications) ≤ historical_roots_limit
      → length t.state.validators ≤ validator_registry_limit
      → (bits : BitList) × (serialize_justifications S t
          ≡ ok (record (t.state) {
            justifications_roots = sort (keys t.justifications);
            justifications_validators = bits;
          }))
        × (length (iter bits) ≡ length (keys t.justifications) * length t.state.validators)
        × ((root : H256)
            → lookup root (
                load_votes
                  (length t.state.validators)
                  (iter bits)
                  0
                  (sort (keys t.justifications))
                  [])
              ≡ lookup root t.justifications)
  unfolding serialize_justifications lookup
  serialize_justifications_lem t r few small =
      let n = length t.state.validators in
      let votes = t.justifications in
      let roots = sort (keys votes) in
      let many = length-sort (keys votes) in
      let (flat, ran) =
        flat_total roots votes
          (λ root e. key_found root votes (sym (any-sort root (keys votes)) ∙ e)) in
      let size = length-flat_votes n roots votes flat r ran in
      let (empty, got, zeros) =
        with_capacity_ok S L (historical_roots_limit * validator_registry_limit) (length roots * n)
          (room (length roots) n historical_roots_limit validator_registry_limit (omega arith)
            small) in
      let (bits, wrote, final) =
        write_all {E = Error} flat empty (zeros ∙ ap (λ k. replicate k false) (sym size)) in
      let fits : leb (length roots) historical_roots_limit ≡ true = ground arith in
      (
        bits,
        rw (got, ran, wrote, fits),
        ap length final ∙ size ∙ ap (λ k. k * n) many,
        λ root.
            ap (λ b. lookup root (load_votes n b 0 roots [])) final
            ∙ reload root n 0 roots votes [] [] flat r (omega arith) ran
            ∙ ap (λ b. if b then lookup root votes else none) (any-sort root (keys votes))
            ∙ sym (lookup-any root votes),
      )
