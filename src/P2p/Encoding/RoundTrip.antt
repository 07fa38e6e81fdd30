-- ===== src/P2p/Encoding/RoundTrip.antt =====
-- A payload that is written is read back.
use Prim.Native.Nat.{bit_or}
use native.Mathlib.Nat.{mod-eq_of_lt, div-eq_of_lt}
use ethlambda.Base.{
  ℕ, zero, suc, ◌+◌, ◌*◌, ◌/◌, ◌%◌, ◌^◌, ◌<◌, ◌≤◌, ◌≡◌, refl, some, List, ◌++◌, length, arith, ltb,
  ◌==◌, nat_eq, Bool, true, false, ◌&&◌, nat_beq_iff, ok, take_all, length-append, le→leb, ◌⊎◌,
  Bool-cases, inl, inr,
}
use ethlambda.P2p.Encoding.{
  encode_from, encode_varint, or_shifted, decode_from, decode_varint, Snappy, decode_payload,
  write_payload, max_payload_size, max_compressed_payload_size,
}

or_zero_below : ℕ → Bool
or_zero_below zero = true
or_zero_below (suc n) = let rest = or_zero_below n in (bit_or 0 n == n) && rest

or_zero_below_lem : (n i : ℕ) → or_zero_below n ≡ true → i < n → bit_or 0 i ≡ i
unfolding or_zero_below
or_zero_below_lem zero i e h = absurd (omega arith)
or_zero_below_lem (suc n) i e h =
    ground (arith, nat_beq_iff (bit_or 0 n) n, nat_beq_iff n i, or_zero_below_lem n i, e, h)

bit_or-zero : (v : ℕ) → v < 128 → bit_or 0 v ≡ v
unfolding or_zero_below
bit_or-zero v h = or_zero_below_lem 128 v refl h

or_shifted-disjoint :
    (result value shift : ℕ)
    → result < 2 ^ shift
    → value < 128
    → result + value * 2 ^ shift < 2 ^ 32
    → or_shifted result value shift ≡ result + value * 2 ^ shift
unfolding or_shifted
or_shifted-disjoint result value shift h k fits =
    rw (mod-eq_of_lt h, div-eq_of_lt h, bit_or-zero value k) (mod-eq_of_lt fits)

-- One byte: the value `w` is reached where the remaining bytes reach it.
byte_read :
    (i steps result v w shift : ℕ) (rest : List ℕ)
    → (7 * i) % 32 ≡ shift
    → result < 2 ^ shift
    → result + v % 128 * 2 ^ shift < 2 ^ 32
    → (v / 128 ≡ 0 → result + v % 128 * 2 ^ shift ≡ w)
    → (decode_from (i + 1) (result + v % 128 * 2 ^ shift) (encode_from steps (v / 128) ++ rest)
        ≡ some (w, rest))
      ⊎ (v / 128 ≡ 0)
    → decode_from i result (encode_from (suc steps) v ++ rest) ≡ some (w, rest)
unfolding decode_from encode_from
byte_read i steps result v w shift rest at h fits last next =
    let read = or_shifted-disjoint result (v % 128) shift h (omega arith) fits in
    elim (Bool-cases (v / 128 == 0)) [
      | inl stops ↦
          let short : ltb (v % 128) 128 ≡ true = ground arith in
          let low : v % 128 % 128 ≡ v % 128 = omega arith in
          let none_left : v / 128 ≡ 0 = ground (arith, stops) in
          rw (stops, short, low, at, read, last none_left) refl
      | inr goes ↦
          let long : ltb (v % 128 + 128) 128 ≡ false = ground arith in
          let low : (v % 128 + 128) % 128 ≡ v % 128 = omega arith in
          elim next [
            | inl more ↦ rw (goes, long, low, at, read) more
            | inr stops ↦ absurd (ground (arith, goes, stops))
          ]
    ]

read_4 :
    (result v : ℕ) (rest : List ℕ)
    → result < 268435456
    → v < 16
    → decode_from 4 result (encode_from 1 v ++ rest) ≡ some (result + v * 268435456, rest)
read_4 result v rest h k =
    byte_read 4 0 result v _ 28 rest refl h (omega (arith, h, k)) (λ e. omega arith)
      (inr (omega (arith, k)))

read_3 :
    (result v : ℕ) (rest : List ℕ)
    → result < 2097152
    → v < 2048
    → decode_from 3 result (encode_from 2 v ++ rest) ≡ some (result + v * 2097152, rest)
read_3 result v rest h k =
    let next =
      read_4 (result + v % 128 * 2097152) (v / 128) rest (omega (arith, h)) (omega (arith, k)) in
    let whole : result + v % 128 * 2097152 + v / 128 * 268435456 ≡ result + v * 2097152 =
      omega arith in
    byte_read 3 1 result v _ 21 rest refl h (omega (arith, h, k)) (λ e. omega (arith, e))
      (inl (rw whole at next))

read_2 :
    (result v : ℕ) (rest : List ℕ)
    → result < 16384
    → v < 262144
    → decode_from 2 result (encode_from 3 v ++ rest) ≡ some (result + v * 16384, rest)
read_2 result v rest h k =
    let next =
      read_3 (result + v % 128 * 16384) (v / 128) rest (omega (arith, h)) (omega (arith, k)) in
    let whole : result + v % 128 * 16384 + v / 128 * 2097152 ≡ result + v * 16384 = omega arith in
    byte_read 2 2 result v _ 14 rest refl h (omega (arith, h, k)) (λ e. omega (arith, e))
      (inl (rw whole at next))

read_1 :
    (result v : ℕ) (rest : List ℕ)
    → result < 128
    → v < 33554432
    → decode_from 1 result (encode_from 4 v ++ rest) ≡ some (result + v * 128, rest)
read_1 result v rest h k =
    let next =
      read_2 (result + v % 128 * 128) (v / 128) rest (omega (arith, h)) (omega (arith, k)) in
    let whole : result + v % 128 * 128 + v / 128 * 16384 ≡ result + v * 128 = omega arith in
    byte_read 1 3 result v _ 7 rest refl h (omega (arith, h, k)) (λ e. omega (arith, e))
      (inl (rw whole at next))

-- Every 32-bit number is read back from its encoding, and what follows it is left over.
decode_varint-encode :
    (v : ℕ) (rest : List ℕ) → v < 2 ^ 32 → decode_varint (encode_varint v ++ rest) ≡ some (v, rest)
unfolding decode_varint encode_varint
decode_varint-encode v rest k =
    let next = read_1 (v % 128) (v / 128) rest (omega arith) (omega (arith, k)) in
    let whole : v % 128 + v / 128 * 128 ≡ v = omega arith in
    let first : v % 128 ≡ 0 + v % 128 * 2 ^ 0 = omega arith in
    byte_read 0 4 0 v v 0 rest refl (omega arith) (omega (arith, k)) (λ e. omega (arith, e))
      (inl (rw (← first) (rw whole at next)))

encode_from_size :
    (steps v : ℕ)
    → (length (encode_from steps v) ≤ steps) × (1 ≤ length (encode_from (suc steps) v))
unfolding encode_from
encode_from_size zero v = ground arith
encode_from_size (suc steps) v =
    let shorter = encode_from_size steps (v / 128) in
    elim (Bool-cases (v / 128 == 0)) [
      | inl stops ↦ rw (stops) (omega arith, omega arith)
      | inr goes ↦ rw (goes) (omega (arith, shorter.0), omega arith)
    ]

encode_varint_size : (v : ℕ) → (length (encode_varint v) ≤ 5) × (1 ≤ length (encode_varint v))
unfolding encode_varint
encode_varint_size v = ((encode_from_size 5 v).0, (encode_from_size 4 v).1)

nat_eq_refl : (n : ℕ) → (n == n) ≡ true
nat_eq_refl n = ground arith

-- A buffer within the limits whose length prefix is that of what it decompresses to.
decode_payload-sized :
    (snappy : Snappy) (buf rest x : List ℕ)
    → decode_varint buf ≡ some (length x, rest)
    → snappy.decompress rest ≡ some x
    → 2 ≤ length buf
    → length buf ≤ max_compressed_payload_size
    → length x ≤ max_payload_size
    → decode_payload snappy buf ≡ ok x
unfolding decode_payload
decode_payload-sized snappy buf rest x sized back enough short fits =
    rw
      (
        take_all max_compressed_payload_size buf short,
        le→leb 2 (length buf) enough,
        sized,
        le→leb (length x) max_payload_size fits,
        back,
        nat_eq_refl (length x),
      )
      refl

-- Where the library decompresses what it compressed, to at most its documented bound of
-- 32 + n + n / 6 bytes and at least one, a payload of at most 10 MB that is written is read back
-- unchanged: no size check refuses it and the limit on the bytes read does not cut it.
pub decode_payload-write :
    (snappy : Snappy) (x : List ℕ)
    → snappy.decompress (snappy.compress x) ≡ some x
    → 1 ≤ length (snappy.compress x)
    → length (snappy.compress x) ≤ 32 + length x + length x / 6
    → length x ≤ max_payload_size
    → decode_payload snappy (write_payload snappy x) ≡ ok x
unfolding write_payload
decode_payload-write snappy x back some_byte bound fits =
    let wide : length x < 2 ^ 32 = omega (arith, fits) in
    let size' = encode_varint_size (length x) in
    let total = length-append (encode_varint (length x)) (snappy.compress x) in
    rw (mod-eq_of_lt wide) (
      decode_payload-sized snappy _ (snappy.compress x) x
        (decode_varint-encode (length x) (snappy.compress x) wide) back
        (omega (arith, total, size', some_byte)) (omega (arith, total, size', bound, fits)) fits)
