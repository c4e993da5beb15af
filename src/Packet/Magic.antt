-- ===== src/Packet/Magic.antt =====
-- `retrievePacketMagic` of include/DataLink/DataLink.hpp finds the first magic in its range.
use r.Base.{
  ℕ, zero, suc, ◌+◌, ◌-◌, ◌*◌, ◌^◌, ◌≤◌, ◌<◌, bit_or, ◌≡◌, refl, inl, inr, arith, length, All,
  get_elem?, get_elem?-some, get_elem?-All, Option, none, some, Outcome, done, ◌==◌, ◌∙◌, ap,
  Bool-cases, ==→eq, false,
}
use native.Mathlib.Decide.{dec_le}
use r.Base.Bits.{bit_or_join}
use r.Wire.{Buffer, IsByte}
use r.Packet.{magic_loop, retrieve_packet_magic, packet_magic_start}

-- The magic as it stands on the wire: 0x5c, then 0xa2.
pub record MagicAt (buffer : Buffer) (p : ℕ) : Type 0 where
  pub low_byte : get_elem? buffer p ≡ some 0x5c
  pub high_byte : get_elem? buffer (p + 1) ≡ some 0xa2

-- The outcome of a search over the positions from `begin` up to `last`.
pub data Search (buffer : Buffer) (begin last : ℕ) (result : Outcome (Option ℕ)) : Type 0 where
  found :
      (p : ℕ)
      → result ≡ done (some p)
      → begin ≤ p
      → p < last
      → MagicAt buffer p
      → ((q : ℕ) → begin ≤ q → q < p → ¬ MagicAt buffer q)
      → Search buffer begin last result
  missing :
      result ≡ done none
      → ((q : ℕ) → begin ≤ q → q < last → ¬ MagicAt buffer q)
      → Search buffer begin last result

joined_magic :
    (b0 b1 : ℕ)
    → b0 < 2 ^ 8
    → bit_or b0 (b1 * 2 ^ 8) ≡ packet_magic_start
    → (b0 ≡ 0x5c) × (b1 ≡ 0xa2)
joined_magic b0 b1 h e = omega (arith, bit_or_join 8 b0 b1 h)

not_magic :
    (buffer : Buffer) (p b0 b1 : ℕ)
    → get_elem? buffer p ≡ some b0
    → get_elem? buffer (p + 1) ≡ some b1
    → (bit_or b0 (b1 * 2 ^ 8) == packet_magic_start) ≡ false
    → ¬ MagicAt buffer p
not_magic buffer p b0 b1 e0 e1 miss m =
    let same0 : b0 ≡ 0x5c = ground (arith, m.low_byte) in
    let same1 : b1 ≡ 0xa2 = ground (arith, m.high_byte) in cc (rw (same0, same1) at miss)

-- A position that holds no magic may be put in front of a search.
extend :
    (buffer : Buffer) (begin last : ℕ) (r : Outcome (Option ℕ))
    → ¬ MagicAt buffer begin
    → Search buffer (begin + 1) last r
    → Search buffer begin last r
extend buffer begin last r miss (found p e a b m first) = found p e (omega arith) b m λ q c d.
    elim (dec_le (begin + 1) q) [
      | yes later ↦ first q later d
      | no early ↦ let here : begin ≡ q = omega arith in rw (← here) miss
    ]
extend buffer begin last r miss (missing e none_later) = missing e λ q c d.
    elim (dec_le (begin + 1) q) [
      | yes later ↦ none_later q later d
      | no early ↦ let here : begin ≡ q = omega arith in rw (← here) miss
    ]

magic_loop-Search :
    (n : ℕ) (buffer : Buffer) (begin last : ℕ)
    → All IsByte buffer
    → begin + n ≡ last
    → last < length buffer
    → Search buffer begin last (magic_loop n buffer begin)
unfolding magic_loop
magic_loop-Search zero buffer begin last bytes e h = missing refl (λ q a b. absurd (omega arith))
magic_loop-Search (suc n) buffer begin last bytes e h =
    let (b0, e0) = get_elem?-some buffer begin (omega arith) in
    let (b1, e1) = get_elem?-some buffer (begin + 1) (omega arith) in
    let byte0 : b0 < 2 ^ 8 = get_elem?-All IsByte buffer begin bytes e0 in
    let later = magic_loop-Search n buffer (begin + 1) last bytes (omega arith) h in
    rw (e0, e1)
      (elim (Bool-cases (bit_or b0 (b1 * 2 ^ 8) == packet_magic_start)) [
        | inl hit ↦
            let (same0, same1) = joined_magic b0 b1 byte0 (==→eq _ _ hit) in
            rw hit (
              found begin refl (omega arith) (omega arith)
                (record { low_byte = e0 ∙ ap some same0; high_byte = e1 ∙ ap some same1 })
                (λ q a b. absurd (omega arith)))
        | inr miss ↦
            rw miss (extend buffer begin last _ (not_magic buffer begin b0 b1 e0 e1 miss) later)
      ])

-- On a range of bytes that is not empty and lies in the buffer, the search returns the first
-- position of the magic whose two bytes lie in the range, and nothing exactly if there is none.
pub retrieve_packet_magic-Search :
    (buffer : Buffer) (begin end : ℕ)
    → All IsByte buffer
    → begin < end
    → end ≤ length buffer
    → Search buffer begin (end - 1) (retrieve_packet_magic buffer begin end)
unfolding retrieve_packet_magic
retrieve_packet_magic-Search buffer begin end bytes h fits =
    magic_loop-Search (end - 1 - begin) buffer begin (end - 1) bytes (omega arith) (omega arith)

-- A magic at the front of the range is found at once.
pub retrieve_packet_magic-front :
    (buffer : Buffer) (begin end : ℕ)
    → MagicAt buffer begin
    → begin + 1 < end
    → retrieve_packet_magic buffer begin end ≡ done (some begin)
unfolding retrieve_packet_magic magic_loop
retrieve_packet_magic-front buffer begin end m h =
    let e : end - 1 - begin ≡ suc (end - 2 - begin) = omega arith in rw (e, m.low_byte, m.high_byte)
