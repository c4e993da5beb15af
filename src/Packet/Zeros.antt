-- ===== src/Packet/Zeros.antt =====
-- A range that begins with zero bytes, as the extraction buffer of a new UDPLink does
-- (include/DataLink/UDPLink.hpp), in the search of include/DataLink/DataLink.hpp.
use r.Base.{
  ℕ, zero, suc, ◌+◌, ◌-◌, ◌*◌, ◌%◌, ◌^◌, ◌≤◌, ◌<◌, bit_or, ◌≡◌, refl, sym, ◌∙◌, ap, arith, length,
  length-append, List, ◌++◌, get_elem?, get_elem?-some, drop, drop-length_append, replicate,
  length-replicate, some, ◌==◌, false, ◌>>=◌, ltb-false,
}
use r.Base.Bits.{bit_or_join}
use r.Wire.{Buffer, sizeof_header}
use r.Packet.{
  magic_loop, retrieve_packet_magic, retrieve_packet_header, read_header, packet_magic_start,
}

no_magic_at_zero : (b : ℕ) → (bit_or 0 (b * 2 ^ 8) == packet_magic_start) ≡ false
no_magic_at_zero b = ground (arith, bit_or_join 8 0 b (omega arith))

-- The positions from `begin` on hold so many zero bytes.
abbrev IsZero : Buffer → ℕ → ℕ → Type 0
IsZero buffer begin j = (q : ℕ) → begin ≤ q → q < begin + j → get_elem? buffer q ≡ some 0

magic_loop-zeros :
    (j n : ℕ) (buffer : Buffer) (begin : ℕ)
    → IsZero buffer begin j
    → begin + j < length buffer
    → magic_loop (j + n) buffer begin ≡ magic_loop n buffer (begin + j)
unfolding magic_loop
magic_loop-zeros zero n buffer begin zeros h =
    let e : begin ≡ begin + zero = omega arith in
    let c : zero + n ≡ n = omega arith in
    ap (λ (m : ℕ). magic_loop m buffer begin) c ∙ ap (magic_loop n buffer) e
magic_loop-zeros (suc j) n buffer begin zeros h =
    let e0 = zeros begin (omega arith) (omega arith) in
    let (b1, e1) = get_elem?-some buffer (begin + 1) (omega arith) in
    let count : suc j + n ≡ suc (j + n) = omega arith in
    let at : begin + 1 + j ≡ begin + suc j = omega arith in
    let later =
      magic_loop-zeros j n buffer (begin + 1) (λ q a b. zeros q (omega arith) (omega arith))
        (omega arith) in
    let passed : magic_loop (suc (j + n)) buffer begin ≡ magic_loop n buffer (begin + 1 + j) =
      rw (e0, e1, no_magic_at_zero b1) later in
    ap (λ (m : ℕ). magic_loop m buffer begin) count ∙ passed ∙ ap (magic_loop n buffer) at

get_elem?-replicate :
    (k : ℕ) (ys : List ℕ) (q : ℕ) → q < k → get_elem? (replicate k 0 ++ ys) q ≡ some 0
get_elem?-replicate zero ys q h = absurd (omega arith)
get_elem?-replicate (suc k) ys zero h = refl
get_elem?-replicate (suc k) ys (suc q) h = get_elem?-replicate k ys q (omega arith)

module _ (k : ℕ) (ys : List ℕ) where
  abbrev buffer : Buffer
  buffer = replicate k 0 ++ ys

  pub length-zeros : length buffer ≡ k + length ys
  length-zeros =
      let z : ℕ = 0 in omega (arith, length-append (replicate k z) ys, length-replicate k z)

  pub drop-zeros : drop k buffer ≡ ys
  drop-zeros =
      let z : ℕ = 0 in
      ap (λ (n : ℕ). drop n buffer) (sym (length-replicate k z))
      ∙ drop-length_append (replicate k 0) ys

  -- The search passes over the zero bytes.
  pub retrieve_packet_header-zeros :
      sizeof_header ≤ length ys
      → k + length ys < 2 ^ 32
      → retrieve_packet_header buffer 0 (length buffer)
        ≡ retrieve_packet_header buffer k (length buffer)
  unfolding retrieve_packet_header retrieve_packet_magic
  retrieve_packet_header-zeros enough small =
      let total = length-zeros in
      let count : length buffer - 1 - 0 ≡ k + (length buffer - 1 - k) = omega (arith, total) in
      let at : 0 + k ≡ k = omega arith in
      let skipped =
        ap (λ (m : ℕ). magic_loop m buffer 0) count
        ∙ magic_loop-zeros k (length buffer - 1 - k) buffer 0
            (λ q a b. get_elem?-replicate k ys q (omega arith)) (omega (arith, total))
        ∙ ap (magic_loop (length buffer - 1 - k) buffer) at in
      rw
        (
          ltb-false ((length buffer - 0) % 2 ^ 32) sizeof_header (omega (arith, total)),
          ltb-false ((length buffer - k) % 2 ^ 32) sizeof_header (omega (arith, total)),
        )
        (ap (λ m. m >>= read_header buffer) skipped)
