-- ===== src/Packet/Payload/Bounds.antt =====
-- How far the extraction loops of include/DataLink/DataLink.hpp read on arbitrary bytes.
use r.Base.{
  ℕ, zero, suc, ◌+◌, ◌-◌, ◌*◌, ◌/◌, ◌%◌, ◌^◌, ◌≤◌, ◌<◌, min, ◌≡◌, refl, sym, ◌∙◌, ap, arith, length,
  Outcome, done, fault,
}
use r.Wire.{Buffer}
use r.Wire.Reads.{interpret_u32-Takes, interpret_u16-Takes}
use r.Packet.{retrieve_32_bits, retrieve_48_bits}
use r.Packet.Payload.{enough_left, too_few_left, stop_32, step_32, stop_48, step_48, fault_48}
use native.Mathlib.Decide.{dec_lt}

module _ {S : Type 0} (size : S → ℕ) where
  -- On any bytes the 32-bit loop stays in its range: it takes as many integers as were asked for
  -- or as the range holds, whichever is less, calls back once for each, and stops behind them.
  pub retrieve_32_bits_bounds :
      (callback : ℕ → S → S)
      → ((v : ℕ) (s : S) → size (callback v s) ≡ size s + 1)
      → (buffer : Buffer) (end n position : ℕ) (s : S) → position ≤ end
      → end ≤ length buffer
      → end < 2 ^ 64
      → let count = min n ((end - position) / 4) in
        (s' : S) × (retrieve_32_bits callback buffer end n position s
          ≡ done (position + 4 * count, s'))
        × (size s' ≡ size s + count)
  retrieve_32_bits_bounds callback grows buffer end zero position s h fits small =
      let e : position + 4 * min 0 ((end - position) / 4) ≡ position = omega arith in
      (s, unfold retrieve_32_bits in (rw e), omega arith)
  retrieve_32_bits_bounds callback grows buffer end (suc n) position s h fits small =
      elim (dec_lt end (position + 4)) [
        | yes few ↦
            let e : position + 4 * min (suc n) ((end - position) / 4) ≡ position = omega arith in
            (
              s,
              rw (
                stop_32 buffer end n position s callback (too_few_left position end h few small),
                e,
              ),
              omega arith,
            )
        | no enough ↦
            let (v, read) = (interpret_u32-Takes buffer).enough position (omega arith) in
            let (s', run, count) =
              retrieve_32_bits_bounds callback grows buffer end n (position + 4) (callback v s)
                (omega arith) fits small in
            let e : position + 4 * min (suc n) ((end - position) / 4)
                ≡ position + 4 + 4 * min n ((end - (position + 4)) / 4) =
              omega arith in
            (
              s',
              rw
                  (
                    step_32 buffer end n position s callback
                        (enough_left 4 position end (omega arith) small (omega arith)) read,
                    e,
                  )
                  run,
              omega (arith, grows v s),
            )
      ]

module _ {S : Type 0} where
  moved : {p q : ℕ} (s : S) → p ≡ q → ◌≡◌ {A = Outcome (ℕ × S)} (done (p, s)) (done (q, s))
  moved s e = ap {B = Outcome (ℕ × S)} (λ t. done (t, s)) e

  -- On any bytes up to the end of the buffer the 48-bit loop takes the points asked for if the range
  -- holds them; if it does not, the loop stops behind the last whole point when less than four bytes
  -- are left over, and reads past the end of the buffer when four or five are.
  pub retrieve_48_bits_cases :
      (callback : ℕ → ℕ → S → S) (buffer : Buffer) (n position : ℕ) (s : S)
      → position ≤ length buffer
      → length buffer < 2 ^ 64
      → let left = length buffer - position in
        let run = retrieve_48_bits callback buffer (length buffer) n position s in
        (n * 6 ≤ left → (s' : S) × (run ≡ done (position + n * 6, s')))
        × (left < n * 6 → left % 6 < 4 → (s' : S) × (run ≡ done (position + left / 6 * 6, s')))
        × (left < n * 6 → 4 ≤ left % 6 → run ≡ fault)
  retrieve_48_bits_cases callback buffer zero position s h small =
      unfold retrieve_48_bits in
      (
        λ a. let e : position + 0 * 6 ≡ position = omega arith in (s, rw e),
        λ a b. absurd (omega arith),
        λ a b. absurd (omega arith),
      )
  retrieve_48_bits_cases callback buffer (suc n) position s h small =
      elim (dec_lt (length buffer) (position + 4)) [
        | yes few ↦
            rw
              (stop_48 buffer (length buffer) n position s callback
                (too_few_left position (length buffer) h few small))
              (
                λ a. absurd (omega arith),
                λ a b.
                    let e : position + (length buffer - position) / 6 * 6 ≡ position =
                      omega arith in
                    (s, rw e),
                λ a b. absurd (omega arith),
              )
        | no four ↦
            let (v, read) = (interpret_u32-Takes buffer).enough position (omega arith) in
            let test = enough_left 4 position (length buffer) (omega arith) small (omega arith) in
            elim (dec_lt (length buffer) (position + 4 + 2)) [
              | yes short ↦
                  rw
                    (fault_48 buffer (length buffer) n position s callback test read
                      ((interpret_u16-Takes buffer).short (position + 4) short))
                    (λ a. absurd (omega arith), λ a b. absurd (omega arith), λ a b. refl)
              | no six ↦
                  let (w, tail) =
                    (interpret_u16-Takes buffer).enough (position + 4) (omega arith) in
                  let (whole, stops, past) =
                    retrieve_48_bits_cases callback buffer n (position + 4 + 2) (callback v w s)
                      (omega arith) small in
                  let all : position + suc n * 6 ≡ position + 4 + 2 + n * 6 = omega arith in
                  rw (step_48 buffer (length buffer) n position s callback test read tail) (
                    λ a. let (s', run) = whole (omega arith) in (s', run ∙ moved s' (sym all)),
                    λ a b.
                        let part : position + (length buffer - position) / 6 * 6
                            ≡ position + 4 + 2 + (length buffer - (position + 4 + 2)) / 6 * 6 =
                          omega arith in
                        let (s', run) = stops (omega arith) (omega arith) in
                        (s', run ∙ moved s' (sym part)),
                    λ a b. past (omega arith) (omega arith),
                  )
            ]
      ]

-- Where a range up to the end of the buffer holds fewer whole points than were asked for and four or
-- five bytes more, the 48-bit loop reads past the end of the buffer.
pub retrieve_48_bits-overread :
    {S : Type 0} (callback : ℕ → ℕ → S → S) (buffer : Buffer) (n position : ℕ) (s : S)
    → position ≤ length buffer
    → length buffer < 2 ^ 64
    → length buffer - position < n * 6
    → 4 ≤ (length buffer - position) % 6
    → retrieve_48_bits callback buffer (length buffer) n position s ≡ fault
retrieve_48_bits-overread callback buffer n position s inside small few over =
    (retrieve_48_bits_cases callback buffer n position s inside small).2 few over
