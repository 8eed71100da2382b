-- ===== src/Validation/Numbers.antt =====
-- What parseIntRule reads of what itoa writes.
use goichi.Prelude.{
  ℕ, zero, suc, ◌+◌, ◌-◌, ◌*◌, ◌/◌, ◌%◌, ◌^◌, ◌<◌, ◌≡◌, refl, ap, ◌∙◌, true, [], ◌∷◌, ◌==◌, arith,
  inl, inr, Bool-cases,
}
use goichi.Prelude.Text.{Bytes}
use goichi.Prelude.Int.{pos}
use goichi.Middleware.Cors.{itoa, itoa_loop}
use goichi.Validation.{is_digit, parse_from, parse_int_rule}

abbrev pow10 : ℕ → ℕ
pow10 zero = 1
pow10 (suc n) = 10 * pow10 n

parse_from-digit :
    (n : ℕ) (buf : Bytes)
    → n < 2 ^ 64
    → parse_from (n / 10) ((n % 10 + b'0') ∷ buf) ≡ parse_from n buf
unfolding parse_from
parse_from-digit n buf h =
    let digit : is_digit (n % 10 + b'0') ≡ true = ground arith in
    let value : (n / 10 * 10 + (n % 10 + b'0' - b'0')) % 2 ^ 64 ≡ n = omega (arith, h) in
    rw digit (ap (λ k. parse_from k buf) value)

parse_from-itoa_loop :
    (room n : ℕ) (buf : Bytes)
    → n < pow10 room
    → n < 2 ^ 64
    → parse_from 0 (itoa_loop room n buf) ≡ parse_from n buf
unfolding itoa_loop
parse_from-itoa_loop zero n buf h w =
    let z : 0 ≡ n = omega (arith, h) in ap (λ k. parse_from k buf) z
parse_from-itoa_loop (suc room) n buf h w = elim (Bool-cases (n == 0)) [
  | inl at_end ↦ let z : 0 ≡ n = ground (arith, at_end) in rw at_end (ap (λ k. parse_from k buf) z)
  | inr more ↦ rw more (
      parse_from-itoa_loop room (n / 10) ((n % 10 + b'0') ∷ buf) (omega (arith, h))
        (omega (arith, w))
      ∙ parse_from-digit n buf w)
]

-- What itoa writes of a number that an int holds, parseIntRule reads back as that number.
pub parse_int_rule-itoa : (n : ℕ) → n < 2 ^ 63 → parse_int_rule (itoa (pos n)) ≡ n
unfolding parse_int_rule itoa
parse_int_rule-itoa zero h = unfold parse_from in refl
parse_int_rule-itoa (suc n) h =
    parse_from-itoa_loop 20 (suc n) [] (omega (arith, h)) (omega (arith, h))
    ∙ unfold parse_from in refl
