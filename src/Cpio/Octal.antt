-- ===== src/Cpio/Octal.antt =====
-- Octal fields: `octal_to_binary` reads the digits of a number.
use x.Base.{
  ℕ, zero, suc, ◌+◌, ◌-◌, ◌*◌, ◌/◌, ◌%◌, ◌^◌, ◌≤◌, ◌<◌, ◌≡◌, refl, ap, sym, ◌∙◌, List, [], ◌∷◌,
  some, arith, length, ltb, true, false,
}
use native.Mathlib.Nat.{pow-suc, div-div-eq-div-mul, div-le_self, div-eq_of_lt, pow-le-pow_right}
use x.Cpio.{octal_from, octal_to_binary}

-- The last so many octal digits of a number, in ASCII, the first digit first.
unfoldable pub octal : (width n : ℕ) → List ℕ
octal zero n = []
octal (suc width) n = (48 + n / 8 ^ width % 8) ∷ octal width n

pub length-octal : (width n : ℕ) → length (octal width n) ≡ width
unfolding octal
length-octal zero n = refl
length-octal (suc width) n = omega (arith, length-octal width n)

-- What is read before a digit: the number without its last digits.
read_so_far : (width n : ℕ) → n / 8 ^ suc width ≡ n / 8 ^ width / 8
read_so_far width n = ap (λ w. n / w) (pow-suc 8 width) ∙ sym (div-div-eq-div-mul n (8 ^ width) 8)

octal_from-octal :
    (width n number : ℕ)
    → n < 2 ^ 63
    → number ≡ n / 8 ^ width
    → octal_from (octal width n) number ≡ some n
unfolding octal octal_from
octal_from-octal zero n number l e = ap some (omega arith)
octal_from-octal (suc width) n number l e =
    let q = n / 8 ^ width in
    let small : q ≤ n = div-le_self n (8 ^ width) in
    let before : number ≡ q / 8 = e ∙ read_so_far width n in
    let digit : ltb (48 + q % 8) 48 ≡ false = ground arith in
    let sum : number * 8 % 2 ^ 64 + (48 + q % 8 - 48) ≡ q = omega arith in
    let fits : ltb q (2 ^ 64) ≡ true = ground arith in
    rw (digit, sum, fits) (octal_from-octal width n q l refl)

-- A number below `8 ^ width`, for at most 21 digits, is read back from its digits.
pub octal_to_binary-octal :
    (width n : ℕ) → width ≤ 21 → n < 8 ^ width → octal_to_binary (octal width n) ≡ some n
unfolding octal_to_binary
octal_to_binary-octal width n h l =
    let top : 8 ^ width ≤ 8 ^ 21 = pow-le-pow_right (omega arith) h in
    octal_from-octal width n 0 (omega arith) (sym (div-eq_of_lt l))
