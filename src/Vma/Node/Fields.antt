-- ===== src/Vma/Node/Fields.antt =====
-- What the packed fields of a branch read after it is built or changed.
use x.Base.{
  ℕ, ◌+◌, ◌*◌, ◌/◌, ◌%◌, ◌^◌, ◌<◌, ◌≡◌, bit_and, bit_or, Bool, not, ◌==◌, if◌then◌else◌, to_bit,
  Option, arith,
}
use x.Base.Bits.{bit_and_field, bit_and_mask, bit_or_high_low, bit_or_low_high}
use x.Paging.{not_u64}
use x.Vma.Node.{
  NodeColor, red, black, BranchNode, color_bit, new_branch_node, pivot, branch_color, is_temp_null,
  with_pivot, with_color,
}

-- The word that holds a pivot, a multiple of four, with the temporary mark and the color.
abbrev packed : (p : ℕ) → Bool → NodeColor → ℕ
packed p t c = p / 4 * 4 + to_bit t * 2 + color_bit c

-- The three fields of a branch, in a word of 64 bits.
pub record Packs (b : BranchNode) (p : ℕ) (t : Bool) (c : NodeColor) : Type 0 where
  pub fits : b.packed_fields < 2 ^ 64
  pub pivot_is : pivot b ≡ p / 4 * 4
  pub temp_is : is_temp_null b ≡ t
  pub color_is : branch_color b ≡ c

to_bit-lt : (b : Bool) → to_bit b < 2
to_bit-lt b = ground arith

color_bit-lt : (c : NodeColor) → color_bit c < 2
color_bit-lt c = ground arith

mark-to_bit : (t : Bool) → not (to_bit t * 2 == 0) ≡ t
mark-to_bit t = ground arith

color-color_bit : (c : NodeColor) → (if color_bit c == 0 then red else black) ≡ c
color-color_bit c = ground arith

packed-Packs :
    (b : BranchNode) (p : ℕ) (t : Bool) (c : NodeColor)
    → p < 2 ^ 64
    → b.packed_fields ≡ packed p t c
    → Packs b p t c
unfolding pivot is_temp_null branch_color
packed-Packs b p t c h e = record {
  fits = omega (arith, e, to_bit-lt t, color_bit-lt c);
  pivot_is = omega (arith, e, bit_and_field 2 62 b.packed_fields, to_bit-lt t, color_bit-lt c);
  temp_is =
      let bit : bit_and b.packed_fields 2 ≡ to_bit t * 2 =
        omega (arith, e, bit_and_field 1 1 b.packed_fields, to_bit-lt t, color_bit-lt c) in
      rw bit (mark-to_bit t);
  color_is =
      let bit : bit_and b.packed_fields 1 ≡ color_bit c =
        omega (arith, e, bit_and_mask 1 b.packed_fields, to_bit-lt t, color_bit-lt c) in
      rw bit (color-color_bit c);
}

-- A word is packed from what it reads.
Packs-packed :
    {b : BranchNode} {p : ℕ} {t : Bool} {c : NodeColor}
    → Packs b p t c
    → b.packed_fields ≡ packed p t c
unfolding pivot is_temp_null branch_color
Packs-packed {b} {p} {t} {c} k =
    let w : ℕ = b.packed_fields in
    let temp : to_bit t ≡ w / 2 % 2 = ground (arith, bit_and_field 1 1 w, k.temp_is) in
    let low : color_bit c ≡ w % 2 = ground (arith, bit_and_mask 1 w, k.color_is) in
    omega (arith, temp, low, k.pivot_is, k.fits, bit_and_field 2 62 w)

-- The fields put together by `|`.
join_fields :
    (p : ℕ) (t : Bool) (c : NodeColor)
    → bit_or (bit_or (p / 4 * 4) (to_bit t * 2)) (color_bit c) ≡ packed p t c
join_fields p t c =
    let mark : bit_or (p / 4 * 4) (to_bit t * 2) ≡ (p / 4 * 2 + to_bit t) * 2 ^ 1 =
      omega (arith, bit_or_high_low 2 (p / 4) (to_bit t * 2) (omega (arith, to_bit-lt t))) in
    rw mark (
      omega (
        arith,
        bit_or_high_low 1 (p / 4 * 2 + to_bit t) (color_bit c) (omega (arith, color_bit-lt c)),
      ))

high_part : (p : ℕ) → p < 2 ^ 64 → bit_and p (not_u64 3) ≡ p / 4 * 4
high_part p h = omega (arith, bit_and_field 2 62 p)

-- A new branch reads the pivot that it is made with, down to a multiple of four, its mark and its
-- color.
pub new_branch_node-Packs :
    (p : ℕ) (t : Bool) (c : NodeColor) (parent : Option ℕ) (left right : ℕ)
    → p < 2 ^ 64
    → Packs (new_branch_node p t c parent left right) p t c
unfolding new_branch_node
new_branch_node-Packs p t c parent left right h =
    packed-Packs (new_branch_node p t c parent left right) p t c h
      (rw (high_part p h) (join_fields p t c))

module _ {b : BranchNode} {p : ℕ} {t : Bool} {c : NodeColor} (k : Packs b p t c) where
  -- A new color leaves the pivot and the mark.
  pub with_color-Packs : p < 2 ^ 64 → (d : NodeColor) → Packs (with_color d b) p t d
  unfolding with_color
  with_color-Packs h d = packed-Packs (with_color d b) p t d h (
      let rest : bit_and b.packed_fields (not_u64 1) ≡ (p / 4 * 2 + to_bit t) * 2 ^ 1 = omega (
        arith,
        bit_and_field 1 63 b.packed_fields,
        Packs-packed k,
        to_bit-lt t,
        color_bit-lt c,
        k.fits,
      ) in
      rw rest (
        omega (
          arith,
          bit_or_high_low 1 (p / 4 * 2 + to_bit t) (color_bit d) (omega (arith, color_bit-lt d)),
        )))

  -- A new pivot leaves the mark and the color.
  pub with_pivot-Packs : (q : ℕ) → q < 2 ^ 64 → Packs (with_pivot q b) q t c
  unfolding with_pivot
  with_pivot-Packs q h = packed-Packs (with_pivot q b) q t c h (
      let low : bit_and b.packed_fields 3 ≡ to_bit t * 2 + color_bit c =
        omega
          (arith, bit_and_mask 2 b.packed_fields, Packs-packed k, to_bit-lt t, color_bit-lt c) in
      rw (low, high_part q h)
        (omega (
          arith,
          bit_or_low_high 2 (q / 4) (to_bit t * 2 + color_bit c)
              (omega (arith, to_bit-lt t, color_bit-lt c)),
        )))
