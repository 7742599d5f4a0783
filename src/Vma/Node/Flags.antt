-- ===== src/Vma/Node/Flags.antt =====
-- `NodeFlags`: the flags of a segment, and the lock.
use x.Base.{
  ℕ, ◌+◌, ◌*◌, ◌/◌, ◌%◌, ◌^◌, ◌<◌, ◌≡◌, refl, ap, ◌∙◌, Bool, true, false, ◌==◌, to_bit, arith,
}
use x.Vma.Node.{
  SegmentFlags, readable, flags_writable, executable, locked, set_flag, set_locked, node_flags,
}

-- The flags that a word of `NodeFlags` holds.
pub record ReadsFlags (f : SegmentFlags) (w : ℕ) : Type 0 where
  pub reads_read : readable w ≡ f.read
  pub reads_write : flags_writable w ≡ f.write
  pub reads_execute : executable w ≡ f.execute

abbrev word : Bool → Bool → Bool → ℕ
word r w e = to_bit e * 4 + to_bit w * 2 + to_bit r

to_bit-lt : (b : Bool) → to_bit b < 2
to_bit-lt b = ground arith

node_flags-word : (f : SegmentFlags) → node_flags f ≡ word f.read f.write f.execute
unfolding node_flags set_flag
node_flags-word f = omega (arith, to_bit-lt f.read, to_bit-lt f.write, to_bit-lt f.execute)

bit_is : (b : Bool) → (to_bit b == 1) ≡ b
bit_is true = refl
bit_is false = refl

-- The flags made for a segment are its own, and unlocked.
pub node_flags-ReadsFlags :
    (f : SegmentFlags) → ReadsFlags f (node_flags f) × (locked (node_flags f) ≡ false)
node_flags-ReadsFlags f =
    let r : to_bit f.read < 2 = to_bit-lt f.read in
    let w : to_bit f.write < 2 = to_bit-lt f.write in
    let e : to_bit f.execute < 2 = to_bit-lt f.execute in
    let high : word f.read f.write f.execute / 2 ^ 31 % 2 ≡ 0 = omega arith in
    let unlocked : locked (word f.read f.write f.execute) ≡ false = ap (λ (t : ℕ). t == 1) high in
    rw (node_flags-word f) (
      record {
        reads_read = ap (λ (t : ℕ). t == 1) (omega arith) ∙ bit_is f.read;
        reads_write = ap (λ (t : ℕ). t == 1) (omega arith) ∙ bit_is f.write;
        reads_execute = ap (λ (t : ℕ). t == 1) (omega arith) ∙ bit_is f.execute;
      },
      unlocked,
    )

-- Locking and unlocking change the lock, and no flag of the segment.
pub set_locked-ReadsFlags :
    (f : SegmentFlags) (w : ℕ) (value : Bool)
    → w < 2 ^ 32
    → ReadsFlags f w
    → ReadsFlags f (set_locked value w)
      × (locked (set_locked value w) ≡ value)
      × (set_locked value w < 2 ^ 32)
unfolding set_locked set_flag
set_locked-ReadsFlags f w value h k =
    let v : to_bit value < 2 = to_bit-lt value in
    (
      record {
        reads_read = ap (λ (t : ℕ). t == 1) (omega arith) ∙ k.reads_read;
        reads_write = ap (λ (t : ℕ). t == 1) (omega arith) ∙ k.reads_write;
        reads_execute = ap (λ (t : ℕ). t == 1) (omega arith) ∙ k.reads_execute;
      },
      ap (λ (t : ℕ). t == 1) (omega arith) ∙ bit_is value,
      omega arith,
    )
