-- ===== src/Autorate/Bloat.antt =====
-- autorate.go: the flags of the last four samples.
use udplex.Prelude.{
  ℕ, zero, suc, ◌+◌, ◌*◌, ◌%◌, ◌^◌, ◌≡◌, refl, ap, ◌∙◌, Bool, true, false, arith, List, [], ◌∷◌,
  take, leb, if◌then◌else◌,
}
use udplex.Prelude.Int.{ℤ, ltb_ℤ}
use udplex.Float.{FloatOps}
use udplex.Autorate.{Autorate, add_sample, shift_in, bloated, bloated_bits, count_bits}
use udplex.Prelude.Bits.{bit_or_one, bit_and_fifteen}
use Prim.Native.Nat.{bit_and}

-- The flags of a history, newest first.
abbrev flags : ℕ → List Bool → ℕ
flags d [] = d
flags d (b ∷ bs) = shift_in (flags d bs) b

abbrev pub count_true : List Bool → ℕ
count_true [] = 0
count_true (b ∷ bs) = (if b then 1 else 0) + count_true bs

-- The number that the four newest flags are in binary.
abbrev value : ℕ → List Bool → ℕ
value zero bs = 0
value (suc n) [] = 0
value (suc n) (b ∷ bs) = (if b then 1 else 0) + 2 * value n bs

shift_in_low : (d : ℕ) (b : Bool) → shift_in d b % 16 ≡ (if b then 1 else 0) + 2 * (d % 8)
unfolding shift_in
shift_in_low d true = omega (arith, bit_or_one (d * 2 % 2 ^ 8))
shift_in_low d false = omega arith

flags_low : (bs : List Bool) → flags 0 bs % 16 ≡ value 4 bs
flags_low [] = refl
flags_low (b ∷ bs) = ground (arith, shift_in_low (flags 0 bs) b, flags_low bs, value_low bs)
  where
    value_low : (cs : List Bool) → value 4 cs % 8 ≡ value 3 cs
    value_low [] = refl
    value_low (x ∷ []) = ground arith
    value_low (x ∷ y ∷ []) = ground arith
    value_low (x ∷ y ∷ z ∷ []) = ground arith
    value_low (x ∷ y ∷ z ∷ w ∷ cs) = ground arith

-- The loop counts the set bits.
four_flags :
    (x y z w : Bool)
    → leb 2 (count_bits 5 (value 4 (x ∷ y ∷ z ∷ w ∷ []))) ≡ leb 2 (count_true (x ∷ y ∷ z ∷ w ∷ []))
unfolding count_bits
four_flags true true true true = refl
four_flags true true true false = refl
four_flags true true false true = refl
four_flags true true false false = refl
four_flags true false true true = refl
four_flags true false true false = refl
four_flags true false false true = refl
four_flags true false false false = refl
four_flags false true true true = refl
four_flags false true true false = refl
four_flags false true false true = refl
four_flags false true false false = refl
four_flags false false true true = refl
four_flags false false true false = refl
four_flags false false false true = refl
four_flags false false false false = refl

count_bits-value :
    (bs : List Bool) → leb 2 (count_bits 5 (value 4 bs)) ≡ leb 2 (count_true (take 4 bs))
count_bits-value [] = four_flags false false false false
count_bits-value (x ∷ []) = four_flags x false false false
count_bits-value (x ∷ y ∷ []) = four_flags x y false false
count_bits-value (x ∷ y ∷ z ∷ []) = four_flags x y z false
count_bits-value (x ∷ y ∷ z ∷ w ∷ bs) = four_flags x y z w

module _ {R : Type 0} (F : FloatOps R) where
  -- The controller after a history of samples (delay, round trip, time), newest first, and for each of
  -- them whether its delay rose above the threshold.
  abbrev pub sampled : Autorate R → List (ℤ × ℤ × ℕ) → Autorate R
  sampled a [] = a
  sampled a (x ∷ xs) = add_sample F (sampled a xs) x.0 x.1 x.2

  abbrev pub over_threshold : Autorate R → List (ℤ × ℤ × ℕ) → List Bool
  over_threshold a [] = []
  over_threshold a (x ∷ xs) =
      ltb_ℤ a.s.threshold (sampled a (x ∷ xs)).last_delta ∷ over_threshold a xs

  sampled-flags :
      (a : Autorate R) (xs : List (ℤ × ℤ × ℕ))
      → ((sampled a xs).s ≡ a.s) × ((sampled a xs).delayed ≡ flags a.delayed (over_threshold a xs))
  unfolding add_sample
  sampled-flags a [] = (refl, refl)
  sampled-flags a (x ∷ xs) = let h = sampled-flags a xs in (h.0, rw (h.0, h.1) refl)

  -- From a controller without flags, the bit trick of `bloated` after any history of samples tells
  -- whether at least two of the last four samples were above the threshold.
  pub bloated-count :
      (a : Autorate R) (xs : List (ℤ × ℤ × ℕ))
      → a.delayed ≡ 0
      → bloated F (sampled a xs) ≡ leb 2 (count_true (take 4 (over_threshold a xs)))
  unfolding bloated bloated_bits
  bloated-count a xs e =
      let bs = over_threshold a xs in
      let low : bit_and (sampled a xs).delayed 15 ≡ value 4 bs =
        bit_and_fifteen (sampled a xs).delayed
        ∙ ap (λ (d : ℕ). d % 16) ((sampled-flags a xs).1 ∙ ap (λ (d : ℕ). flags d bs) e)
        ∙ flags_low bs in
      rw low (count_bits-value bs)
