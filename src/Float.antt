-- ===== src/Float.antt =====
-- float64 as far as the sources compute with it: an abstract type with its operations. No law is
-- assumed here; a theorem that needs one takes it as a hypothesis. Times are nanoseconds: an
-- instant is a natural number, and a duration an integer.
use udplex.Prelude.{
  ℕ, zero, ◌+◌, ◌-◌, ◌*◌, ◌/◌, ◌^◌, suc, Bool, true, false, not, leb, if◌then◌else◌,
}
use udplex.Prelude.Int.{ℤ, pos, negsuc, sub_ℕ, pos_part, neg_part, ltb_ℤ}

pub record FloatOps (R : Type 0) : Type 0 where
  pub of_ℤ : ℤ → R
  -- `m * 10^-e`, for the decimal constants of the sources
  pub of_decimal : ℕ → ℕ → R
  pub add : R → R → R
  pub sub : R → R → R
  pub mul : R → R → R
  pub div : R → R → R
  pub sqrt : R → R
  pub lt : R → R → Bool
  pub le : R → R → Bool
  -- math.Min and math.Max
  pub fmin : R → R → R
  pub fmax : R → R → R
  -- conversion to an integer type
  pub trunc : R → ℤ

-- `t.Add(d)`
abbrev pub add_time : ℕ → ℤ → ℕ
add_time t (pos d) = t + d
add_time t (negsuc d) = t - suc d

-- The largest root of at most `n` whose square is at most `k`.
abbrev root_below : ℕ → ℕ → ℕ
root_below zero k = 0
root_below (suc n) k = elim (leb (suc n * suc n) k) [ true ↦ suc n | false ↦ root_below n k ]

-- Floats rounded to integers, to run examples with.
abbrev pub int_floats : FloatOps ℤ
int_floats = record {
  of_ℤ = λ x. x;
  of_decimal = λ m e. pos (m / 10 ^ e);
  add = λ a b. sub_ℕ (pos_part a + pos_part b) (neg_part a + neg_part b);
  sub = λ a b. sub_ℕ (pos_part a + neg_part b) (neg_part a + pos_part b);
  mul = λ a b.
      sub_ℕ (pos_part a * pos_part b + neg_part a * neg_part b)
        (pos_part a * neg_part b + neg_part a * pos_part b);
  div = λ a b.
      sub_ℕ (pos_part a / pos_part b + neg_part a / neg_part b)
        (pos_part a / neg_part b + neg_part a / pos_part b);
  sqrt = λ a. pos (root_below (pos_part a) (pos_part a));
  lt = ltb_ℤ;
  le = λ a b. not (ltb_ℤ b a);
  fmin = λ a b. if ltb_ℤ b a then b else a;
  fmax = λ a b. if ltb_ℤ a b then b else a;
  trunc = λ a. a;
}
