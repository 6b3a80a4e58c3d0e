-- ===== src/Autorate/Range.antt =====
-- autorate.go: the range of the rate through tick.
use udplex.Prelude.{
  ℕ, ◌+◌, ◌-◌, ◌%◌, ◌^◌, ◌≡◌, refl, inl, inr, true, false, ◌&&◌, Bool-cases, arith, ltb,
}
use udplex.Prelude.Int.{pos, sub_ℕ, ltb_ℤ}
use udplex.Float.{FloatOps}
use udplex.Autorate.{
  Autorate, RateSettings, tick, adjust, back_off, probe_upwards, drift, stale, bloated, elapsed,
  decrease_refractory, increase_refractory,
}

-- What is used of float64 and of math.Min, Max and Pow: bounds pass through Min and Max; a factor
-- of 0.9 or a power of 0.99 does not lift above a bound that is not negative, and a power of 1.01, or
-- dividing by one of 0.99, does not push below one.
pub record RateLaws {R : Type 0} (F : FloatOps R) (power : R → R → R) : Type 0 where
  pub min_le_left : (x y h : R) → F.lt h x ≡ false → F.lt h (F.fmin x y) ≡ false
  pub le_min : (x y l : R) → F.lt x l ≡ false → F.lt y l ≡ false → F.lt (F.fmin x y) l ≡ false
  pub le_max_left : (x y l : R) → F.lt x l ≡ false → F.lt (F.fmax x y) l ≡ false
  pub max_le : (x y h : R) → F.lt h x ≡ false → F.lt h y ≡ false → F.lt h (F.fmax x y) ≡ false
  pub lt_refl : (x : R) → F.lt x x ≡ false
  pub steps_pos :
      (d i : ℕ) → F.lt (F.div (F.of_ℤ (pos d)) (F.of_ℤ (pos i))) (F.of_ℤ (pos 0)) ≡ false
  pub decrease :
      (x h : R)
      → F.lt h (F.of_ℤ (pos 0)) ≡ false
      → F.lt h x ≡ false
      → F.lt h (F.mul x (F.of_decimal 9 1)) ≡ false
  pub grows :
      (x l n : R)
      → F.lt n (F.of_ℤ (pos 0)) ≡ false
      → F.lt l (F.of_ℤ (pos 0)) ≡ false
      → F.lt x l ≡ false
      → F.lt (F.mul x (power (F.add (F.of_ℤ (pos 1)) (F.of_decimal 1 2)) n)) l ≡ false
  pub decays :
      (x h n : R)
      → F.lt n (F.of_ℤ (pos 0)) ≡ false
      → F.lt h (F.of_ℤ (pos 0)) ≡ false
      → F.lt h x ≡ false
      → F.lt h (F.mul x (power (F.sub (F.of_ℤ (pos 1)) (F.of_decimal 1 2)) n)) ≡ false
  pub recovers :
      (x l n : R)
      → F.lt n (F.of_ℤ (pos 0)) ≡ false
      → F.lt l (F.of_ℤ (pos 0)) ≡ false
      → F.lt x l ≡ false
      → F.lt (F.div x (power (F.sub (F.of_ℤ (pos 1)) (F.of_decimal 1 2)) n)) l ≡ false

-- The limits of the settings are in order and not negative.
pub record IsOrdered {R : Type 0} (F : FloatOps R) (s : RateSettings R) : Type 0 where
  pub low : F.lt s.lowest (F.of_ℤ (pos 0)) ≡ false
  pub high : F.lt s.highest (F.of_ℤ (pos 0)) ≡ false
  pub base_low : F.lt s.base s.lowest ≡ false
  pub base_high : F.lt s.highest s.base ≡ false
  pub low_high : F.lt s.highest s.lowest ≡ false

module _ {R : Type 0} (F : FloatOps R) (power : R → R → R) where
  -- The rate lies within the limits.
  abbrev pub InRange : Autorate R → Type 0
  InRange a = (F.lt a.rate a.s.lowest ≡ false) × (F.lt a.s.highest a.rate ≡ false)

  abbrev Stays : Autorate R → Autorate R → Type 0
  Stays a b = (b.s ≡ a.s) × (F.lt b.rate b.s.lowest ≡ false) × (F.lt b.s.highest b.rate ≡ false)

module _ {R : Type 0} (F : FloatOps R) (power : R → R → R) (laws : RateLaws F power)
    (a : Autorate R) (o : IsOrdered F a.s) where
  back_off-Stays : (now : ℕ) → InRange F power a → Stays F power a (back_off F power a now)
  unfolding back_off
  back_off-Stays now h = elim (Bool-cases (elapsed now a.last_decrease decrease_refractory)) [
    | inl e ↦ rw e (
      refl,
      laws.le_max_left a.s.lowest _ a.s.lowest (laws.lt_refl a.s.lowest),
      laws.max_le a.s.lowest _ a.s.highest o.low_high (
          laws.decrease (F.fmin a.rate a.achieved) a.s.highest o.high
            (laws.min_le_left a.rate a.achieved a.s.highest h.1)),
    )
    | inr e ↦ rw e (refl, h.0, h.1)
  ]

  probe_upwards-Stays :
      (now : ℕ) (n : R)
      → F.lt n (F.of_ℤ (pos 0)) ≡ false
      → InRange F power a
      → Stays F power a (probe_upwards F power a now n)
  unfolding probe_upwards
  probe_upwards-Stays now n k h =
      elim (Bool-cases (elapsed now a.last_decrease increase_refractory)) [
        | inl e ↦ rw e (
          refl,
          laws.le_min a.s.highest _ a.s.lowest o.low_high
              (laws.grows a.rate a.s.lowest n k o.low h.0),
          laws.min_le_left a.s.highest _ a.s.highest (laws.lt_refl a.s.highest),
        )
        | inr e ↦ rw e (refl, h.0, h.1)
      ]

  drift-Stays :
      (n : R)
      → F.lt n (F.of_ℤ (pos 0)) ≡ false
      → InRange F power a
      → Stays F power a (drift F power a n)
  unfolding drift
  drift-Stays n k h = elim (Bool-cases (F.lt a.s.base a.rate)) [
    | inl above ↦ rw above (
      refl,
      laws.le_max_left a.s.base _ a.s.lowest o.base_low,
      laws.max_le a.s.base _ a.s.highest o.base_high
          (laws.decays a.rate a.s.highest n k o.high h.1),
    )
    | inr e ↦ elim (Bool-cases (F.lt a.rate a.s.base)) [
      | inl below ↦
          rw (e, below)
            (
              refl,
              laws.le_min a.s.base _ a.s.lowest o.base_low
                  (laws.recovers a.rate a.s.lowest n k o.low h.0),
              laws.min_le_left a.s.base _ a.s.highest o.base_high,
            )
      | inr e' ↦ rw (e, e') (refl, h.0, h.1)
    ]
  ]

  pub adjust-Stays :
      (now : ℕ) (n : R)
      → F.lt n (F.of_ℤ (pos 0)) ≡ false
      → InRange F power a
      → Stays F power a (adjust F power a now n)
  unfolding adjust
  adjust-Stays now n k h = elim (Bool-cases (stale F power a now)) [
    | inl e ↦ rw e (refl, o.base_low, o.base_high)
    | inr e ↦ elim (Bool-cases (ltb 0 a.fresh && bloated F a)) [
      | inl b ↦ rw (e, b) (back_off-Stays now h)
      | inr b ↦ elim (Bool-cases (F.le (F.mul a.rate (F.of_decimal 75 2)) a.achieved)) [
        | inl busy ↦ rw (e, b, busy) (probe_upwards-Stays now n k h)
        | inr busy ↦ rw (e, b, busy) (drift-Stays n k h)
      ]
    ]
  ]

module _ {R : Type 0} (F : FloatOps R) (power : R → R → R) (laws : RateLaws F power) where
  sub_ℕ-pos : (a b : ℕ) → ltb_ℤ (pos 0) (sub_ℕ a b) ≡ true → sub_ℕ a b ≡ pos (a - b)
  sub_ℕ-pos a b h = ground (arith, h)

  -- Given the laws of the floating-point operations, `tick` keeps the rate between the smallest and the
  -- largest allowed one, whatever time has passed and whatever the path has sent, and the rate that it
  -- returns is the one it keeps.
  pub tick-InRange :
      (a : Autorate R) (now sent : ℕ)
      → IsOrdered F a.s
      → InRange F power a
      → (F.lt (tick F power a now sent).0.rate (tick F power a now sent).0.s.lowest ≡ false)
        × (F.lt (tick F power a now sent).0.s.highest (tick F power a now sent).0.rate ≡ false)
        × ((tick F power a now sent).1 ≡ (tick F power a now sent).0.rate)
  unfolding tick
  tick-InRange a now sent o h = elim (Bool-cases (ltb_ℤ (pos 0) (sub_ℕ now a.last_tick))) [
    | inr e ↦ simp e (h.0, h.1, refl)
    | inl e ↦
        let timed = record a {
          achieved =
              F.div (F.of_ℤ (pos ((sent + 2 ^ 64 - a.last_sent) % 2 ^ 64)))
                (F.div (F.of_ℤ (sub_ℕ now a.last_tick)) (F.of_ℤ (pos 1_000_000_000)));
          last_tick = now;
          last_sent = sent;
        } in
        let n = F.div (F.of_ℤ (sub_ℕ now a.last_tick)) (F.of_ℤ (pos a.s.interval)) in
        let k : F.lt n (F.of_ℤ (pos 0)) ≡ false =
          rw (sub_ℕ-pos now a.last_tick e) (laws.steps_pos (now - a.last_tick) a.s.interval) in
        let w = adjust-Stays F power laws timed o now n k h in simp e (w.1, w.2, refl)
  ]
