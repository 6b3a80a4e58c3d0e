-- ===== src/Autorate.antt =====
-- autorate.go: the controller of a path's rate. Rates are floats, in bytes per second; the zero
-- time.Time is `none`, whose distance from any instant is the largest duration. A method runs under
-- the controller's lock, so it is a function on the state. `power` is math.Pow.
mod Tests
pub mod Probe
pub mod Range
pub mod Bloat
use udplex.Prelude.{
  ℕ, zero, suc, ◌+◌, ◌-◌, ◌*◌, ◌/◌, ◌%◌, ◌^◌, Bool, true, false, not, ◌&&◌, ◌||◌, Option, none,
  some, ltb, leb, if◌then◌else◌, ◌==◌,
}
use udplex.Prelude.Int.{ℤ, pos, pos_part, sub_ℕ, ltb_ℤ}
use udplex.Float.{FloatOps}
use Prim.Native.Nat.{bit_and, bit_or}

-- The fields of ShaperConfig that this file reads.
pub record RateConfig (R : Type 0) : Type 0 where
  pub autorate : Bool
  pub min_rate : R
  pub max_rate : R
  pub bloat_threshold : R
  pub probe_interval : ℤ

-- autorateSettings
pub record RateSettings (R : Type 0) : Type 0 where
  pub base : R
  pub lowest : R
  pub highest : R
  pub threshold : ℤ
  pub interval : ℕ

pub record Autorate (R : Type 0) : Type 0 where
  pub s : RateSettings R
  pub baseline : R
  pub has_baseline : Bool
  pub delayed : ℕ
  pub fresh : ℕ
  pub last_sample : Option ℕ
  pub last_delta : ℤ
  pub last_rtt : ℤ
  pub rate : R
  pub last_tick : ℕ
  pub last_sent : ℕ
  pub last_decrease : Option ℕ
  pub last_increase : Option ℕ
  pub achieved : R

pub record RateSnapshot (R : Type 0) : Type 0 where
  pub rate : R
  pub achieved : R
  pub delta : ℤ
  pub rtt : ℤ

abbrev pub ms : ℕ
ms = 1_000_000

-- The constants of autorate.go that are durations.
abbrev pub default_threshold : ℕ
default_threshold = 15 * ms

abbrev pub default_probe_interval : ℕ
default_probe_interval = 50 * ms

abbrev pub idle_probe_interval : ℕ
idle_probe_interval = 1000 * ms

abbrev pub idle_after : ℕ
idle_after = 2000 * ms

abbrev pub stale_after : ℕ
stale_after = 2000 * ms

abbrev pub decrease_refractory : ℕ
decrease_refractory = 300 * ms

abbrev pub increase_refractory : ℕ
increase_refractory = 3000 * ms

-- `now.Sub(t) >= d`
abbrev pub elapsed : ℕ → Option ℕ → ℕ → Bool
elapsed now none d = true
elapsed now (some t) d = not (ltb_ℤ (sub_ℕ now t) (pos d))

-- The loop of `bloated`, which clears the lowest set bit in each round.
pub count_bits : ℕ → ℕ → ℕ
count_bits zero v = 0
count_bits (suc fuel) v = if v == 0 then 0 else suc (count_bits fuel (bit_and v (v - 1)))

-- A byte has at most eight bits, and `& 0x0f` leaves four of them.
pub bloated_bits : ℕ → Bool
bloated_bits delayed = leb 2 (count_bits 5 (bit_and delayed 15))

-- `a.delayed <<= 1`, on a uint8, and the new flag
pub shift_in : ℕ → Bool → ℕ
shift_in delayed over = let d = delayed * 2 % 2 ^ 8 in if over then bit_or d 1 else d

module _ {R : Type 0} (F : FloatOps R) where
  -- `rate * 1e6 / 8`: Mbit/s in bytes per second
  pub bytes_per_second : R → R
  bytes_per_second m = F.div (F.mul m (F.of_ℤ (pos 1_000_000))) (F.of_ℤ (pos 8))

  -- newAutorateSettings
  pub new_rate_settings : RateConfig R → R → Option (RateSettings R)
  unfolding bytes_per_second
  new_rate_settings cfg base =
      let zero_f = F.of_ℤ (pos 0) in
      if not cfg.autorate
      then none
      else some (record {
        base = base;
        lowest =
            (if F.lt zero_f cfg.min_rate
              then F.fmin (bytes_per_second cfg.min_rate) base
              else F.div base (F.of_ℤ (pos 5)));
        highest =
            (if F.lt zero_f cfg.max_rate
              then F.fmax (bytes_per_second cfg.max_rate) base
              else base);
        threshold =
            (if F.lt zero_f cfg.bloat_threshold
              then F.trunc (F.mul cfg.bloat_threshold (F.of_ℤ (pos ms)))
              else pos default_threshold);
        interval =
            (if ltb_ℤ (pos 0) cfg.probe_interval
              then pos_part cfg.probe_interval * ms
              else default_probe_interval);
      })

  pub new_autorate : RateSettings R → ℕ → Autorate R
  new_autorate s now =
      let zero_f = F.of_ℤ (pos 0) in
      record {
        s = s;
        baseline = zero_f;
        has_baseline = false;
        delayed = 0;
        fresh = 0;
        last_sample = none;
        last_delta = pos 0;
        last_rtt = pos 0;
        rate = s.base;
        last_tick = now;
        last_sent = 0;
        last_decrease = none;
        last_increase = none;
        achieved = zero_f;
      }

  pub add_sample : Autorate R → ℤ → ℤ → ℕ → Autorate R
  unfolding shift_in
  add_sample a owd rtt now =
      let d = F.of_ℤ owd in
      let baseline =
        (if not a.has_baseline || F.lt d a.baseline
          then d
          else F.add a.baseline (F.mul (F.sub d a.baseline) (F.of_decimal 1 3))) in
      let delta = F.trunc (F.sub d baseline) in
      record a {
        baseline = baseline;
        has_baseline = true;
        last_delta = delta;
        last_rtt = rtt;
        delayed = shift_in a.delayed (ltb_ℤ a.s.threshold delta);
        fresh = a.fresh + 1;
        last_sample = some now;
      }

  pub bloated : Autorate R → Bool
  bloated a = bloated_bits a.delayed

  module _ (power : R → R → R) where
    -- The four cases of the `switch` in `tick`.
    pub back_off : Autorate R → ℕ → Autorate R
    back_off a now =
        if elapsed now a.last_decrease decrease_refractory
        then record a {
          rate = F.fmax a.s.lowest (F.mul (F.fmin a.rate a.achieved) (F.of_decimal 9 1));
          last_decrease = some now;
          delayed = 0;
        }
        else a

    pub probe_upwards : Autorate R → ℕ → R → Autorate R
    probe_upwards a now steps =
        if elapsed now a.last_decrease increase_refractory
        then record a {
          rate =
              F.fmin a.s.highest
                (F.mul a.rate (power (F.add (F.of_ℤ (pos 1)) (F.of_decimal 1 2)) steps));
          last_increase = some now;
        }
        else a

    pub drift : Autorate R → R → Autorate R
    drift a steps =
        let f = power (F.sub (F.of_ℤ (pos 1)) (F.of_decimal 1 2)) steps in
        if F.lt a.s.base a.rate
        then record a { rate = F.fmax a.s.base (F.mul a.rate f) }
        else if F.lt a.rate a.s.base
        then record a { rate = F.fmin a.s.base (F.div a.rate f) }
        else a

    -- `a.lastSample.IsZero() || now.Sub(a.lastSample) > autorateStaleAfter`
    pub stale : Autorate R → ℕ → Bool
    stale a now = elim a.last_sample [
      | none ↦ true
      | some t ↦ ltb_ℤ (pos stale_after) (sub_ℕ now t)
    ]

    pub adjust : Autorate R → ℕ → R → Autorate R
    unfolding back_off probe_upwards drift stale
    adjust a now steps =
        if stale a now
        then record a { rate = a.s.base }
        else if ltb 0 a.fresh && bloated a
        then back_off a now
        else if F.le (F.mul a.rate (F.of_decimal 75 2)) a.achieved
        then probe_upwards a now steps
        else drift a steps

    -- `dt.Seconds()`
    abbrev pub seconds : ℤ → R
    seconds d = F.div (F.of_ℤ d) (F.of_ℤ (pos 1_000_000_000))

    -- The counter of the bytes sent is a uint64.
    pub tick : Autorate R → ℕ → ℕ → Autorate R × R
    unfolding adjust
    tick a now sent =
        let dt = sub_ℕ now a.last_tick in
        if not (ltb_ℤ (pos 0) dt)
        then (a, a.rate)
        else let timed = record a {
          achieved = F.div (F.of_ℤ (pos ((sent + 2 ^ 64 - a.last_sent) % 2 ^ 64))) (seconds dt);
          last_tick = now;
          last_sent = sent;
        } in
          let r = record (adjust timed now (F.div (F.of_ℤ dt) (F.of_ℤ (pos a.s.interval)))) {
            fresh = 0;
          } in
          (r, r.rate)

module _ {R : Type 0} where
  pub probe_interval : Autorate R → ℕ → Option ℕ → ℤ
  probe_interval a now last_active =
      if elapsed now last_active idle_after then pos idle_probe_interval else pos a.s.interval

  pub snapshot : Autorate R → RateSnapshot R
  snapshot a = record {
    rate = a.rate;
    achieved = a.achieved;
    delta = a.last_delta;
    rtt = a.last_rtt;
  }
