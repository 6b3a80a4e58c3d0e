-- ===== src/Shaper/Config.antt =====
-- shaper.go: ShaperConfig, shaperSettings and pathRate, and how they are resolved.
use udplex.Prelude.{ℕ, ◌*◌, max, min, Bool, not, ◌||◌, Option, none, some, if◌then◌else◌}
use udplex.Prelude.Int.{ℤ, pos, pos_part, ltb_ℤ}
use udplex.Float.{FloatOps}
use udplex.Autorate.{RateConfig, RateSettings, bytes_per_second, new_rate_settings, ms}

-- The fields for autorate are those of `rate_config`.
pub record ShaperConfig (R : Type 0) : Type 0 where
  pub enabled : Bool
  pub rate : R
  pub overhead : ℤ
  pub priority_size : Option ℤ
  pub priority_share : ℤ
  pub target_delay : R
  pub interval : ℤ
  pub queue_limit : ℤ
  pub rate_config : RateConfig R

pub record ShaperSettings (R : Type 0) : Type 0 where
  pub rate : R
  pub burst : R
  pub overhead : ℕ
  pub priority_size : ℕ
  pub priority_rate : R
  pub priority_burst : R
  pub target : ℕ
  pub interval : ℕ
  pub queue_limit : ℕ
  pub autorate : Option (RateSettings R)

pub record PathRate (R : Type 0) : Type 0 where
  pub rate : R
  pub burst : R
  pub priority_rate : R
  pub priority_burst : R

abbrev pub min_queue_limit : ℕ
min_queue_limit = 256 * 1024

abbrev pub max_queue_limit : ℕ
max_queue_limit = 4 * 1024 * 1024

-- What newShaperSettings returns: no shaper, an error, or settings.
pub data Resolved (R : Type 0) : Type 0 where
  off : Resolved R
  invalid : Resolved R
  on : ShaperSettings R → Resolved R

module _ {R : Type 0} (F : FloatOps R) where
  -- `math.Max(r*0.002, 3000)`
  abbrev pub two_ms : R → R
  two_ms rate = F.fmax (F.mul rate (F.of_decimal 2 3)) (F.of_ℤ (pos 3000))

  abbrev given_size : Option ℤ → ℕ
  given_size none = 1000
  given_size (some n) = pos_part n

  resolve_shaper : ShaperConfig R → ShaperSettings R
  resolve_shaper cfg =
      let zero_f = F.of_ℤ (pos 0) in
      let rate = bytes_per_second F cfg.rate in
      let burst = two_ms rate in
      let share =
        (if not (ltb_ℤ (pos 0) cfg.priority_share) || ltb_ℤ (pos 100) cfg.priority_share
          then pos 50
          else cfg.priority_share) in
      record {
        rate = rate;
        burst = burst;
        overhead = pos_part cfg.overhead;
        priority_size = given_size cfg.priority_size;
        priority_rate = F.div (F.mul rate (F.of_ℤ share)) (F.of_ℤ (pos 100));
        priority_burst =
            F.fmax (F.div (F.mul burst (F.of_ℤ share)) (F.of_ℤ (pos 100))) (F.of_ℤ (pos 3000));
        target =
            (if F.lt zero_f cfg.target_delay
              then pos_part (F.trunc (F.mul cfg.target_delay (F.of_ℤ (pos ms))))
              else 5 * ms);
        interval = (if ltb_ℤ (pos 0) cfg.interval then pos_part cfg.interval * ms else 100 * ms);
        queue_limit =
            (if ltb_ℤ (pos 0) cfg.queue_limit
              then pos_part cfg.queue_limit
              else min (max (pos_part (F.trunc (F.mul rate (F.of_decimal 1 1)))) min_queue_limit)
                  max_queue_limit);
        autorate = new_rate_settings F cfg.rate_config rate;
      }

  -- newShaperSettings; a missing configuration is a nil pointer.
  pub new_shaper_settings : Option (ShaperConfig R) → Resolved R
  unfolding resolve_shaper
  new_shaper_settings none = off
  new_shaper_settings (some cfg) =
      if not cfg.enabled
      then off
      else if F.le cfg.rate (F.of_ℤ (pos 0))
      then invalid
      else on (resolve_shaper cfg)

  unfoldable pub path_rate : ShaperSettings R → R → PathRate R
  path_rate s rate =
      let share = F.div s.priority_rate s.rate in
      let burst = two_ms rate in
      record {
        rate = rate;
        burst = burst;
        priority_rate = F.mul rate share;
        priority_burst = F.fmax (F.mul burst share) (F.of_ℤ (pos 3000));
      }
