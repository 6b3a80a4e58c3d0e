-- ===== src/TunnelQueue/Config.antt =====
-- tcp_tunnel_queue.go: TcpQueueConfig, tcpQueueSettings and how the one is resolved to the other.
use udplex.Prelude.{
  ℕ, ◌*◌, max, min, Bool, true, false, not, ◌&&◌, ◌||◌, Option, none, some, ltb, ◌==◌,
  if◌then◌else◌,
}
use udplex.Prelude.Int.{ℤ, pos, pos_part, ltb_ℤ}
use udplex.Float.{FloatOps}

-- A field that the configuration may leave out is an option.
pub record QueueConfig (R : Type 0) : Type 0 where
  pub enabled : Option Bool
  pub priority_size : Option ℤ
  pub priority_share : ℤ
  pub target_delay : R
  pub interval : ℤ
  pub queue_limit : ℤ
  pub notsent_lowat : Option ℤ
  pub priority_conn : Bool

-- The congestion control name is only handed to the socket and is left out.
pub record Settings (R : Type 0) : Type 0 where
  pub priority_size : ℕ
  pub share : R
  pub target : ℕ
  pub interval : ℕ
  pub codel : Bool
  pub limit : ℕ
  pub notsent_lowat : ℕ
  pub auto_lowat : Bool
  pub priority_conn : Bool
  pub pacing_rate : ℕ

abbrev pub millisecond : ℕ
millisecond = 1_000_000

module _ {R : Type 0} (F : FloatOps R) where
  zero_config : QueueConfig R
  zero_config = record {
    enabled = none;
    priority_size = none;
    priority_share = pos 0;
    target_delay = F.of_ℤ (pos 0);
    interval = pos 0;
    queue_limit = pos 0;
    notsent_lowat = none;
    priority_conn = false;
  }

  -- A disabled queue is a plain queue of the size of the packet channel that it replaces.
  disabled : ℤ → ℤ → Settings R
  disabled queue_size buffer_size = record {
    priority_size = 0;
    share = F.of_ℤ (pos 0);
    target = 0;
    interval = 0;
    codel = false;
    limit = max (pos_part queue_size) 16 * max (pos_part buffer_size) 1500;
    notsent_lowat = 0;
    auto_lowat = false;
    priority_conn = false;
    pacing_rate = 0;
  }

  -- `*cfg.F` clamped at 0 where it is given
  abbrev given : Option ℤ → ℕ → ℕ
  given none d = d
  given (some n) d = pos_part n

  abbrev is_given : Option ℤ → Bool
  is_given none = false
  is_given (some n) = true

  resolve : QueueConfig R → Settings R
  resolve cfg =
      let zero_f = F.of_ℤ (pos 0) in
      record {
        priority_size = given cfg.priority_size 1000;
        share =
            (if ltb_ℤ (pos 0) cfg.priority_share && not (ltb_ℤ (pos 100) cfg.priority_share)
              then F.div (F.of_ℤ cfg.priority_share) (F.of_ℤ (pos 100))
              else F.div (F.of_ℤ (pos 50)) (F.of_ℤ (pos 100)));
        target =
            (if F.lt zero_f cfg.target_delay
              then pos_part (F.trunc (F.mul cfg.target_delay (F.of_ℤ (pos millisecond))))
              else 5 * millisecond);
        interval =
            (if ltb_ℤ (pos 0) cfg.interval
              then pos_part cfg.interval * millisecond
              else 100 * millisecond);
        codel = true;
        limit =
            (if ltb_ℤ (pos 0) cfg.queue_limit then pos_part cfg.queue_limit else 2 * 1024 * 1024);
        notsent_lowat = given cfg.notsent_lowat (128 * 1024);
        auto_lowat = not (is_given cfg.notsent_lowat);
        priority_conn = cfg.priority_conn;
        pacing_rate = 0;
      }

  abbrev or_zero_config : Option (QueueConfig R) → QueueConfig R
  or_zero_config none = zero_config
  or_zero_config (some c) = c

  abbrev is_disabled : Option Bool → Bool
  is_disabled none = false
  is_disabled (some b) = not b

  -- newTcpQueueSettings
  pub new_queue_settings : Option (QueueConfig R) → ℤ → ℤ → Settings R
  unfolding zero_config disabled resolve
  new_queue_settings given_cfg queue_size buffer_size =
      let cfg = or_zero_config given_cfg in
      if is_disabled cfg.enabled then disabled queue_size buffer_size else resolve cfg

  -- tunedLowat: 0 leaves the socket as it is. The rate is that of the kernel's delivery estimate.
  pub tuned_lowat : Settings R → ℕ → ℕ → ℕ
  tuned_lowat s rate current =
      let capped =
        (if ltb 0 s.pacing_rate && ltb s.pacing_rate rate then s.pacing_rate else rate) in
      let wanted = F.trunc (F.mul (F.of_ℤ (pos capped)) (F.of_decimal 5 3)) in
      let want = min (max (pos_part wanted) (16 * 1024)) (512 * 1024) in
      if not s.auto_lowat || rate == 0
      then 0
      else if ltb 0 current && ltb (current * 3) (want * 4) && ltb (want * 4) (current * 5)
      then 0
      else want
