-- ===== src/Codel.antt =====
-- codel.go, the CoDel drop law. The zero time.Time is `none`.
mod Tests
pub mod Interval
use udplex.Prelude.{
  ℕ, ◌+◌, ◌-◌, ◌*◌, ◌%◌, ◌^◌, Bool, true, false, ◌&&◌, Option, none, some, ltb, if◌then◌else◌,
}
use udplex.Prelude.Int.{ℤ, pos, sub_ℕ, ltb_ℤ}
use udplex.Float.{FloatOps, add_time}

pub record Codel : Type 0 where
  pub target : ℕ
  pub interval : ℕ
  pub first_above : Option ℕ
  pub drop_next : Option ℕ
  pub count : ℕ
  pub last_count : ℕ
  pub dropping : Bool

pub new_codel : ℕ → ℕ → Codel
new_codel target interval = record {
  target = target;
  interval = interval;
  first_above = none;
  drop_next = none;
  count = 0;
  last_count = 0;
  dropping = false;
}

-- `now.Before(t)`: the zero time lies before every instant.
abbrev pub before : ℕ → Option ℕ → Bool
before now none = false
before now (some t) = ltb now t

-- `now.Sub(t) < d`: the difference to the zero time is the largest duration.
abbrev pub sub_lt : ℕ → Option ℕ → ℕ → Bool
sub_lt now none d = false
sub_lt now (some t) d = ltb_ℤ (sub_ℕ now t) (pos d)

-- The first block of shouldDrop: the deadline after which a delay is standing, and `okToDrop`.
pub observe : Codel → ℕ → ℤ → Codel × Bool
observe c now sojourn =
    if ltb_ℤ sojourn (pos c.target)
    then (record c { first_above = none }, false)
    else elim c.first_above [
      | none ↦ (record c { first_above = some (now + c.interval) }, false)
      | some t ↦ if ltb now t then (c, false) else (c, true)
    ]

module _ {R : Type 0} (F : FloatOps R) where
  pub control_law : Codel → ℕ → ℕ
  control_law c t =
      add_time t (F.trunc (F.div (F.of_ℤ (pos c.interval)) (F.sqrt (F.of_ℤ (pos c.count)))))

  -- `c.count++; c.dropNext = c.controlLaw(c.dropNext)`: `dropNext` is set while dropping.
  next_drop : Codel → Codel
  unfolding control_law
  next_drop c =
      let d = record c { count = (c.count + 1) % 2 ^ 32 } in
      record d { drop_next = some (control_law d (elim c.drop_next [ none ↦ 0 | some t ↦ t ])) }

  -- The block under `if c.dropping`.
  pub keep_dropping : Codel → ℕ → Bool → Codel × Bool
  unfolding next_drop
  keep_dropping c now ok_to_drop =
      if ok_to_drop
      then (if before now c.drop_next then (c, false) else (next_drop c, true))
      else (record c { dropping = false }, false)

  pub start_dropping : Codel → ℕ → Codel × Bool
  unfolding control_law
  start_dropping c now =
      let delta = (c.count + 2 ^ 32 - c.last_count) % 2 ^ 32 in
      let n = (if ltb 1 delta && sub_lt now c.drop_next (16 * c.interval) then delta else 1) in
      let d = record c { dropping = true; count = n; last_count = n } in
      (record d { drop_next = some (control_law d now) }, true)

  pub should_drop : Codel → ℕ → ℤ → Codel × Bool
  unfolding observe keep_dropping start_dropping
  should_drop c now sojourn =
      let (o, ok_to_drop) = observe c now sojourn in
      if o.dropping
      then keep_dropping o now ok_to_drop
      else if ok_to_drop
      then start_dropping o now
      else (o, false)
