-- ===== src/Codel/Interval.antt =====
-- codel.go: shouldDrop against the calls that were made before, as CoDel describes them.
use udplex.Prelude.{ℕ, ◌+◌, ◌≤◌, ◌≡◌, refl, ◌⊎◌, ◌↔◌, true, false, none, some, List, [], ◌∷◌, arith}
use udplex.Prelude.Int.{ℤ, pos, ltb_ℤ}
use udplex.Float.{FloatOps}
use udplex.Codel.{Codel, new_codel, should_drop}

-- The calls made so far, newest first: the time and how long the packet had waited.
abbrev pub History : Type 0
History = List (ℕ × ℤ)

-- The newest calls back to one at an interval before `d` all saw a delay of the target or longer.
abbrev pub StandingUntil : ℕ → ℕ → ℕ → History → Type 0
StandingUntil target interval d [] = ⊥
StandingUntil target interval d ((t, s) ∷ h) =
    (ltb_ℤ s (pos target) ≡ false) × ((d ≡ t + interval) ⊎ StandingUntil target interval d h)

abbrev pub Tracks : Codel → History → Type 0
Tracks c h = (d : ℕ) → c.first_above ≡ some d → StandingUntil c.target c.interval d h

module _ {R : Type 0} (F : FloatOps R) where
  pub settings-should_drop :
      (c : Codel) (now : ℕ) (s : ℤ)
      → let d = (should_drop F c now s).0 in (d.target ≡ c.target) × (d.interval ≡ c.interval)
  unfolding should_drop
  settings-should_drop c now s = ground arith

  -- A drop is decided only past a deadline that was set before, and the deadline stays.
  should_drop_late :
      (c : Codel) (now : ℕ) (s : ℤ)
      → (should_drop F c now s).1 ≡ true
      → (ltb_ℤ s (pos c.target) ≡ false)
        × ((d : ℕ) × (c.first_above ≡ some d)
            × (d ≤ now)
            × ((should_drop F c now s).0.first_above ≡ some d))
  unfolding should_drop
  should_drop_late c now s h = ground arith

  -- The deadline after a call: none below the target, else the old one or a new one.
  first_above-should_drop :
      (c : Codel) (now : ℕ) (s : ℤ)
      → let d = (should_drop F c now s).0 in
        ((d.first_above ≡ none))
        ⊎ ((ltb_ℤ s (pos c.target) ≡ false)
            × ((d.first_above ≡ c.first_above) ⊎ (d.first_above ≡ some (now + c.interval))))
  unfolding should_drop
  first_above-should_drop c now s = ground arith

  -- The state after the calls of a history.
  unfoldable pub after : Codel → History → Codel
  after c [] = c
  after c ((t, s) ∷ h) = (should_drop F (after c h) t s).0

  settings-after :
      (c : Codel) (h : History)
      → ((after c h).target ≡ c.target) × ((after c h).interval ≡ c.interval)
  unfolding after
  settings-after c [] = (refl, refl)
  settings-after c ((t, s) ∷ h) =
      ground (arith, settings-after c h, settings-should_drop (after c h) t s)

  after-Tracks :
      (target interval : ℕ) (h : History) (d : ℕ)
      → (after (new_codel target interval) h).first_above ≡ some d
      → StandingUntil target interval d h
  unfolding after new_codel
  after-Tracks target interval [] d e = ground arith
  after-Tracks target interval ((t, s) ∷ h) d e =
      let c = after (new_codel target interval) h in
      ground (
        arith,
        first_above-should_drop c t s,
        settings-after (new_codel target interval) h,
        after-Tracks target interval h d,
      )

  -- Whatever the calls before it, CoDel drops a packet only if it has waited for the target or
  -- longer, and so has every packet since some call at least one interval ago.
  pub drop-StandingUntil :
      (target interval : ℕ) (h : History) (now : ℕ) (s : ℤ)
      → (should_drop F (after (new_codel target interval) h) now s).1 ≡ true
      → (ltb_ℤ s (pos target) ≡ false) × ((d : ℕ) × (d ≤ now) × StandingUntil target interval d h)
  unfolding new_codel
  drop-StandingUntil target interval h now s e =
      let c = after (new_codel target interval) h in
      let late = should_drop_late c now s e in
      let d = late.1.0 in
      (
        ground (arith, late.0, (settings-after (new_codel target interval) h).0),
        (d, late.1.2, after-Tracks target interval h d late.1.1),
      )

  -- A packet that has waited for less than the target is kept, and ends both the dropping phase and
  -- the count towards a standing delay.
  pub should_drop_below :
      (c : Codel) (now : ℕ) (s : ℤ)
      → ltb_ℤ s (pos c.target) ≡ true
      → let (d, drop) = should_drop F c now s in
        (drop ≡ false) × (d.dropping ≡ false) × (d.first_above ≡ none)
  unfolding should_drop
  should_drop_below c now s h = ground arith

  -- Outside the dropping phase a packet is dropped exactly when it has waited for the target or
  -- longer and the deadline has passed; the phase then begins.
  pub should_drop_iff :
      (c : Codel) (now : ℕ) (s : ℤ)
      → c.dropping ≡ false
      → let (d, drop) = should_drop F c now s in
        (drop ≡ d.dropping)
        × ((drop ≡ true)
            ↔ ((ltb_ℤ s (pos c.target) ≡ false) × ((t : ℕ) × (c.first_above ≡ some t) × (t ≤ now))))
  unfolding should_drop
  should_drop_iff c now s h = (ground arith, (ground arith, λ p. ground (arith, p.0, p.1.1, p.1.2)))
