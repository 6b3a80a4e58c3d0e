-- ===== src/Codel/Tests.antt =====
-- CoDel at a concrete history.
use udplex.Prelude.{ℕ, ◌≡◌, ◌≤◌, refl, true, false, [], ◌∷◌}
use udplex.Prelude.Int.{pos, ltb_ℤ}
use udplex.Float.{int_floats}
use udplex.Codel.{new_codel, should_drop}
use udplex.Codel.Interval.{History, StandingUntil, after, drop-StandingUntil}

abbrev standing : History
standing = (100, pos 11) ∷ (50, pos 10) ∷ []

drops : (should_drop int_floats (after int_floats (new_codel 5 100) standing) 160 (pos 13)).1 ≡ true
unfolding should_drop after new_codel
drops = refl

drop-StandingUntil_example :
    (ltb_ℤ (pos 13) (pos 5) ≡ false) × ((d : ℕ) × (d ≤ 160) × StandingUntil 5 100 d standing)
drop-StandingUntil_example = drop-StandingUntil int_floats 5 100 standing 160 (pos 13) drops
