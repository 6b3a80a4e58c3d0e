-- ===== src/Auth/Challenge/Layout.antt =====
-- auth_protocol.go: where the fields of a challenge message stand.
use udplex.Prelude.{
  ℕ, ◌+◌, ◌≤◌, ◌≡◌, refl, ◌∙◌, sym, ap, false, some, List, ltb, arith, length, length-append,
  length-take, length-drop, take, drop, ◌++◌, append_assoc,
}
use udplex.Packet.{overwrite}
use udplex.Wire.{
  slice, take-exact, drop-past, take-all, slice-past, slice-first, slice-append, slice-take,
  slice_lem, get_or-front,
}
use udplex.Auth.Data.Layout.{drop-drop}
use udplex.Wire.Header.{parse_header}
use udplex.Table.{number_key}
use udplex.Auth.Challenge.{copy_at}

-- The next field is written behind what has been written.
pub copy_at-behind :
    (front rest src : List ℕ) (off : ℕ)
    → length front ≡ off
    → length src ≤ length rest
    → copy_at (front ++ rest) off src ≡ some ((front ++ src) ++ drop (length src) rest)
unfolding copy_at overwrite
copy_at-behind front rest src off e h =
    let fits : ltb (length (front ++ rest)) off ≡ false =
      ground (arith, e, length-append front rest) in
    let before : take off (front ++ rest) ≡ front =
      ap (λ (n : ℕ). take n (front ++ rest)) (sym e) ∙ take-exact front rest in
    let behind : drop (off + length src) (front ++ rest) ≡ drop (length src) rest =
      ap (λ (n : ℕ). drop (n + length src) (front ++ rest)) (sym e)
      ∙ drop-past front rest (length src) in
    let whole : take off (front ++ rest) ++ (src ++ drop (off + length src) (front ++ rest))
        ≡ (front ++ src) ++ drop (length src) rest =
      ap (λ x. x ++ (src ++ drop (off + length src) (front ++ rest))) before
      ∙ ap (λ x. front ++ (src ++ x)) behind
      ∙ sym (append_assoc front src (drop (length src) rest)) in
    let size : length ((front ++ src) ++ drop (length src) rest) ≤ length (front ++ rest) = omega (
      arith,
      h,
      length-append (front ++ src) (drop (length src) rest),
      length-append front src,
      length-append front rest,
      length-drop (length src) rest,
    ) in
    rw fits (
      ap some (ap (take (length (front ++ rest))) whole ∙ take-all (length (front ++ rest)) _ size))

-- The field at its offset in a message, and in the part of the message behind the header.
field_at :
    (whole front x rest : List ℕ) (off n : ℕ)
    → whole ≡ front ++ (x ++ rest)
    → length front ≡ 8 + off
    → length x ≡ n
    → off + n ≤ 88
    → slice (slice whole 8 88) off n ≡ x
field_at whole front x rest off n w e k le =
    ap (λ (l : List ℕ). slice l off n) (slice_lem whole 8 88)
    ∙ slice-take 88 (drop 8 whole) off n le
    ∙ slice_lem (drop 8 whole) off n
    ∙ ap (take n) (drop-drop 8 off whole)
    ∙ sym (slice_lem whole (8 + off) n)
    ∙ ap (λ (l : List ℕ). slice l (8 + off) n) w
    ∙ slice-past front (x ++ rest) (8 + off) 0 (8 + off) n e (omega arith)
    ∙ slice-first x rest n k

pub parse_header-front :
    (xs ys : List ℕ) → length xs ≡ 8 → parse_header (xs ++ ys) ≡ parse_header xs
unfolding parse_header
parse_header-front xs ys e =
    let long : ltb (length xs) 8 ≡ false = ground (arith, e) in
    let longer : ltb (length (xs ++ ys)) 8 ≡ false = ground (arith, e, length-append xs ys) in
    rw
      (
        longer,
        long,
        get_or-front 0 xs ys (omega (arith, e)),
        get_or-front 1 xs ys (omega (arith, e)),
        slice-append xs ys 2 2 (omega (arith, e)),
        slice-append xs ys 4 4 (omega (arith, e)),
      )
      refl

-- The sizes of the fields.
pub record AreFields (challenge forward_id pool_id : List ℕ) : Type 0 where
  pub challenge_size : length challenge ≡ 32
  pub forward_size : length forward_id ≡ 8
  pub pool_size : length pool_id ≡ 8

-- What stands in a message that has been written field by field.
pub record Stands (head c f p t m tail : List ℕ) : Type 0 where
  pub front :
      (((((head ++ c) ++ f) ++ p) ++ t) ++ m) ++ tail
      ≡ head ++ (c ++ (f ++ (p ++ (t ++ (m ++ tail)))))
  pub size : length (slice ((((((head ++ c) ++ f) ++ p) ++ t) ++ m) ++ tail) 8 88) ≡ 88
  pub challenge : slice (slice ((((((head ++ c) ++ f) ++ p) ++ t) ++ m) ++ tail) 8 88) 0 32 ≡ c
  pub forward_id : slice (slice ((((((head ++ c) ++ f) ++ p) ++ t) ++ m) ++ tail) 8 88) 32 8 ≡ f
  pub pool_id : slice (slice ((((((head ++ c) ++ f) ++ p) ++ t) ++ m) ++ tail) 8 88) 40 8 ≡ p
  pub timestamp : slice (slice ((((((head ++ c) ++ f) ++ p) ++ t) ++ m) ++ tail) 8 88) 48 8 ≡ t
  pub mac : slice (slice ((((((head ++ c) ++ f) ++ p) ++ t) ++ m) ++ tail) 8 88) 56 32 ≡ m

pub fields_stand :
    (head c f p t m tail : List ℕ)
    → length head ≡ 8
    → AreFields c f p
    → length t ≡ 8
    → length m ≡ 32
    → Stands head c f p t m tail
fields_stand head c f p t m tail nh v nt nm =
    let whole = (((((head ++ c) ++ f) ++ p) ++ t) ++ m) ++ tail in
    let e4 : whole ≡ ((((head ++ c) ++ f) ++ p) ++ t) ++ (m ++ tail) =
      append_assoc ((((head ++ c) ++ f) ++ p) ++ t) m tail in
    let e3 : whole ≡ (((head ++ c) ++ f) ++ p) ++ (t ++ (m ++ tail)) =
      e4 ∙ append_assoc (((head ++ c) ++ f) ++ p) t (m ++ tail) in
    let e2 : whole ≡ ((head ++ c) ++ f) ++ (p ++ (t ++ (m ++ tail))) =
      e3 ∙ append_assoc ((head ++ c) ++ f) p (t ++ (m ++ tail)) in
    let e1 : whole ≡ (head ++ c) ++ (f ++ (p ++ (t ++ (m ++ tail)))) =
      e2 ∙ append_assoc (head ++ c) f (p ++ (t ++ (m ++ tail))) in
    let e0 : whole ≡ head ++ (c ++ (f ++ (p ++ (t ++ (m ++ tail))))) =
      e1 ∙ append_assoc head c (f ++ (p ++ (t ++ (m ++ tail)))) in
    let n1 : length (head ++ c) ≡ 40 = omega (arith, length-append head c, nh, v.challenge_size) in
    let n2 : length ((head ++ c) ++ f) ≡ 48 =
      omega (arith, length-append (head ++ c) f, n1, v.forward_size) in
    let n3 : length (((head ++ c) ++ f) ++ p) ≡ 56 =
      omega (arith, length-append ((head ++ c) ++ f) p, n2, v.pool_size) in
    let n4 : length ((((head ++ c) ++ f) ++ p) ++ t) ≡ 64 =
      omega (arith, length-append (((head ++ c) ++ f) ++ p) t, n3, nt) in
    let n5 : length (((((head ++ c) ++ f) ++ p) ++ t) ++ m) ≡ 96 =
      omega (arith, length-append ((((head ++ c) ++ f) ++ p) ++ t) m, n4, nm) in
    let long : 96 ≤ length whole =
      omega (arith, length-append (((((head ++ c) ++ f) ++ p) ++ t) ++ m) tail, n5) in
    record {
      front = e0;
      size =
          ap (λ (x : List ℕ). length x) (slice_lem whole 8 88)
          ∙ omega (arith, length-take 88 (drop 8 whole), length-drop 8 whole, long);
      challenge = field_at whole head c _ 0 32 e0 nh v.challenge_size (omega arith);
      forward_id = field_at whole (head ++ c) f _ 32 8 e1 n1 v.forward_size (omega arith);
      pool_id = field_at whole ((head ++ c) ++ f) p _ 40 8 e2 n2 v.pool_size (omega arith);
      timestamp = field_at whole (((head ++ c) ++ f) ++ p) t _ 48 8 e3 n3 nt (omega arith);
      mac = field_at whole ((((head ++ c) ++ f) ++ p) ++ t) m _ 56 32 e4 n4 nm (omega arith);
    }
