-- ===== src/Auth/Data/Layout.antt =====
-- auth_protocol.go: where WrapData puts the bytes.
use udplex.Prelude.{
  ℕ, zero, suc, ◌+◌, ◌≤◌, ◌≡◌, refl, ap, sym, ◌∙◌, arith, some, List, [], ◌∷◌, ◌++◌, append_assoc,
  length, length-append, length-take, length-drop, take, drop,
}
use udplex.Packet.{overwrite}
use udplex.Wire.{put_be, length-put_be, take-exact, drop-past}
use udplex.Auth.Data.{put_at}

pub drop-drop : (m n : ℕ) (xs : List ℕ) → drop n (drop m xs) ≡ drop (m + n) xs
drop-drop zero n xs = ap (λ (k : ℕ). drop k xs) (omega arith)
drop-drop (suc m) n [] = drop_nil n ∙ sym (drop_nil (suc m + n))
  where
    drop_nil : (k : ℕ) → drop {A = ℕ} k [] ≡ []
    drop_nil zero = refl
    drop_nil (suc k) = refl
drop-drop (suc m) n (x ∷ xs) =
    let e : suc m + n ≡ suc (m + n) = omega arith in
    drop-drop m n xs ∙ sym (ap (λ (k : ℕ). drop k (x ∷ xs)) e)

take_first : (n : ℕ) (xs ys : List ℕ) → length xs ≡ n → take n (xs ++ ys) ≡ xs
take_first n xs ys e = ap (λ (k : ℕ). take k (xs ++ ys)) (sym e) ∙ take-exact xs ys

pub drop_first : (n k : ℕ) (xs ys : List ℕ) → length xs ≡ n → drop (n + k) (xs ++ ys) ≡ drop k ys
drop_first n k xs ys e = ap (λ (m : ℕ). drop (m + k) (xs ++ ys)) (sym e) ∙ drop-past xs ys k

pub drop_all_of : (n : ℕ) (xs ys : List ℕ) → length xs ≡ n → drop n (xs ++ ys) ≡ ys
drop_all_of n xs ys e = ap (λ (m : ℕ). drop m (xs ++ ys)) (omega arith) ∙ drop_first n 0 xs ys e

-- Two numbers written one behind the other, and what is then read from the first on.
pub two_writes :
    (buf : List ℕ) (o x y : ℕ)
    → o + 16 ≤ length buf
    → (b c : List ℕ) × (put_at buf o x ≡ some b)
      × (put_at b (o + 8) y ≡ some c)
      × (drop o c ≡ put_be 8 x ++ (put_be 8 y ++ drop (o + 16) buf))
      × (take o c ≡ take o buf)
      × (length c ≡ length buf)
unfolding put_at overwrite
two_writes buf o x y h =
    let front = take o buf in
    let a = put_be 8 x in
    let tail = drop (o + length a) buf in
    let b = front ++ (a ++ tail) in
    let n : length front ≡ o = omega (arith, length-take o buf) in
    let na = length-put_be 8 x in
    let ny = length-put_be 8 y in
    let nb : length b ≡ length buf = omega (
      arith,
      n,
      na,
      length-append front (a ++ tail),
      length-append a tail,
      length-drop (o + length a) buf,
    ) in
    let nfa : length (front ++ a) ≡ o + 8 = omega (arith, n, na, length-append front a) in
    let first : take (o + 8) b ≡ front ++ a =
      ap (take (o + 8)) (sym (append_assoc front a tail))
      ∙ take_first (o + 8) (front ++ a) tail nfa in
    let rest : drop (o + 8 + length (put_be 8 y)) b ≡ drop (o + 16) buf =
      ap (λ (k : ℕ). drop (o + 8 + k) b) ny
      ∙ ap (drop (o + 8 + 8)) (sym (append_assoc front a tail))
      ∙ drop_first (o + 8) 8 (front ++ a) tail nfa
      ∙ drop-drop (o + length a) 8 buf
      ∙ ap (λ (k : ℕ). drop k buf) (omega (arith, na)) in
    let whole : overwrite b (o + 8) (put_be 8 y)
        ≡ front ++ (a ++ (put_be 8 y ++ drop (o + 16) buf)) =
      ap (λ l. l ++ (put_be 8 y ++ drop (o + 8 + length (put_be 8 y)) b)) first
      ∙ ap (λ l. (front ++ a) ++ (put_be 8 y ++ l)) rest
      ∙ append_assoc front a (put_be 8 y ++ drop (o + 16) buf) in
    (
      b,
      overwrite b (o + 8) (put_be 8 y),
      ground (arith, h),
      ground (arith, h, nb),
      ap (drop o) whole ∙ drop_all_of o front (a ++ (put_be 8 y ++ drop (o + 16) buf)) n,
      ap (take o) whole ∙ take_first o front (a ++ (put_be 8 y ++ drop (o + 16) buf)) n,
      ap length whole
          ∙ omega (
            arith,
            n,
            na,
            ny,
            length-append front (a ++ (put_be 8 y ++ drop (o + 16) buf)),
            length-append a (put_be 8 y ++ drop (o + 16) buf),
            length-append (put_be 8 y) (drop (o + 16) buf),
            length-drop (o + 16) buf,
          ),
    )
