-- ===== src/Wire.antt =====
-- encoding/binary's big-endian integers, as the sources use them, and slices of a buffer. A byte is a
-- number below 256.
mod Tests
pub mod Header
pub mod StreamFrame
use udplex.Prelude.{
  ℕ, zero, suc, ◌+◌, ◌-◌, ◌*◌, ◌/◌, ◌%◌, ◌^◌, ◌≤◌, ◌<◌, ◌≡◌, refl, ◌∙◌, ap, List, [], ◌∷◌, ◌++◌,
  arith, length, length-append, take, drop, Option, none, some, get_elem?, append_assoc, get_or,
}
use native.Mathlib.Nat.{pow-suc}

-- `n` bytes, the highest first.
pub put_be : ℕ → ℕ → List ℕ
put_be zero x = []
put_be (suc n) x = put_be n (x / 256) ++ (x % 256 ∷ [])

unfoldable pub be_from : ℕ → List ℕ → ℕ
be_from acc [] = acc
be_from acc (b ∷ bs) = be_from (acc * 256 + b) bs

unfoldable pub be : List ℕ → ℕ
unfolding be_from
be bs = be_from 0 bs

-- `b[off : off+n]`
unfoldable pub slice : List ℕ → ℕ → ℕ → List ℕ
slice b off n = take n (drop off b)

be_from-snoc :
    (acc : ℕ) (bs : List ℕ) (b : ℕ) → be_from acc (bs ++ (b ∷ [])) ≡ be_from acc bs * 256 + b
unfolding be_from
be_from-snoc acc [] b = refl
be_from-snoc acc (x ∷ bs) b = be_from-snoc (acc * 256 + x) bs b

pub length-put_be : (n x : ℕ) → length (put_be n x) ≡ n
unfolding put_be
length-put_be zero x = refl
length-put_be (suc n) x =
    omega (arith, length-append (put_be n (x / 256)) (x % 256 ∷ []), length-put_be n (x / 256))

-- Reading back what was written.
pub be-put_be : (n x : ℕ) → x < 256 ^ n → be (put_be n x) ≡ x
unfolding be put_be
be-put_be zero x h = omega arith
be-put_be (suc n) x h =
    be_from-snoc 0 (put_be n (x / 256)) (x % 256)
    ∙ omega (arith, be-put_be n (x / 256) (omega (arith, pow-suc 256 n)))

pub take-exact : (xs ys : List ℕ) → take (length xs) (xs ++ ys) ≡ xs
take-exact [] ys = refl
take-exact (x ∷ xs) ys = ap (◌∷◌ x) (take-exact xs ys)

pub drop-past : (xs ys : List ℕ) (k : ℕ) → drop (length xs + k) (xs ++ ys) ≡ drop k ys
drop-past [] ys k = ap (λ (n : ℕ). drop n ys) (omega arith)
drop-past (x ∷ xs) ys k =
    let e : length (x ∷ xs) + k ≡ suc (length xs + k) = omega arith in
    ap (λ (n : ℕ). drop n (x ∷ (xs ++ ys))) e ∙ drop-past xs ys k

-- A slice past a first part of the buffer is a slice of the rest.
pub slice-past :
    (xs ys : List ℕ) (m k off n : ℕ)
    → length xs ≡ m
    → off ≡ m + k
    → slice (xs ++ ys) off n ≡ slice ys k n
unfolding slice
slice-past xs ys m k off n e f =
    ap (λ (o : ℕ). take n (drop o (xs ++ ys))) (omega arith) ∙ ap (take n) (drop-past xs ys k)

-- A slice that is the first part of the buffer.
pub slice-first : (xs ys : List ℕ) (n : ℕ) → length xs ≡ n → slice (xs ++ ys) 0 n ≡ xs
unfolding slice
slice-first xs ys n e = ap (λ (o : ℕ). take o (xs ++ ys)) (omega arith) ∙ take-exact xs ys

-- Reading an integer at the front, and skipping one.
pub read_be : (w x : ℕ) (tail : List ℕ) → x < 256 ^ w → be (slice (put_be w x ++ tail) 0 w) ≡ x
read_be w x tail h = ap be (slice-first (put_be w x) tail w (length-put_be w x)) ∙ be-put_be w x h

pub skip_be :
    (w x : ℕ) (tail : List ℕ) (off n k : ℕ)
    → off ≡ w + k
    → slice (put_be w x ++ tail) off n ≡ slice tail k n
skip_be w x tail off n k e = slice-past (put_be w x) tail w k off n (length-put_be w x) e

pub take-all : (n : ℕ) (xs : List ℕ) → length xs ≤ n → take n xs ≡ xs
take-all zero [] h = refl
take-all zero (x ∷ xs) h = absurd (omega arith)
take-all (suc n) [] h = refl
take-all (suc n) (x ∷ xs) h = ap (◌∷◌ x) (take-all n xs (omega arith))

-- A slice that lies within the first part of a buffer does not see the rest.
pub slice-append :
    (xs ys : List ℕ) (off n : ℕ) → off + n ≤ length xs → slice (xs ++ ys) off n ≡ slice xs off n
unfolding slice
slice-append xs ys zero zero h = refl
slice-append [] ys zero (suc n) h = absurd (omega arith)
slice-append (x ∷ xs) ys zero (suc n) h = ap (◌∷◌ x) (slice-append xs ys 0 n (omega arith))
slice-append [] ys (suc off) n h = absurd (omega arith)
slice-append (x ∷ xs) ys (suc off) n h = slice-append xs ys off n (omega arith)

pub slice-take :
    (m : ℕ) (xs : List ℕ) (off n : ℕ) → off + n ≤ m → slice (take m xs) off n ≡ slice xs off n
unfolding slice
slice-take m xs zero zero h = refl
slice-take zero xs zero (suc n) h = absurd (omega arith)
slice-take (suc m) [] zero (suc n) h = refl
slice-take (suc m) (x ∷ xs) zero (suc n) h = ap (◌∷◌ x) (slice-take m xs 0 n (omega arith))
slice-take zero xs (suc off) n h = absurd (omega arith)
slice-take (suc m) [] (suc off) n h = refl
slice-take (suc m) (x ∷ xs) (suc off) n h = slice-take m xs off n (omega arith)

pub slice_lem : (b : List ℕ) (off n : ℕ) → slice b off n ≡ take n (drop off b)
unfolding slice
slice_lem b off n = refl

pub get_or-front : (n : ℕ) (xs ys : List ℕ) → n < length xs → get_or (xs ++ ys) n 0 ≡ get_or xs n 0
get_or-front n [] ys h = absurd (omega arith)
get_or-front zero (x ∷ xs) ys h = refl
get_or-front (suc n) (x ∷ xs) ys h = get_or-front n xs ys (omega arith)
