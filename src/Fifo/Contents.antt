-- ===== src/Fifo/Contents.antt =====
-- shaper.go: the list of items that the slice with its head index stands for.
use udplex.Prelude.{
  ℕ, zero, suc, ◌+◌, ◌-◌, ◌≤◌, ◌<◌, ◌≡◌, refl, ap, ◌∙◌, Option, none, some, List, [], ◌∷◌, ◌++◌,
  arith, length, length-append, length-set, drop, get_elem?, set, map, length-drop,
}
use native.Mathlib.Numerals.{add-one}
use udplex.Fifo.{Item, Fifo, empty, len, compact, push, slot, peek, rewind, taken, pop}

abbrev pub wires : List Item → ℕ
wires [] = 0
wires (x ∷ xs) = x.wire + wires xs

pub wires-append : (xs ys : List Item) → wires (xs ++ ys) ≡ wires xs + wires ys
wires-append [] ys = omega arith
wires-append (x ∷ xs) ys = omega (arith, wires-append xs ys)

-- The queue holds exactly these items, oldest first, and counts their bytes.
pub record Holds (q : Fifo) (xs : List Item) : Type 0 where
  pub live : drop q.head q.items ≡ map some xs
  pub inside : q.head ≤ length q.items
  pub counted : q.bytes ≡ wires xs

drop-append {ℓ} :
    {A : Type ℓ} (n : ℕ) (xs ys : List A) → n ≤ length xs → drop n (xs ++ ys) ≡ drop n xs ++ ys
drop-append zero xs ys h = refl
drop-append (suc n) [] ys h = absurd (omega arith)
drop-append (suc n) (x ∷ xs) ys h = drop-append n xs ys (omega arith)

drop-set {ℓ} :
    {A : Type ℓ} (n : ℕ) (xs : List A) (v : A) → drop (suc n) (set xs n v) ≡ drop (suc n) xs
drop-set n [] v = refl
drop-set zero (x ∷ xs) v = refl
drop-set (suc n) (x ∷ xs) v = drop-set n xs v

get_elem?-of_drop {ℓ} :
    {A : Type ℓ} (n : ℕ) (xs : List A) {y : A} {ys : List A}
    → drop n xs ≡ y ∷ ys
    → (get_elem? xs n ≡ some y) × (drop (suc n) xs ≡ ys) × (n < length xs)
get_elem?-of_drop zero [] h = cc
get_elem?-of_drop zero (x ∷ xs) h = (ground arith, ground arith, omega arith)
get_elem?-of_drop (suc n) [] h = cc
get_elem?-of_drop (suc n) (x ∷ xs) h =
    let r = get_elem?-of_drop n xs h in (r.0, r.1, omega (arith, r.2))

get_elem?-of_drop_nil {ℓ} :
    {A : Type ℓ} (n : ℕ) (xs : List A) → drop n xs ≡ [] → get_elem? xs n ≡ none
get_elem?-of_drop_nil zero [] h = refl
get_elem?-of_drop_nil zero (x ∷ xs) h = cc
get_elem?-of_drop_nil (suc n) [] h = refl
get_elem?-of_drop_nil (suc n) (x ∷ xs) h = get_elem?-of_drop_nil n xs h

length-some : (xs : List Item) → length (map {B = Option Item} some xs) ≡ length xs
length-some [] = refl
length-some (x ∷ xs) = ap suc (length-some xs)

map-some-append :
    (xs ys : List Item) → map {B = Option Item} some (xs ++ ys) ≡ map some xs ++ map some ys
map-some-append [] ys = refl
map-some-append (x ∷ xs) ys = ap (◌∷◌ (some x)) (map-some-append xs ys)

pub empty-Holds : Holds empty []
empty-Holds = record { live = refl; inside = omega arith; counted = refl }

pub len-Holds : {q : Fifo} {xs : List Item} → Holds q xs → len q ≡ length xs
unfolding len
len-Holds {q} {xs} h =
    omega (arith, length-drop q.head q.items, ap length h.live, length-some xs, h.inside)

compact-Holds : {q : Fifo} {xs : List Item} → Holds q xs → Holds (compact q) xs
unfolding compact
compact-Holds h = ground arith

-- `push` puts the item behind all the others.
pub push-Holds :
    {q : Fifo} {xs : List Item} (it : Item) → Holds q xs → Holds (push q it) (xs ++ it ∷ [])
unfolding push
push-Holds {q} {xs} it h =
    let c = compact-Holds h in
    record {
      live =
          drop-append (compact q).head (compact q).items (some it ∷ []) c.inside
          ∙ (rw c.live (rw map-some-append));
      inside = omega (arith, c.inside, length-append (compact q).items (some it ∷ []));
      counted = omega (arith, c.counted, wires-append xs (it ∷ []));
    }

pub peek_nil : {q : Fifo} → Holds q [] → peek q ≡ none
unfolding peek slot
peek_nil {q} h = rw (get_elem?-of_drop_nil q.head q.items h.live)

pub peek_cons : {q : Fifo} {x : Item} {xs : List Item} → Holds q (x ∷ xs) → peek q ≡ some x
unfolding peek slot
peek_cons {q} h = rw (get_elem?-of_drop q.head q.items h.live).0

pub pop_nil : {q : Fifo} → Holds q [] → pop q ≡ none
unfolding pop
pop_nil {q} h = rw (peek_nil h, pop)

rewind-Holds : {q : Fifo} {xs : List Item} → Holds q xs → Holds (rewind q) xs
unfolding rewind
rewind-Holds {q} {xs = []} h = ground arith
rewind-Holds {q} {xs = x ∷ xs} h =
    let n = get_elem?-of_drop q.head q.items h.live in ground (arith, n.2)

taken-Holds : {q : Fifo} {x : Item} {xs : List Item} → Holds q (x ∷ xs) → Holds (taken q x) xs
unfolding taken
taken-Holds {q} {x} {xs} h =
    let n = get_elem?-of_drop q.head q.items h.live in
    rewind-Holds
      {q = record { items = set q.items q.head none; head = q.head + 1; bytes = q.bytes - x.wire }}
      (record {
        live = rw add-one (drop-set q.head q.items none ∙ n.1);
        inside = omega (arith, n.2, length-set q.items q.head none);
        counted = omega (arith, h.counted);
      })

-- `pop` takes the oldest item and leaves the others; the byte count falls by its size exactly.
pub pop_cons :
    {q : Fifo} {x : Item} {xs : List Item}
    → Holds q (x ∷ xs)
    → (q' : Fifo) × (pop q ≡ some (x, q')) × Holds q' xs
unfolding pop
pop_cons {q} {x} h = (taken q x, rw (peek_cons h, pop), taken-Holds h)
