-- ===== src/Fifo/View.antt =====
-- The queue by the list that it holds, in the form in which its users' proofs take it.
use udplex.Prelude.{
  ℕ, suc, ◌+◌, ◌≡◌, refl, ap, sym, subst, ◌∙◌, ◌⊎◌, inl, inr, Option, none, some, List, [], ◌∷◌,
  ◌++◌, arith, length, length-append, drop, map, Bool, if◌then◌else◌,
}
use udplex.Packet.{Packet}
use udplex.Fifo.{Item, Fifo, empty, len, push, peek, pop}
use udplex.Fifo.Contents.{
  Holds, empty-Holds, len-Holds, push-Holds, pop_nil, pop_cons, peek_cons, wires,
}

abbrev pub somes {ℓ} : {A : Type ℓ} → List (Option A) → List A
somes [] = []
somes (none ∷ xs) = somes xs
somes (some x ∷ xs) = x ∷ somes xs

-- The items in the queue, oldest first.
pub contents : Fifo → List Item
contents q = somes (drop q.head q.items)

pub IsFifo : Fifo → Type 0
IsFifo q = Holds q (contents q)

somes-map : (xs : List Item) → somes (map {B = Option Item} some xs) ≡ xs
somes-map [] = refl
somes-map (x ∷ xs) = ap (◌∷◌ x) (somes-map xs)

contents_of_Holds : {q : Fifo} {xs : List Item} → Holds q xs → contents q ≡ xs
unfolding contents
contents_of_Holds {q} {xs} h = ap somes h.live ∙ somes-map xs

Holds-IsFifo : {q : Fifo} {xs : List Item} → Holds q xs → (contents q ≡ xs) × IsFifo q
unfolding IsFifo
Holds-IsFifo {q} h = let e = contents_of_Holds h in (e, subst (Holds q) (sym e) h)

pub empty-IsFifo : IsFifo empty × (contents empty ≡ [])
unfolding IsFifo
empty-IsFifo = let r = Holds-IsFifo empty-Holds in (r.1, r.0)

-- A queue is described by its contents: how many, how many bytes.
pub IsFifo-sizes :
    (q : Fifo) → IsFifo q → (len q ≡ length (contents q)) × (q.bytes ≡ wires (contents q))
unfolding IsFifo
IsFifo-sizes q h = (len-Holds h, h.counted)

pub no_bytes : (q : Fifo) → IsFifo q → len q ≡ 0 → q.bytes ≡ 0
no_bytes q h e = of_nil (contents q) (IsFifo-sizes q h)
  where
    of_nil : (xs : List Item) → (len q ≡ length xs) × (q.bytes ≡ wires xs) → q.bytes ≡ 0
    of_nil [] s = s.1
    of_nil (x ∷ xs) s = absurd (omega (arith, s.0, e))

pub push_view :
    (q : Fifo) (it : Item)
    → IsFifo q
    → IsFifo (push q it)
      × (contents (push q it) ≡ contents q ++ (it ∷ []))
      × (len (push q it) ≡ len q + 1)
      × ((push q it).bytes ≡ q.bytes + it.wire)
unfolding push IsFifo
push_view q it h =
    let p = push-Holds it h in
    let r = Holds-IsFifo p in
    (
      r.1,
      r.0,
      omega (arith, len-Holds p, len-Holds h, length-append (contents q) (it ∷ [])),
      ground (arith),
    )

-- Popping an empty queue fails; otherwise it splits the oldest item off.
pub pop_view :
    (q : Fifo)
    → IsFifo q
    → ((pop q ≡ none) × (contents q ≡ []) × (len q ≡ 0) × (q.bytes ≡ 0))
      ⊎ ((x : Item) × (q' : Fifo) × (pop q ≡ some (x, q'))
          × (peek q ≡ some x)
          × IsFifo q'
          × (contents q ≡ x ∷ contents q')
          × (len q ≡ suc (len q'))
          × (q.bytes ≡ x.wire + q'.bytes))
unfolding IsFifo
pop_view q h = split (contents q) h refl
  where
    split :
        (xs : List Item)
        → Holds q xs
        → contents q ≡ xs
        → ((pop q ≡ none) × (contents q ≡ []) × (len q ≡ 0) × (q.bytes ≡ 0))
          ⊎ ((x : Item) × (q' : Fifo) × (pop q ≡ some (x, q'))
              × (peek q ≡ some x)
              × IsFifo q'
              × (contents q ≡ x ∷ contents q')
              × (len q ≡ suc (len q'))
              × (q.bytes ≡ x.wire + q'.bytes))
    split [] k e = inl (pop_nil k, e, len-Holds k, k.counted)
    split (x ∷ xs) k e =
        let r = pop_cons k in
        let q' = r.0 in
        let s = Holds-IsFifo r.2 in
        inr (
          x,
          q',
          r.1,
          peek_cons k,
          s.1,
          e ∙ ap (◌∷◌ x) (sym s.0),
          omega (arith, len-Holds k, len-Holds r.2),
          omega (arith, k.counted, r.2.counted),
        )

-- How many of the packets have the property `p`.
abbrev pub tally : (Packet → Bool) → List Item → ℕ
tally p [] = 0
tally p (x ∷ xs) = (if p x.pkt then 1 else 0) + tally p xs

pub tally-append :
    (p : Packet → Bool) (xs ys : List Item) → tally p (xs ++ ys) ≡ tally p xs + tally p ys
tally-append p [] ys = omega arith
tally-append p (x ∷ xs) ys = omega (arith, tally-append p xs ys)

abbrev pub count : (Packet → Bool) → List Packet → ℕ
count p [] = 0
count p (x ∷ xs) = (if p x then 1 else 0) + count p xs

pub count-append :
    (p : Packet → Bool) (xs ys : List Packet) → count p (xs ++ ys) ≡ count p xs + count p ys
count-append p [] ys = omega arith
count-append p (x ∷ xs) ys = omega (arith, count-append p xs ys)
