-- ===== src/Detector/Tests.antt =====
-- Signatures at concrete packets.
use udplex.Prelude.{
  ℕ, ◌≡◌, ◌↔◌, ◌⊎◌, ◌∙◌, refl, ap, Bool, true, false, ◌&&◌, ◌||◌, some, List, [], ◌∷◌, ◌++◌, ◌==◌,
  take, arith, inl, inr, Bool-cases,
}
use udplex.Detector.{SignatureRule, match_signature}
use udplex.Detector.Match.{IsWithin, BytesAt, IsContains, match_signature_iff}

-- A search to run the example with.
abbrev starts : List ℕ → List ℕ → Bool
starts bytes [] = true
starts [] (p ∷ ps) = false
starts (d ∷ ds) (p ∷ ps) = (d == p) && starts ds ps

abbrev search_in : List ℕ → List ℕ → Bool
search_in [] pattern = starts [] pattern
search_in (d ∷ ds) pattern = starts (d ∷ ds) pattern || search_in ds pattern

starts_found : (xs p : List ℕ) → starts xs p ≡ true → (c : List ℕ) × (xs ≡ p ++ c)
starts_found xs [] h = (xs, refl)
starts_found [] (y ∷ ys) h = cc
starts_found (x ∷ xs) (y ∷ ys) h =
    let (c, e) = starts_found xs ys (ground arith) in
    let at : x ≡ y = ground arith in (c, rw (at, e) refl)

starts_at : (p c : List ℕ) → starts (p ++ c) p ≡ true
starts_at [] [] = refl
starts_at [] (x ∷ c) = refl
starts_at (x ∷ p) c = ground (arith, starts_at p c)

found : (xs p : List ℕ) → search_in xs p ≡ true → (a : List ℕ) × (c : List ℕ) × (xs ≡ a ++ (p ++ c))
found [] p h = let (c, e) = starts_found [] p h in ([], c, e)
found (x ∷ xs) p h = elim (Bool-cases (starts (x ∷ xs) p)) [
  | inl s ↦ let (c, e) = starts_found (x ∷ xs) p s in ([], c, e)
  | inr s ↦ let (a, c, e) = found xs p (ground arith) in (x ∷ a, c, ap (◌∷◌ x) e)
]

standing : (a p c : List ℕ) → search_in (a ++ (p ++ c)) p ≡ true
standing [] [] [] = starts_at [] []
standing [] [] (x ∷ c) = ground (arith, starts_at [] (x ∷ c))
standing [] (x ∷ p) c = ground (arith, starts_at (x ∷ p) c)
standing (x ∷ a) p c = ground (arith, standing a p c)

search_in-IsContains : IsContains search_in
search_in-IsContains b p =
    (found b p, λ (a, c, e). ap (λ (x : List ℕ). search_in x p) e ∙ standing a p c)

abbrev signature : SignatureRule
signature = record {
  offset = 1;
  has_bytes = true;
  has_contains = true;
  length_match = some (record { min_length = 3; max_length = 0 });
  decoded_bytes = 20 ∷ 30 ∷ [];
  decoded_mask = 255 ∷ 240 ∷ [];
  decoded_contains = 30 ∷ [];
}

abbrev packet : List ℕ
packet = 10 ∷ 20 ∷ 30 ∷ 40 ∷ []

match_signature_iff_example : (match_signature search_in packet 4 signature ≡ true) ↔ (
    IsWithin signature.length_match 4
    × ((signature.has_bytes ≡ false) ⊎ BytesAt packet 4 signature)
    × ((signature.has_contains ≡ false)
        ⊎ ((a : List ℕ) × (c : List ℕ) × (take 4 packet ≡ a ++ ((30 ∷ []) ++ c)))))
match_signature_iff_example =
    match_signature_iff search_in search_in-IsContains packet 4 signature (omega arith)
