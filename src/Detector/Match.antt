-- ===== src/Detector/Match.antt =====
-- protocol_detector.go: what the loops of the matcher decide.
use udplex.Prelude.{
  ℕ, ◌+◌, ◌≡◌, ◌≤◌, ◌↔◌, ◌⊎◌, refl, ap, Bool, true, false, not, ◌&&◌, ◌||◌, Option, none, some,
  List, [], ◌∷◌, ◌++◌, length, drop, take, ltb, ◌==◌, get_or, if◌then◌else◌, arith, inl, inr,
  Bool-cases, length-drop,
}
use Prim.Native.Nat.{bit_and}
use udplex.Detector.{
  LengthMatch, length_ok, bytes_ok, SignatureRule, ProtocolDefinition, bytes_equal, masked_equal,
  match_signature, match_loop, match_protocol,
}
use text.Mathlib.Text.{◌==◌ as text_eq}

-- The bytes under a mask, as far as both go.
abbrev pub masked : List ℕ → List ℕ → List ℕ
masked [] ms = []
masked (x ∷ xs) [] = []
masked (x ∷ xs) (m ∷ ms) = bit_and x m ∷ masked xs ms

-- The given bytes are the pattern, under the mask if there is one.
abbrev pub Same : List ℕ → List ℕ → List ℕ → Type 0
Same [] window pattern = window ≡ pattern
Same (m ∷ ms) window pattern = masked window (m ∷ ms) ≡ masked pattern (m ∷ ms)

-- A bound of 0 is none.
abbrev pub IsWithin : Option LengthMatch → ℕ → Type 0
IsWithin none n = Unit
IsWithin (some l) n =
    ((l.min_length ≡ 0) ⊎ (l.min_length ≤ n)) × ((l.max_length ≡ 0) ⊎ (n ≤ l.max_length))

cons_iff :
    (a b : ℕ) (xs ys : List ℕ) (t : Bool)
    → (t ≡ true) ↔ (xs ≡ ys)
    → ((if a == b then t else false) ≡ true) ↔ (a ∷ xs ≡ b ∷ ys)
cons_iff a b xs ys t same = (
  λ e.
      let at : a ≡ b = ground (arith, e) in
      let rest : t ≡ true = ground (arith, e) in rw at (ap (◌∷◌ b) (same.0 rest)),
  λ e.
      let at : a ≡ b = ap (λ (l : List ℕ). get_or l 0 0) e in
      let rest : t ≡ true = same.1 (ap (λ (l : List ℕ). drop 1 l) e) in
      rw (at, rest) (ground arith),
)

bytes_equal_iff :
    (p xs : List ℕ) → length p ≤ length xs → (bytes_equal xs p ≡ true) ↔ (take (length p) xs ≡ p)
unfolding bytes_equal
bytes_equal_iff [] xs h = (λ e. refl, λ e. refl)
bytes_equal_iff (y ∷ p) [] h = absurd (omega arith)
bytes_equal_iff (y ∷ p) (x ∷ xs) h =
    cons_iff x y (take (length p) xs) p (bytes_equal xs p) (bytes_equal_iff p xs (omega arith))

masked_equal_iff :
    (p ms xs : List ℕ)
    → length p ≤ length xs
    → (masked_equal xs p ms ≡ true) ↔ (masked (take (length p) xs) ms ≡ masked p ms)
unfolding masked_equal
masked_equal_iff [] ms xs h = (λ e. refl, λ e. refl)
masked_equal_iff (y ∷ p) [] [] h = absurd (omega arith)
masked_equal_iff (y ∷ p) (m ∷ ms) [] h = absurd (omega arith)
masked_equal_iff (y ∷ p) [] (x ∷ xs) h = (λ e. refl, λ e. refl)
masked_equal_iff (y ∷ p) (m ∷ ms) (x ∷ xs) h =
    cons_iff (bit_and x m) (bit_and y m) (masked (take (length p) xs) ms) (masked p ms)
      (masked_equal xs p ms) (masked_equal_iff p ms xs (omega arith))

Same-iff :
    (ms p xs : List ℕ)
    → length p ≤ length xs
    → ((if ltb 0 (length ms) then masked_equal xs p ms else bytes_equal xs p) ≡ true)
      ↔ Same ms (take (length p) xs) p
Same-iff [] p xs h = bytes_equal_iff p xs h
Same-iff (m ∷ ms) p xs h =
    let on : ltb 0 (length (m ∷ ms)) ≡ true = ground arith in
    rw on (masked_equal_iff p (m ∷ ms) xs h)

-- The pattern of a signature stands at its offset, within the length.
pub record BytesAt (bytes : List ℕ) (n : ℕ) (sig : SignatureRule) : Type 0 where
  pub inside : sig.offset + length sig.decoded_bytes ≤ n
  pub same :
      Same sig.decoded_mask
        (take (length sig.decoded_bytes) (drop sig.offset bytes))
        sig.decoded_bytes

bytes_ok_iff :
    (bytes : List ℕ) (n : ℕ) (sig : SignatureRule)
    → n ≤ length bytes
    → (bytes_ok bytes n sig ≡ true) ↔ BytesAt bytes n sig
unfolding bytes_ok
bytes_ok_iff bytes n sig h =
    let p = sig.decoded_bytes in
    let there = drop sig.offset bytes in
    let size = length-drop sig.offset bytes in
    (
      λ e.
          let inside : sig.offset + length p ≤ n = ground (arith, e) in
          let fits : ltb n (sig.offset + length p) ≡ false = ground (arith, inside) in
          record {
            inside = inside;
            same =
                (Same-iff sig.decoded_mask p there (omega (arith, size, inside, h))).0
                  (simp (fits, bytes_ok) at e);
          },
      λ v.
          let fits : ltb n (sig.offset + length p) ≡ false = ground (arith, v.inside) in
          rw (fits, bytes_ok)
            ((Same-iff sig.decoded_mask p there (omega (arith, size, v.inside, h))).1 v.same),
    )

length_ok_iff : (l : Option LengthMatch) (n : ℕ) → (length_ok l n ≡ true) ↔ IsWithin l n
unfolding length_ok
length_ok_iff none n = (λ e. tt, λ e. refl)
length_ok_iff (some l) n = (
  λ e. (
    elim (Bool-cases (ltb 0 l.min_length)) [
      | inl a ↦ inr (ground (arith, a, e))
      | inr a ↦ inl (ground (arith, a))
    ],
    elim (Bool-cases (ltb 0 l.max_length)) [
      | inl a ↦ inr (ground (arith, a, e))
      | inr a ↦ inl (ground (arith, a))
    ],
  ),
  λ (a, b). ground (arith, a, b),
)

-- bytes.Contains: whether the second list stands in the first.
abbrev pub IsContains : (List ℕ → List ℕ → Bool) → Type 0
IsContains contains =
    (b p : List ℕ) → (contains b p ≡ true) ↔ ((a : List ℕ) × (c : List ℕ) × (b ≡ a ++ (p ++ c)))

-- Either no test is asked for, or it is passed.
asked_iff {ℓ} :
    {P : Type ℓ} (asked t : Bool)
    → (t ≡ true) ↔ P
    → ((asked && not t) ≡ false) ↔ ((asked ≡ false) ⊎ P)
asked_iff false t same = (λ e. inl refl, λ e. refl)
asked_iff true t same = (
  λ e. inr (same.0 (ground (arith, e))),
  λ e. elim e [ inl x ↦ absurd (ground (arith, x)) | inr x ↦ ground (arith, same.1 x) ],
)

module _ (contains : List ℕ → List ℕ → Bool) where
  -- All the tests together.
  tests_lem :
      (bytes : List ℕ) (n : ℕ) (sig : SignatureRule)
      → let b = sig.has_bytes && not (bytes_ok bytes n sig) in
        let c = sig.has_contains && not (contains (take n bytes) sig.decoded_contains) in
        (match_signature contains bytes n sig ≡ true)
        ↔ ((length_ok sig.length_match n ≡ true) × (b ≡ false) × (c ≡ false))
  unfolding match_signature
  tests_lem bytes n sig = (
    λ e. (ground (arith, e), ground (arith, e), ground (arith, e)),
    λ (a, b, c). ground (arith, a, b, c),
  )

  -- A packet matches a signature exactly when its length is within the bounds that are set, the bytes at
  -- the offset are the given ones, under the mask if there is one and within the length, and the given
  -- pattern stands somewhere within the length; a test that is not asked for is passed.
  pub match_signature_iff :
      IsContains contains
      → (bytes : List ℕ) (n : ℕ) (sig : SignatureRule) → n ≤ length bytes
      → (match_signature contains bytes n sig ≡ true) ↔ (
          IsWithin sig.length_match n
          × ((sig.has_bytes ≡ false) ⊎ BytesAt bytes n sig)
          × ((sig.has_contains ≡ false)
              ⊎ ((a : List ℕ) × (c : List ℕ) × (take n bytes ≡ a ++ (sig.decoded_contains ++ c)))))
  match_signature_iff law bytes n sig h =
      let all = tests_lem bytes n sig in
      let l = length_ok_iff sig.length_match n in
      let b = asked_iff sig.has_bytes (bytes_ok bytes n sig) (bytes_ok_iff bytes n sig h) in
      let c =
        asked_iff sig.has_contains (contains (take n bytes) sig.decoded_contains)
          (law (take n bytes) sig.decoded_contains) in
      (
        λ e. let t = all.0 e in (l.0 t.0, b.0 t.1, c.0 t.2),
        λ (x, y, z). all.1 (l.1 x, b.1 y, c.1 z),
      )

  -- Every signature matches; some signature matches.
  pub all_match : List ℕ → ℕ → List SignatureRule → Bool
  all_match bytes n [] = true
  all_match bytes n (s ∷ ss) = match_signature contains bytes n s && all_match bytes n ss

  pub some_match : List ℕ → ℕ → List SignatureRule → Bool
  some_match bytes n [] = false
  some_match bytes n (s ∷ ss) = match_signature contains bytes n s || some_match bytes n ss

  match_loop_lem :
      (b : Bool) (bytes : List ℕ) (n : ℕ) (ss : List SignatureRule)
      → match_loop contains b bytes n ss
        ≡ (if b then all_match bytes n ss else some_match bytes n ss)
  unfolding match_loop all_match some_match
  match_loop_lem true bytes n [] = refl
  match_loop_lem false bytes n [] = refl
  match_loop_lem true bytes n (s ∷ ss) = ground (arith, match_loop_lem true bytes n ss)
  match_loop_lem false bytes n (s ∷ ss) = ground (arith, match_loop_lem false bytes n ss)

  -- A protocol with signatures matches when all of them do, under the logic "AND", and when one of
  -- them does, under any other; a protocol without signatures never matches.
  pub match_protocol_lem :
      (bytes : List ℕ) (n : ℕ) (def : ProtocolDefinition)
      → match_protocol contains bytes n def ≡ (
          ltb 0 (length def.signatures)
          && (if text_eq def.match_logic "AND"
              then all_match bytes n def.signatures
              else some_match bytes n def.signatures))
  unfolding match_protocol
  match_protocol_lem bytes n def =
      ground (arith, match_loop_lem (text_eq def.match_logic "AND") bytes n def.signatures)
