-- ===== src/Table.antt =====
-- Go's `map`, as an association list: the first entry of a key counts. Byte arrays of a fixed length
-- are keys by the number that they spell.
use udplex.Prelude.{
  ℕ, ◌≡◌, refl, ◌∙◌, ◌↔◌, Bool, true, false, Option, none, some, List, [], ◌∷◌, ==_iff,
  if◌then◌else◌, inl, inr, Bool-cases,
}
use udplex.Prelude.{◌==◌ as nat_eq}
use Prim.Native.String.{String}
use text.Mathlib.Text.{◌==◌ as text_eq}
use text.Mathlib.TextEquality.{eq_iff}

-- What a key has to offer: a test that is equality.
pub record Key (K : Type 0) : Type 0 where
  pub same : K → K → Bool
  pub same_iff : (a b : K) → (same a b ≡ true) ↔ (a ≡ b)

instance abbrev pub number_key : Key ℕ
number_key = record { same = λ a b. nat_eq a b; same_iff = ==_iff }

instance abbrev pub text_key : Key String
text_key = record { same = λ a b. text_eq a b; same_iff = eq_iff }

module _ {K : Type 0} ⦃e : Key K⦄ where
  pub same_self : (k : K) → e.same k k ≡ true
  same_self k = (e.same_iff k k).1 refl

module _ {ℓ} {K : Type 0} {A : Type ℓ} ⦃e : Key K⦄ where
  -- `v, ok := m[k]`
  unfoldable pub find : K → List (K × A) → Option A
  find k [] = none
  find k ((j, v) ∷ m) = if e.same j k then some v else find k m

  -- `delete(m, k)`
  unfoldable pub remove : K → List (K × A) → List (K × A)
  remove k [] = []
  remove k ((j, v) ∷ m) = let rest = remove k m in if e.same j k then rest else (j, v) ∷ rest

  -- `m[k] = v`
  unfoldable pub put : K → A → List (K × A) → List (K × A)
  put k v m = (k, v) ∷ remove k m

  -- What a loop over the map leaves that deletes the keys whose value fails the test.
  pub keep : (A → Bool) → List (K × A) → List (K × A)
  keep p [] = []
  keep p ((j, v) ∷ m) = let rest = keep p m in if p v then (j, v) ∷ rest else remove j rest

  pub find-remove_self : (k : K) (m : List (K × A)) → find k (remove k m) ≡ none
  unfolding find remove
  find-remove_self k [] = refl
  find-remove_self k ((j, v) ∷ m) = elim (Bool-cases (e.same j k)) [
    | inl h ↦ rw h (find-remove_self k m)
    | inr h ↦ rw (h, h) (find-remove_self k m)
  ]

  pub find-remove_other :
      (k j : K) (m : List (K × A)) → e.same j k ≡ false → find k (remove j m) ≡ find k m
  unfolding find remove
  find-remove_other k j [] d = refl
  find-remove_other k j ((i, v) ∷ m) d = elim (Bool-cases (e.same i j)) [
    | inl h ↦ let at : i ≡ j = (e.same_iff i j).0 h in rw (h, at, d) (find-remove_other k j m d)
    | inr h ↦ rw (h, find-remove_other k j m d)
  ]

  pub find-put_self : (k : K) (v : A) (m : List (K × A)) → find k (put k v m) ≡ some v
  unfolding find put
  find-put_self k v m = rw (same_self k)

  pub find-put_other :
      (k j : K) (v : A) (m : List (K × A)) → e.same j k ≡ false → find k (put j v m) ≡ find k m
  unfolding find put
  find-put_other k j v m d = rw d (find-remove_other k j m d)

  pub find-keep :
      (p : A → Bool) (k : K) (m : List (K × A))
      → find k (keep p m) ≡ elim (find k m) [ none ↦ none | some v ↦ if p v then some v else none ]
  unfolding find keep
  find-keep p k [] = refl
  find-keep p k ((j, v) ∷ m) = elim (Bool-cases (e.same j k)) [
    | inl h ↦
        let at : j ≡ k = (e.same_iff j k).0 h in
        elim (Bool-cases (p v)) [
          | inl q ↦ rw (q, h, q) refl
          | inr q ↦ rw (q, h, at, q) (find-remove_self k (keep p m))
        ]
    | inr h ↦ elim (Bool-cases (p v)) [
      | inl q ↦ rw (q, h) (find-keep p k m)
      | inr q ↦ rw (q, h) (find-remove_other k j (keep p m) h ∙ find-keep p k m)
    ]
  ]
