-- ===== src/Tunnel/Next.antt =====
-- tcp_tunnel.go: GetNextConn.
use udplex.Prelude.{
  ℕ, zero, suc, ◌+◌, ◌-◌, ◌%◌, ◌^◌, ◌≤◌, ◌<◌, ◌≡◌, refl, ap, sym, subst, ◌∙◌, ◌⊎◌, inl, inr, true,
  Bool-cases, Option-cases, arith, Option, none, some, List, [], ◌∷◌, length, get_elem?,
}
use native.Mathlib.Nat.{mod-lt, mod-add-mod, mod-eq_of_lt, add-mod_right}
use udplex.Tunnel.{Conn, Pool, usable, fit, next_loop, get_next_conn}

-- From any start, n steps around a ring of n places come past each place.
ring_reach : (x n i : ℕ) → i < n → (j : ℕ) × (j < n) × ((x + j) % n ≡ i)
ring_reach x n i h =
    let r : x % n < n = mod-lt x (omega arith) in
    elim (split_le (x % n) i) [
      | inl le ↦ (
        i - x % n,
        omega (arith, le),
        sym (mod-add-mod x n (i - x % n))
            ∙ ap (λ (y : ℕ). y % n) (omega (arith, le))
            ∙ mod-eq_of_lt h,
      )
      | inr gt ↦ (
        i + n - x % n,
        omega (arith, gt),
        sym (mod-add-mod x n (i + n - x % n))
            ∙ ap (λ (y : ℕ). y % n) (omega (arith, gt, r))
            ∙ add-mod_right i n
            ∙ mod-eq_of_lt h,
      )
    ]
  where
    split_le : (a b : ℕ) → (a ≤ b) ⊎ (b < a)
    split_le a b = omega arith

get_elem?-bound {ℓ} :
    {A : Type ℓ} (xs : List A) (i : ℕ) (a : A) → get_elem? xs i ≡ some a → i < length xs
get_elem?-bound [] i a h = absurd (ground (arith, h))
get_elem?-bound (x ∷ xs) zero a h = omega arith
get_elem?-bound (x ∷ xs) (suc i) a h = omega (arith, get_elem?-bound xs i a h)

module _ {R : Type 0} (heap : ℕ → Conn R) where
  fit_lem : (e : Option (Option ℕ)) (a : ℕ) → fit heap e ≡ some a → usable heap (some a) ≡ true
  unfolding fit
  fit_lem none a h = absurd (ground (arith, h))
  fit_lem (some c) a h = elim (Bool-cases (usable heap c)) [
    | inl u ↦ let same : c ≡ some a = simp u at h in subst (λ x. usable heap x ≡ true) same u
    | inr u ↦ absurd (ground (arith, h, u))
  ]

  fit-usable :
      (e : Option (Option ℕ)) (b : ℕ)
      → e ≡ some (some b)
      → usable heap (some b) ≡ true
      → fit heap e ≡ some b
  unfolding fit
  fit-usable e b h u = rw (h, u, fit) refl

  -- The outcome of the rounds: a usable connection, or each entry that was visited does not fit.
  abbrev Visited : ℕ → Pool → Option ℕ → Type 0
  Visited rounds p none =
      (j : ℕ)
      → j < rounds
      → fit heap (get_elem? p.conns ((p.index + suc j) % length p.conns)) ≡ none
  Visited rounds p (some a) = usable heap (some a) ≡ true

  next_loop_lem :
      (rounds : ℕ) (p : Pool)
      → p.index + rounds < 2 ^ 32
      → Visited rounds p (next_loop heap rounds p).1
  unfolding next_loop
  next_loop_lem zero p h = λ j k. absurd (omega (arith, k))
  next_loop_lem (suc rounds) p h =
      let q = record p { index = (p.index + 1) % 2 ^ 32 } in
      let i : (p.index + 1) % 2 ^ 32 ≡ p.index + 1 = omega arith in
      let ih = next_loop_lem rounds q (omega (arith, i)) in
      elim (Option-cases (fit heap (get_elem? q.conns (q.index % length q.conns)))) [
        | inr (a, e) ↦
            let hit : (next_loop heap (suc rounds) p).1 ≡ some a = rw (e, next_loop) refl in
            subst (Visited (suc rounds) p) (sym hit) (fit_lem _ a e)
        | inl e ↦
            let miss : (next_loop heap (suc rounds) p).1 ≡ (next_loop heap rounds q).1 =
              rw (e, next_loop) refl in
            subst (Visited (suc rounds) p) (sym miss) (later (next_loop heap rounds q).1 i e ih)
      ]
    where
      later :
          (o : Option ℕ)
          → (p.index + 1) % 2 ^ 32 ≡ p.index + 1
          → fit heap (get_elem? p.conns ((p.index + 1) % 2 ^ 32 % length p.conns)) ≡ none
          → Visited rounds (record p { index = (p.index + 1) % 2 ^ 32 }) o
          → Visited (suc rounds) p o
      later (some a) i e v = v
      later none i e v = visit
        where
          visit :
              (j : ℕ)
              → j < suc rounds
              → fit heap (get_elem? p.conns ((p.index + suc j) % length p.conns)) ≡ none
          visit zero k =
              ap (λ (x : ℕ). fit heap (get_elem? p.conns (x % length p.conns))) (sym i) ∙ e
          visit (suc j) k =
              ap (λ (x : ℕ). fit heap (get_elem? p.conns (x % length p.conns))) (omega (arith, i))
              ∙ v j (omega (arith, k))

  -- While the index does not wrap around, GetNextConn finds a usable connection whenever the pool has one.
  pub get_next_conn-usable :
      (p : Pool) (i b : ℕ)
      → get_elem? p.conns i ≡ some (some b)
      → usable heap (some b) ≡ true
      → p.index + length p.conns < 2 ^ 32
      → (a : ℕ) × ((get_next_conn heap p).1 ≡ some a) × (usable heap (some a) ≡ true)
  unfolding get_next_conn
  get_next_conn-usable p i b e u h =
      found (next_loop heap (length p.conns) p).1 refl (next_loop_lem (length p.conns) p h)
    where
      found :
          (o : Option ℕ)
          → (next_loop heap (length p.conns) p).1 ≡ o
          → Visited (length p.conns) p o
          → (a : ℕ) × ((next_loop heap (length p.conns) p).1 ≡ some a)
            × (usable heap (some a) ≡ true)
      found (some a) k v = (a, k, v)
      found none k v =
          let w =
            ring_reach (p.index + 1) (length p.conns) i (get_elem?-bound p.conns i (some b) e) in
          let at : (p.index + suc w.0) % length p.conns ≡ i =
            ap (λ (x : ℕ). x % length p.conns) (omega arith) ∙ w.2 in
          let passed : fit heap (get_elem? p.conns i) ≡ none =
            ap (λ (x : ℕ). fit heap (get_elem? p.conns x)) (sym at) ∙ v w.0 w.1 in
          absurd (ground (arith, passed, fit-usable (get_elem? p.conns i) b e u))
