-- ===== src/Tunnel/Pick.antt =====
-- tcp_tunnel.go: PickConn.
use udplex.Prelude.{
  ℕ, ◌<◌, ◌≡◌, refl, ap, sym, subst, ◌∙◌, ◌⊎◌, inl, inr, Bool, true, false, not, ◌&&◌, ◌||◌,
  Bool-cases, arith, Option, none, some, List, [], ◌∷◌, ltb, leb, length, if◌then◌else◌,
}
use mathlib.Core.Option.{some-injective}
use udplex.Prelude.Int.{ℤ, pos, ◌+ℤ◌, ◌≤ℤ◌, ltb_ℤ, +ℤ_parts}
use udplex.Tunnel.{
  better, pick_from, Conn, Pool, usable, same_pointer, backlog_of, least, cur_ok, choose_conn,
  pick_conn, switch_backlog,
}

-- The pointer stands in the list.
abbrev pub member : Option ℕ → List (Option ℕ) → Bool
member c [] = false
member c (x ∷ xs) = same_pointer x c || member c xs

module _ {R : Type 0} (heap : ℕ → Conn R) where
  -- The loop's candidate so far is usable.
  abbrev IsFine : Option ℕ → Type 0
  IsFine none = Unit
  IsFine (some a) = usable heap (some a) ≡ true

  -- The candidate has at most the backlog of `b`.
  abbrev IsBelow : ℕ → Option ℕ → Type 0
  IsBelow b none = ⊥
  IsBelow b (some a) = backlog_of heap a ≤ℤ backlog_of heap b

  abbrev Least : ℕ → Option ℕ → List (Option ℕ) → Option ℕ → Type 0
  Least b best cs o =
      (r : ℕ) × (o ≡ some r)
      × (usable heap (some r) ≡ true)
      × ((best ≡ some r) ⊎ (member (some r) cs ≡ true))
      × (backlog_of heap r ≤ℤ backlog_of heap b)

module _ {R : Type 0} (heap : ℕ → Conn R) (b : ℕ) (ub : usable heap (some b) ≡ true) where
  split_member :
      (a : ℕ) (cs : List (Option ℕ))
      → member (some b) (some a ∷ cs) ≡ true
      → (a ≡ b) ⊎ (member (some b) cs ≡ true)
  split_member a cs h = ground (arith, h)

  widen :
      (best next : Option ℕ) (a : ℕ) (cs : List (Option ℕ)) (o : Option ℕ)
      → ((next ≡ best) ⊎ (next ≡ some a))
      → Least heap b next cs o
      → Least heap b best (some a ∷ cs) o
  widen best next a cs o n w = (w.0, w.1, w.2, origin n w.3, w.4)
    where
      origin :
          ((next ≡ best) ⊎ (next ≡ some a))
          → ((next ≡ some w.0) ⊎ (member (some w.0) cs ≡ true))
          → (best ≡ some w.0) ⊎ (member (some w.0) (some a ∷ cs) ≡ true)
      origin (inl e) (inl k) = inl (sym e ∙ k)
      origin (inr e) (inl k) =
          let same : a ≡ w.0 = some-injective a w.0 (sym e ∙ k) in inr (ground (arith, same))
      origin n' (inr k) = inr (ground (arith, k))

  -- The candidate after one more connection.
  next_lem :
      (best : Option ℕ) (a : ℕ) (cs : List (Option ℕ))
      → IsFine heap best
      → (IsBelow heap b best ⊎ (member (some b) (some a ∷ cs) ≡ true))
      → (next : Option ℕ) × ((if usable heap (some a) && better heap best a then some a else best)
          ≡ next)
        × IsFine heap next
        × (IsBelow heap b next ⊎ (member (some b) cs ≡ true))
        × ((next ≡ best) ⊎ (next ≡ some a))
  unfolding better
  next_lem best a cs f h = elim (Bool-cases (usable heap (some a))) [
    | inr u ↦ (best, rw u refl, f, passed u h, inl refl)
    | inl u ↦ elim (Bool-cases (better heap best a)) [
      | inl w ↦ (some a, rw (u, w) refl, u, taken best w h, inr refl)
      | inr w ↦ (best, rw (u, w) refl, f, left best w h, inl refl)
    ]
  ]
    where
      passed :
          usable heap (some a) ≡ false
          → (IsBelow heap b best ⊎ (member (some b) (some a ∷ cs) ≡ true))
          → IsBelow heap b best ⊎ (member (some b) cs ≡ true)
      passed u (inl k) = inl k
      passed u (inr m) = elim (split_member a cs m) [
        | inl e ↦ absurd (ground (arith, ub, u, e))
        | inr k ↦ inr k
      ]

      taken :
          (x : Option ℕ)
          → better heap x a ≡ true
          → (IsBelow heap b x ⊎ (member (some b) (some a ∷ cs) ≡ true))
          → IsBelow heap b (some a) ⊎ (member (some b) cs ≡ true)
      taken none w (inl k) = absurd k
      taken (some x) w (inl k) = inl (ground (arith, w, k))
      taken x w (inr m) = elim (split_member a cs m) [
        | inl e ↦ inl (rw e (omega arith))
        | inr k ↦ inr k
      ]

      left :
          (x : Option ℕ)
          → better heap x a ≡ false
          → (IsBelow heap b x ⊎ (member (some b) (some a ∷ cs) ≡ true))
          → IsBelow heap b x ⊎ (member (some b) cs ≡ true)
      left x w (inl k) = inl k
      left none w (inr m) = absurd (ground (arith, w))
      left (some x) w (inr m) = elim (split_member a cs m) [
        | inl e ↦ inl (let e' = ap (backlog_of heap) e in rw (sym e') (ground (arith, w)))
        | inr k ↦ inr k
      ]

  least_lem :
      (best : Option ℕ) (cs : List (Option ℕ))
      → IsFine heap best
      → (IsBelow heap b best ⊎ (member (some b) cs ≡ true))
      → Least heap b best cs (least heap best cs)
  unfolding least
  least_lem none [] f (inl h) = absurd h
  least_lem (some a) [] f (inl h) = (a, refl, f, inl refl, h)
  least_lem best [] f (inr h) = absurd (ground (arith, h))
  least_lem best (none ∷ cs) f h = least_lem best cs f h
  least_lem best (some a ∷ cs) f h =
      let n = next_lem best a cs f h in
      let w = least_lem n.0 cs n.2 n.3 in widen best n.0 a cs _ n.4 (rw n.1 w)

no_nil : {R : Type 0} (heap : ℕ → Conn R) → usable heap none ≡ true → ⊥
unfolding usable
no_nil heap h = ground (arith, h)

slack : (x y : ℤ) (n : ℕ) → x ≤ℤ y → x ≤ℤ y +ℤ pos n
slack x y n h = omega (arith, +ℤ_parts y (pos n))

slack_of : (x y z : ℤ) (n : ℕ) → x ≤ℤ y → ltb_ℤ (x +ℤ pos n) z ≡ false → z ≤ℤ y +ℤ pos n
slack_of x y z n h k =
    let k' : z ≤ℤ x +ℤ pos n = ground (arith, k) in
    omega (arith, +ℤ_parts x (pos n), +ℤ_parts y (pos n))

module _ {R : Type 0} (heap : ℕ → Conn R) where
  cur_ok_lem :
      (cur : ℕ) (cs : List (Option ℕ))
      → cur_ok heap (some cur) cs ≡ true
      → (usable heap (some cur) ≡ true) × (member (some cur) cs ≡ true)
  unfolding cur_ok usable
  cur_ok_lem cur [] h = absurd (ground (arith, h))
  cur_ok_lem cur (none ∷ cs) h = cur_ok_lem cur cs h
  cur_ok_lem cur (some a ∷ cs) h =
      elim (Bool-cases (usable heap (some a) && same_pointer (some a) (some cur))) [
        | inl e ↦
            let same : a ≡ cur = ground (arith, e) in
            let fine : usable heap (some a) ≡ true = ground (arith, e) in
            (subst (λ (x : ℕ). usable heap (some x) ≡ true) same fine, ground (arith, same))
        | inr e ↦
            let k : cur_ok heap (some cur) cs ≡ true = simp e at h in
            let ih = cur_ok_lem cur cs k in (ih.0, ground (arith, ih.1))
      ]

  -- The connection with address `a` carries data at hardly more delay than `b`.
  abbrev IsGood : ℕ → List (Option ℕ) → Option ℕ → Type 0
  IsGood b cs o =
      (a : ℕ) × (o ≡ some a)
      × (usable heap (some a) ≡ true)
      × (member (some a) cs ≡ true)
      × (backlog_of heap a ≤ℤ backlog_of heap b +ℤ pos switch_backlog)

  choose_conn_lem :
      (p : Pool) (reserved : Option ℕ) (cs : List (Option ℕ)) (b : ℕ)
      → usable heap (some b) ≡ true
      → member (some b) cs ≡ true
      → IsGood b cs (choose_conn heap p reserved cs).1
  unfolding choose_conn
  choose_conn_lem p reserved cs b ub h =
      let w = least_lem heap b ub none cs tt (inr h) in
      let origin : member (some w.0) cs ≡ true = ground (arith, w.3) in
      rw (w.1, choose_conn) (with_current w.0 w.2 origin w.4 p.current)
    where
      with_current :
          (best : ℕ)
          → usable heap (some best) ≡ true
          → member (some best) cs ≡ true
          → backlog_of heap best ≤ℤ backlog_of heap b
          → (c : Option ℕ)
          → IsGood b cs
              (elim c as (λ x. Pool × Option ℕ) [
                | none ↦ (record p { current = some best }, some best)
                | some cur ↦
                    if cur_ok heap (some cur) cs
                      && not
                          (ltb_ℤ (backlog_of heap best +ℤ pos switch_backlog) (backlog_of heap cur))
                    then (p, some cur)
                    else (record p { current = some best }, some best)
              ]).1
      with_current best u m l none =
          (best, refl, u, m, slack (backlog_of heap best) (backlog_of heap b) switch_backlog l)
      with_current best u m l (some cur) =
          elim (Bool-cases (
            cur_ok heap (some cur) cs
            && not (ltb_ℤ (backlog_of heap best +ℤ pos switch_backlog) (backlog_of heap cur)))) [
              | inl e ↦
                  let k = cur_ok_lem cur cs (ground (arith, e)) in
                  rw e (
                    cur,
                    refl,
                    k.0,
                    k.1,
                    slack_of (backlog_of heap best) (backlog_of heap b) (backlog_of heap cur)
                        switch_backlog l (ground (arith, e)),
                  )
              | inr e ↦ rw e (
                best,
                refl,
                u,
                m,
                slack (backlog_of heap best) (backlog_of heap b) switch_backlog l,
              )
            ]

  -- Some connection of the list is usable, or the loop of PickConn finds none.
  find_usable :
      (cs : List (Option ℕ))
      → ((b : ℕ) × (usable heap (some b) ≡ true) × (member (some b) cs ≡ true))
        ⊎ (least heap none cs ≡ none)
  unfolding least
  find_usable [] = inr refl
  find_usable (none ∷ cs) = elim (find_usable cs) [ inl w ↦ inl w | inr e ↦ inr e ]
  find_usable (some a ∷ cs) = elim (Bool-cases (usable heap (some a))) [
    | inl u ↦ inl (a, u, ground arith)
    | inr u ↦ elim (find_usable cs) [
      | inl w ↦ inl (w.0, w.1, ground (arith, w.2))
      | inr e ↦ inr (rw u e)
    ]
  ]

  abbrev IsServed : List (Option ℕ) → Option ℕ → Type 0
  IsServed cs o =
      (a : ℕ) × (o ≡ some a) × (usable heap (some a) ≡ true) × (member (some a) cs ≡ true)

  reserved_lem :
      (p : Pool) (b : ℕ) (cs : List (Option ℕ))
      → usable heap (some b) ≡ true
      → IsServed (some b ∷ cs) (choose_conn heap p (some b) cs).1
  unfolding choose_conn
  reserved_lem p b cs ub = elim (find_usable cs) [
    | inl w ↦
        let g = choose_conn_lem p (some b) cs w.0 w.1 w.2 in (g.0, g.1, g.2, ground (arith, g.3))
    | inr e ↦ rw (e, ub, choose_conn) (b, refl, ub, ground arith)
  ]

  pick_from-IsServed :
      (p : Pool) (size priority_size b : ℕ) (priority_conn : Bool) (cs : List (Option ℕ))
      → usable heap (some b) ≡ true
      → member (some b) cs ≡ true
      → IsServed cs (pick_from heap p size priority_size priority_conn cs).1
  unfolding pick_from
  pick_from-IsServed p size ps b pc [] ub h = absurd (ground (arith, h))
  pick_from-IsServed p size ps b pc (first ∷ others) ub h =
      elim (Bool-cases (pc && ltb 0 ps && leb 2 (length (first ∷ others)))) [
        | inr e ↦
            let g = choose_conn_lem p none (first ∷ others) b ub h in rw e (g.0, g.1, g.2, g.3)
        | inl e ↦ elim (Bool-cases (leb size ps && usable heap first)) [
          | inl k ↦ rw (e, k) (small first (ground (arith, k)))
          | inr k ↦ rw (e, k) (large first h)
        ]
      ]
    where
      small : (c : Option ℕ) → usable heap c ≡ true → IsServed (c ∷ others) c
      small none u = absurd (no_nil heap u)
      small (some a) u = (a, refl, u, ground arith)

      large :
          (c : Option ℕ)
          → member (some b) (c ∷ others) ≡ true
          → IsServed (c ∷ others) (choose_conn heap p c others).1
      large none m = let g = choose_conn_lem p none others b ub m in (g.0, g.1, g.2, g.3)
      large (some a) m = elim (split_member heap b ub a others m) [
        | inl same ↦
            reserved_lem p a others (subst (λ (x : ℕ). usable heap (some x) ≡ true) (sym same) ub)
        | inr k ↦
            let g = choose_conn_lem p (some a) others b ub k in (g.0, g.1, g.2, ground (arith, g.3))
      ]

  -- Whenever a connection of the pool is usable, PickConn finds a usable connection of the pool for a
  -- packet of any size, whatever is configured and whatever connection was the last.
  pub pick_conn-IsServed :
      (p : Pool) (size priority_size b : ℕ) (priority_conn : Bool)
      → usable heap (some b) ≡ true
      → member (some b) p.conns ≡ true
      → IsServed p.conns (pick_conn heap p size priority_size priority_conn).1
  unfolding pick_conn
  pick_conn-IsServed p size ps b pc ub h = pick_from-IsServed p size ps b pc p.conns ub h

  -- With a reserved connection, a packet above the priority size is sent on one of the others, if one
  -- of them is usable; and the chosen one has at most 16 KiB more waiting than any usable one of them.
  pub pick_conn-IsGood :
      (p : Pool) (size priority_size b : ℕ) (first : Option ℕ) (others : List (Option ℕ))
      → p.conns ≡ first ∷ others
      → 0 < priority_size
      → priority_size < size
      → usable heap (some b) ≡ true
      → member (some b) others ≡ true
      → IsGood b others (pick_conn heap p size priority_size true).1
  unfolding pick_conn pick_from
  pick_conn-IsGood p size ps b first others e k l ub h =
      let small : leb size ps ≡ false = ground (arith, l) in
      let on : (ltb 0 ps && leb 2 (length (first ∷ others))) ≡ true =
        ground (arith, k, some_length others h) in
      subst (λ cs. IsGood b others (pick_from heap p size ps true cs).1) (sym e)
        (rw (on, small) (choose_conn_lem p first others b ub h))
    where
      some_length : (cs : List (Option ℕ)) → member (some b) cs ≡ true → 0 < length cs
      some_length [] m = absurd (ground (arith, m))
      some_length (c ∷ cs) m = omega arith
