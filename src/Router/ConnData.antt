-- ===== src/Router/ConnData.antt =====
-- router.go: the data that components keep for a connection. The snapshot is never changed in
-- place, so each operation is one step from the old map to the new one.
use udplex.Prelude.{
  ℕ, ◌⊎◌, subst, ◌≡◌, refl, sym, ◌∙◌, ap, false, ◌&&◌, Option, none, some, List, [], ◌∷◌, ◌==◌,
  if◌then◌else◌, arith, inl, inr, Bool-cases, Option-cases,
}
use udplex.Table.{
  find, put, remove, number_key, text_key, find-put_self, find-put_other, find-remove_self,
  find-remove_other,
}
use Prim.Native.String.{String}
use text.Mathlib.TextEquality.{eq_iff}
use text.Mathlib.Text.{◌==◌ as text_eq}

List-cases : {A : Type 0} (xs : List A) → (xs ≡ []) ⊎ ((y : A) × (ys : List A) × (xs ≡ y ∷ ys))
List-cases [] = inl refl
List-cases (y ∷ ys) = inr (y, ys, refl)

module _ {D : Type 0} where
  -- connData[tag] of the entry, which may be missing
  pub get_conn_data : ℕ → String → List (ℕ × List (String × D)) → Option D
  get_conn_data id tag pool = elim (find id pool) [ none ↦ none | some e ↦ find tag e ]

  -- cloneConnDataEntry: the clone of a missing entry is an empty one.
  entry_of : Option (List (String × D)) → List (String × D)
  entry_of none = []
  entry_of (some e) = e

  pub set_conn_data : ℕ → String → D → List (ℕ × List (String × D)) → List (ℕ × List (String × D))
  set_conn_data id tag d pool = put id (put tag d (entry_of (find id pool))) pool

  pub remove_conn_data : ℕ → String → List (ℕ × List (String × D)) → List (ℕ × List (String × D))
  remove_conn_data id tag pool = elim (find id pool) [
    | none ↦ pool
    | some e ↦ elim (remove tag e) [ [] ↦ remove id pool | x ∷ xs ↦ put id (x ∷ xs) pool ]
  ]

  get_lem :
      (id : ℕ) (tag : String) (pool : List (ℕ × List (String × D))) {o : Option (List (String × D))}
      → find id pool ≡ o
      → get_conn_data id tag pool ≡ find tag (entry_of o)
  unfolding entry_of get_conn_data find
  get_lem id tag pool {o = none} h = rw (h, get_conn_data) refl
  get_lem id tag pool {o = some e} h = rw (h, get_conn_data) refl

  find-put_if :
      (tag tag' : String) (d : D) (e : List (String × D))
      → find tag' (put tag d e) ≡ (if text_eq tag tag' then some d else find tag' e)
  find-put_if tag tag' d e = elim (Bool-cases (text_eq tag tag')) [
    | inl h ↦
        let at : tag ≡ tag' = (eq_iff tag tag').0 h in
        ap (λ x. find x (put tag d e)) (sym at) ∙ find-put_self tag d e ∙ rw h refl
    | inr h ↦ find-put_other tag' tag d e h ∙ rw h refl
  ]

  find-remove_if :
      (tag tag' : String) (e : List (String × D))
      → find tag' (remove tag e) ≡ (if text_eq tag tag' then none else find tag' e)
  find-remove_if tag tag' e = elim (Bool-cases (text_eq tag tag')) [
    | inl h ↦
        let at : tag ≡ tag' = (eq_iff tag tag').0 h in
        ap (λ x. find x (remove tag e)) (sym at) ∙ find-remove_self tag e ∙ rw h refl
    | inr h ↦ find-remove_other tag' tag e h ∙ rw h refl
  ]

  get-set_self :
      (id : ℕ) (tag tag' : String) (d : D) (pool : List (ℕ × List (String × D)))
      → get_conn_data id tag' (set_conn_data id tag d pool)
        ≡ (if text_eq tag tag' then some d else get_conn_data id tag' pool)
  unfolding set_conn_data entry_of put
  get-set_self id tag tag' d pool =
      let old = entry_of (find id pool) in
      get_lem id tag' (set_conn_data id tag d pool) (find-put_self id (put tag d old) pool)
      ∙ find-put_if tag tag' d old
      ∙ ap (λ (o : Option D). if text_eq tag tag' then some d else o)
          (sym (get_lem id tag' pool refl))

  -- The entry of the connection loses the tag; an empty entry goes.
  entry-remove :
      (id : ℕ) (tag : String) (pool : List (ℕ × List (String × D)))
      → entry_of (find id (remove_conn_data id tag pool)) ≡ remove tag (entry_of (find id pool))
  unfolding remove_conn_data entry_of remove
  entry-remove id tag pool = elim (Option-cases (find id pool)) [
    | inl e ↦ rw (e, remove_conn_data, e) refl
    | inr (x, e) ↦ elim (List-cases (remove tag x)) [
      | inl r ↦ rw (e, remove_conn_data, r, find-remove_self id pool, entry_of) refl
      | inr (y, ys, r) ↦ rw (e, remove_conn_data, r, find-put_self id (y ∷ ys) pool, entry_of) refl
    ]
  ]

  find-remove_conn_other :
      (id id' : ℕ) (tag : String) (pool : List (ℕ × List (String × D)))
      → (id == id') ≡ false
      → find id' (remove_conn_data id tag pool) ≡ find id' pool
  unfolding remove_conn_data
  find-remove_conn_other id id' tag pool d = elim (Option-cases (find id pool)) [
    | inl e ↦ rw (e, remove_conn_data) refl
    | inr (x, e) ↦ elim (List-cases (remove tag x)) [
      | inl r ↦ rw (e, remove_conn_data, r) (find-remove_other id' id pool d)
      | inr (y, ys, r) ↦ rw (e, remove_conn_data, r) (find-put_other id' id (y ∷ ys) pool d)
    ]
  ]

  get-remove_self :
      (id : ℕ) (tag tag' : String) (pool : List (ℕ × List (String × D)))
      → get_conn_data id tag' (remove_conn_data id tag pool)
        ≡ (if text_eq tag tag' then none else get_conn_data id tag' pool)
  get-remove_self id tag tag' pool =
      get_lem id tag' (remove_conn_data id tag pool) refl
      ∙ ap (find tag') (entry-remove id tag pool)
      ∙ find-remove_if tag tag' (entry_of (find id pool))
      ∙ ap (λ (o : Option D). if text_eq tag tag' then none else o)
          (sym (get_lem id tag' pool refl))

  -- What is set for a connection and a tag is read back, and what any other connection or tag has
  -- stays as it is.
  pub get-set :
      (id id' : ℕ) (tag tag' : String) (d : D) (pool : List (ℕ × List (String × D)))
      → get_conn_data id' tag' (set_conn_data id tag d pool)
        ≡ (if id == id' && text_eq tag tag' then some d else get_conn_data id' tag' pool)
  unfolding set_conn_data
  get-set id id' tag tag' d pool = elim (Bool-cases (id == id')) [
    | inr h ↦
        get_lem id' tag' (set_conn_data id tag d pool) (find-put_other id' id _ pool h)
        ∙ sym (get_lem id' tag' pool refl)
        ∙ rw h refl
    | inl h ↦
        let at : id ≡ id' = ground arith in
        subst
          (λ x.
            get_conn_data x tag' (set_conn_data id tag d pool)
            ≡ (if text_eq tag tag' then some d else get_conn_data x tag' pool))
          at (get-set_self id tag tag' d pool)
        ∙ rw h refl
  ]

  -- What is removed for a connection and a tag is gone, and what any other connection or tag has
  -- stays as it is.
  pub get-remove :
      (id id' : ℕ) (tag tag' : String) (pool : List (ℕ × List (String × D)))
      → get_conn_data id' tag' (remove_conn_data id tag pool)
        ≡ (if id == id' && text_eq tag tag' then none else get_conn_data id' tag' pool)
  get-remove id id' tag tag' pool = elim (Bool-cases (id == id')) [
    | inr h ↦
        get_lem id' tag' (remove_conn_data id tag pool) (find-remove_conn_other id id' tag pool h)
        ∙ sym (get_lem id' tag' pool refl)
        ∙ rw h refl
    | inl h ↦
        let at : id ≡ id' = ground arith in
        subst
          (λ x.
            get_conn_data x tag' (remove_conn_data id tag pool)
            ≡ (if text_eq tag tag' then none else get_conn_data x tag' pool))
          at (get-remove_self id tag tag' pool)
        ∙ rw h refl
  ]
