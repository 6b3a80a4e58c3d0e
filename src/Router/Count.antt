-- ===== src/Router/Count.antt =====
-- router.go: routePacket, the receivers and the reference counts.
use udplex.Prelude.{
  ℕ, ◌+◌, ◌≤◌, false, true, ◌≡◌, refl, ap, sym, subst, none, some, List, [], ◌∷◌, length, arith,
  map, min, inl, inr, Bool-cases, Option-cases,
}
use udplex.Table.{find, text_key}
use udplex.Packet.{Packet, add_ref, copy}
use udplex.Router.{Components, Component, Delivery, targets_of, dispatch, route_packet}
use Prim.Native.String.{String}
use udplex.Prelude.Int.{ℤ, pos, ◌+ℤ◌}
use text.Mathlib.Text.{◌==◌ as text_eq}

pub receiver : Delivery → ℕ
receiver (Delivery.original c p) = c
receiver (Delivery.copied c p) = c

-- The receivers of the deliveries.
pub receivers : List Delivery → List ℕ
unfolding receiver
receivers ds = map receiver ds

length-receivers : (ds : List Delivery) → length (receivers ds) ≡ length ds
unfolding receivers
length-receivers [] = refl
length-receivers (d ∷ ds) = omega (arith, length-receivers ds)

-- How many deliveries are of the packet itself.
pub originals : List Delivery → ℕ
originals [] = 0
originals (Delivery.original c p ∷ ds) = 1 + originals ds
originals (Delivery.copied c p ∷ ds) = originals ds

-- Each copy counts one reference of its own.
pub CopiesOwn : List Delivery → Type 0
CopiesOwn [] = Unit
CopiesOwn (Delivery.original c p ∷ ds) = CopiesOwn ds
CopiesOwn (Delivery.copied c p ∷ ds) = (p.count ≡ pos 1) × CopiesOwn ds

-- Which components a list of tags names: a tag of the source and a tag without a component name none.
pub data Named (cs : Components) (src : String) : List String → List ℕ → Type 0 where
  none_left : Named cs src [] []
  source :
      (tag : String) {tags : List String} {ts : List ℕ}
      → text_eq tag src ≡ true
      → Named cs src tags ts
      → Named cs src (tag ∷ tags) ts
  unknown :
      (tag : String) {tags : List String} {ts : List ℕ}
      → find tag cs ≡ none
      → Named cs src tags ts
      → Named cs src (tag ∷ tags) ts
  known :
      (tag : String) (c : Component) {tags : List String} {ts : List ℕ}
      → text_eq tag src ≡ false
      → find tag cs ≡ some c
      → Named cs src tags ts
      → Named cs src (tag ∷ tags) (c.number ∷ ts)

targets_of-Named :
    (cs : Components) (src : String) (tags : List String)
    → Named cs src tags (targets_of cs src tags)
unfolding targets_of
targets_of-Named cs src [] = none_left
targets_of-Named cs src (tag ∷ tags) =
    let rest = targets_of-Named cs src tags in
    elim (Bool-cases (text_eq tag src)) [
      | inl e ↦ rw e (source tag e rest)
      | inr e ↦ elim (Option-cases (find tag cs)) [
        | inl f ↦ rw (e, f) (unknown tag f rest)
        | inr (c, f) ↦ rw (e, f) (known tag c e f rest)
      ]
    ]

-- What routing promises about the packet, the packet afterwards and the deliveries.
pub record IsBalanced (p q : Packet) (ds : List Delivery) : Type 0 where
  pub counts : q.count ≡ p.count +ℤ pos (originals ds)
  pub once : originals ds ≡ min 1 (length ds)
  pub own : CopiesOwn ds

plus_none : (a : ℤ) → a ≡ a +ℤ pos 0
unfolding ◌+ℤ◌
plus_none a = ground arith

dispatch-IsBalanced :
    (fresh : List ℕ) (p : Packet) (ts : List ℕ)
    → (receivers (dispatch fresh p ts).1 ≡ ts)
      × IsBalanced p (dispatch fresh p ts).0 (dispatch fresh p ts).1
unfolding dispatch receivers originals CopiesOwn receiver add_ref copy
dispatch-IsBalanced fresh p [] =
    (refl, record { counts = plus_none p.count; once = refl; own = tt })
dispatch-IsBalanced fresh p (c ∷ []) =
    (refl, record { counts = refl; once = omega arith; own = tt })
dispatch-IsBalanced fresh p (c ∷ (d ∷ cs)) =
    let v = dispatch-IsBalanced fresh p (d ∷ cs) in
    let some_left : 1 ≤ length (dispatch fresh p (d ∷ cs)).1 =
      omega (
        arith,
        length-receivers (dispatch fresh p (d ∷ cs)).1,
        ap (λ (x : List ℕ). length x) v.0,
      ) in
    (
      ap (◌∷◌ c) v.0,
      record {
        counts = v.1.counts;
        once = omega (arith, v.1.once, some_left);
        own = (refl, v.1.own);
      },
    )

-- routePacket hands on to what the loop over the tags collects, also where it goes without the loop.
route_packet-targets_of :
    (cs : Components) (fresh : List ℕ) (p : Packet) (tags : List String)
    → route_packet cs fresh p tags ≡ dispatch fresh p (targets_of cs p.src_tag tags)
unfolding route_packet targets_of dispatch
route_packet-targets_of cs fresh p [] = refl
route_packet-targets_of cs fresh p (tag ∷ []) = elim (Bool-cases (text_eq tag p.src_tag)) [
  | inl e ↦ rw e refl
  | inr e ↦ elim (Option-cases (find tag cs)) [
    | inl f ↦ rw (e, f) refl
    | inr (c, f) ↦ rw (e, f) refl
  ]
]
route_packet-targets_of cs fresh p (tag ∷ (tag' ∷ tags)) = refl

-- The packet is handed to exactly the components that the list names, the source excepted, in
-- their order: the packet itself once, with one reference more, if there is one, and copies that count one
-- reference of their own to all others.
pub route_packet-IsBalanced :
    (cs : Components) (fresh : List ℕ) (p : Packet) (tags : List String)
    → let r = route_packet cs fresh p tags in
      Named cs p.src_tag tags (receivers r.1) × IsBalanced p r.0 r.1
route_packet-IsBalanced cs fresh p tags =
    let ts = targets_of cs p.src_tag tags in
    let d = dispatch-IsBalanced fresh p ts in
    subst (λ r. Named cs p.src_tag tags (receivers r.1) × IsBalanced p r.0 r.1)
      (sym (route_packet-targets_of cs fresh p tags))
      (subst (λ x. Named cs p.src_tag tags x) (sym d.0) (targets_of-Named cs p.src_tag tags), d.1)
