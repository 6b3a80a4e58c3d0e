-- ===== src/Listen/Admission.antt =====
-- listen.go: which packets the listener routes, and to whom it sends.
use udplex.Prelude.{
  ℕ, ◌≡◌, refl, ap, sym, ◌∙◌, subst, ◌⊎◌, inl, inr, true, false, not, ◌||◌, Bool-cases,
  Option-cases, arith, Option, none, some, List, [], ◌∷◌, ◌==◌, if◌then◌else◌,
}
use mathlib.Core.Option.{some-injective, some-ne-none}
use udplex.Table.{find, put, text_key, number_key, find-put_self, find-put_other}
use udplex.Packet.{Packet, Addr}
use udplex.Listen.{
  Listen, ListenConn, keys, index_by_id, sync_mapping, on_data, is_authenticated, unicast_target,
}
use Prim.Native.String.{String}

-- The mapping at a key, for an id that leads there.
abbrev pub IsMapped : List (String × ListenConn) → ℕ → String → Type 0
IsMapped ms id k = (m : ListenConn) × (find k ms ≡ some m) × (m.conn_id ≡ id)

find_nil : (id : ℕ) → find {A = String} id [] ≡ none
unfolding find
find_nil id = refl

index_by_id-IsMapped :
    (ks : List String) (ms : List (String × ListenConn)) (id : ℕ) (k : String)
    → find id (index_by_id ks ms) ≡ some k
    → IsMapped ms id k
unfolding index_by_id
index_by_id-IsMapped [] ms id k h = absurd (some-ne-none k (sym h ∙ find_nil id))
index_by_id-IsMapped (j ∷ ks) ms id k h = elim (Option-cases (find j ms)) [
  | inl e ↦ index_by_id-IsMapped ks ms id k (simp (e, index_by_id) at h)
  | inr (m, e) ↦
      let h' : find id (put m.conn_id j (index_by_id ks ms)) ≡ some k =
        simp (e, index_by_id) at h in
      elim (Bool-cases (m.conn_id == id)) [
        | inl same ↦
            let at : m.conn_id ≡ id = ground (arith, same) in
            let there : find id (put id j (index_by_id ks ms)) ≡ some k =
              subst (λ (x : ℕ). find id (put x j (index_by_id ks ms)) ≡ some k) at h' in
            let key : j ≡ k =
              some-injective j k (sym (find-put_self id j (index_by_id ks ms)) ∙ there) in
            (m, subst (λ x. find x ms ≡ some m) key e, at)
        | inr other ↦
            index_by_id-IsMapped ks ms id k
              (sym (find-put_other id m.conn_id j (index_by_id ks ms) other) ∙ h')
      ]
]

-- With authentication, a data packet is routed only if its address has an authenticated mapping; the packet
-- then carries that address, and the mapping's connection id unless ids are to be preserved.
pub on_data-authenticated :
    (key : String) (addr : Option Addr) (now : ℕ) (pkt r : Packet) (l : Listen)
    → (on_data key addr now pkt l).1 ≡ some r
    → (m : ListenConn) × (find key l.mappings ≡ some m)
      × (is_authenticated m ≡ true)
      × (r.src_addr ≡ addr)
      × ((r.conn_id ≡ m.conn_id) ⊎ (l.preserve_conn_id ≡ true))
unfolding on_data
on_data-authenticated key addr now pkt r l h = elim (Option-cases (find key l.mappings)) [
  | inl e ↦ absurd (some-ne-none r (sym (simp (e, on_data) at h)))
  | inr (m, e) ↦ elim (Bool-cases (is_authenticated m)) [
    | inr u ↦ absurd (some-ne-none r (sym (simp (e, u, on_data) at h)))
    | inl u ↦
        let id = (if not l.preserve_conn_id || pkt.conn_id == 0 then m.conn_id else pkt.conn_id) in
        let sent : Option Packet = some (record pkt { src_addr = addr; conn_id = id }) in
        let h' : sent ≡ some r = simp (e, u, on_data) at h in
        let same = some-injective (record pkt { src_addr = addr; conn_id = id }) r h' in
        (
          m,
          e,
          u,
          sym (ap (λ x. x.src_addr) same),
          elim (Bool-cases (not l.preserve_conn_id || pkt.conn_id == 0)) [
            | inl c ↦
                let own : id ≡ m.conn_id = rw c refl in inl (sym (ap (λ x. x.conn_id) same) ∙ own)
            | inr c ↦ inr (ground (arith, c))
          ],
        )
  ]
]

-- Without broadcast, after the index has been rebuilt, a packet for a connection id goes to no address but
-- one whose mapping has this id and is authenticated, unless the listener has no authentication.
pub unicast_target-IsMapped :
    (l : Listen) (id : ℕ) (k : String)
    → l.broadcast_mode ≡ false
    → unicast_target id (sync_mapping l) ≡ some k
    → (m : ListenConn) × (find k l.mappings ≡ some m)
      × (m.conn_id ≡ id)
      × ((l.with_auth ≡ false) ⊎ (is_authenticated m ≡ true))
unfolding unicast_target sync_mapping
unicast_target-IsMapped l id k b h = elim (Bool-cases (id == 0)) [
  | inl z ↦ absurd (some-ne-none k (sym (simp z at h)))
  | inr z ↦ elim (Option-cases (find id (index_by_id (keys l.mappings) l.mappings))) [
    | inl e ↦ absurd (some-ne-none k (sym (simp (z, b, e) at h)))
    | inr (j, e) ↦
        let i = index_by_id-IsMapped (keys l.mappings) l.mappings id j e in
        elim (Bool-cases (not l.with_auth || is_authenticated i.0)) [
          | inr u ↦ absurd (some-ne-none k (sym (simp (z, b, e, i.1, u) at h)))
          | inl u ↦
              let h' : some j ≡ some k = simp (z, b, e, i.1, u) at h in
              let key = some-injective j k h' in
              (i.0, subst (λ x. find x l.mappings ≡ some i.0) key i.1, i.2, allowed i.0 u)
        ]
  ]
]
  where
    allowed :
        (m : ListenConn)
        → (not l.with_auth || is_authenticated m) ≡ true
        → (l.with_auth ≡ false) ⊎ (is_authenticated m ≡ true)
    allowed m u = elim (Bool-cases l.with_auth) [
      | inl on ↦ inr (ground (arith, u, on))
      | inr off ↦ inl off
    ]
