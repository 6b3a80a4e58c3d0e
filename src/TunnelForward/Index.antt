-- ===== src/TunnelForward/Index.antt =====
-- tcp_tunnel_forward.go: the index from connection ids to pools.
use udplex.Prelude.{
  ℕ, ◌≡◌, refl, ◌∙◌, inl, inr, true, false, not, Bool-cases, arith, Option, none, some, ◌==◌,
  if◌then◌else◌,
}
use udplex.Table.{find, number_key, find-keep, find-remove_other}
use udplex.Tunnel.{Pool, connection_count, remove_connection}
use udplex.TunnelForward.{
  Forward, forget_pool, get_pool_by_id, checked_pool, drop_connection, is_empty,
}

-- An entry without those that lead to the pool.
abbrev pub without : ℕ → Option ℕ → Option ℕ
without pool none = none
without pool (some q) = if q == pool then none else some q

-- The pool, if there is one, has connections.
abbrev pub IsLive : Forward → Option ℕ → Type 0
IsLive f none = Unit
IsLive f (some pool) = is_empty (find pool f.pools) ≡ false

-- After the last connection of a pool is gone, no connection id leads to the pool any more, and every id
-- that leads to another pool still does.
pub drop_connection-forgets :
    (f : Forward) (c pool id : ℕ) (p : Pool)
    → find pool f.pools ≡ some p
    → connection_count (remove_connection p (some c)) ≡ 0
    → find id (drop_connection c pool f).conn_index ≡ without pool (find id f.conn_index)
unfolding drop_connection forget_pool
drop_connection-forgets f c pool id p e z =
    let last : (connection_count (remove_connection p (some c)) == 0) ≡ true = ground (arith, z) in
    rw (e, last, drop_connection)
      (find-keep (λ q. not (q == pool)) id f.conn_index ∙ filtered (find id f.conn_index))
  where
    filtered :
        (o : Option ℕ)
        → (elim o as (λ x. Option ℕ) [
          | none ↦ none
          | some q ↦ if not (q == pool) then some q else none
        ])
          ≡ without pool o
    filtered none = refl
    filtered (some q) = elim (Bool-cases (q == pool)) [ inl h ↦ rw h refl | inr h ↦ rw h refl ]

-- A pool that getPoolByID gives for an id has connections, and no other id is touched by the call.
pub get_pool_by_id-IsLive :
    (f : Forward) (id other : ℕ)
    → (id == other) ≡ false
    → IsLive f (get_pool_by_id id f).0
      × (find other (get_pool_by_id id f).1.conn_index ≡ find other f.conn_index)
unfolding get_pool_by_id checked_pool
get_pool_by_id-IsLive f id other d = elim (Bool-cases (id == 0)) [
  | inl z ↦ rw z (tt, refl)
  | inr z ↦ rw z (looked_up (find id f.conn_index))
]
  where
    looked_up :
        (o : Option ℕ)
        → IsLive f
            (elim o as (λ x. Option ℕ × Forward) [
              | none ↦ (none, f)
              | some pool ↦ checked_pool id pool f
            ]).0
          × (find other
                (elim o as (λ x. Option ℕ × Forward) [
                  | none ↦ (none, f)
                  | some pool ↦ checked_pool id pool f
                ]).1.conn_index
              ≡ find other f.conn_index)
    looked_up none = (tt, refl)
    looked_up (some pool) = elim (Bool-cases (is_empty (find pool f.pools))) [
      | inl h ↦ rw (h, checked_pool) (tt, find-remove_other other id f.conn_index d)
      | inr h ↦ rw (h, checked_pool) (h, refl)
    ]
