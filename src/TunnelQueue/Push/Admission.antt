-- ===== src/TunnelQueue/Push/Admission.antt =====
-- tcp_tunnel_queue.go: push as a whole, branch by branch.
use udplex.Prelude.{
  ℕ, suc, ◌+◌, ◌≤◌, ◌≡◌, refl, ◌↔◌, inl, inr, Bool, true, false, Option, some, [], ◌∷◌, arith, ltb,
  Bool-cases, if◌then◌else◌,
}
use udplex.Packet.{Packet}
use udplex.Fifo.{Item, Fifo}
use udplex.Fifo
use udplex.Fifo.View.{contents, push_view, tally-append, count, count-append, no_bytes}
use udplex.TunnelQueue.{Queue, account, give_back, count_overflow, data_bytes}
use udplex.TunnelQueue.Push.{accept, refuse, admit, is_small, push, item_of}
use udplex.TunnelQueue.Push.Room.{evict_lem}
use udplex.TunnelQueue.Invariant.{IsValid, waiting, recount_add}

module _ {R : Type 0} (p : Packet → Bool) where
  -- What a call does to the packets with the property `p`, given that one more came in.
  abbrev pub Keeps : Queue R → Packet → Queue R → Type 0
  Keeps q pkt q' =
      waiting p q' + count p q'.released
      ≡ waiting p q + count p q.released + (if p pkt then 1 else 0)

  -- The item goes into one of the four queues and is accounted.
  accept_control :
      (q : Queue R) (it : Item)
      → IsValid q
      → let r = (accept (record q { control = Fifo.push q.control it }) it).0 in
        IsValid r × Keeps q it.pkt r
  unfolding accept account
  accept_control q it v =
      let w = push_view q.control it v.control in
      (
        record {
          control = w.0;
          priority = v.priority;
          bulk = v.bulk;
          reliable = v.reliable;
          droppable = v.droppable;
          counted = ground (arith, w.3, recount_add q it.wire v);
        },
        ground (arith, w.1, tally-append p (contents q.control) (it ∷ [])),
      )

  accept_priority :
      (q : Queue R) (it : Item)
      → IsValid q
      → let r = (accept (record q { priority = Fifo.push q.priority it }) it).0 in
        IsValid r × Keeps q it.pkt r × (data_bytes r ≡ data_bytes q + it.wire)
  unfolding accept account data_bytes
  accept_priority q it v =
      let w = push_view q.priority it v.priority in
      (
        record {
          control = v.control;
          priority = w.0;
          bulk = v.bulk;
          reliable = v.reliable;
          droppable = v.droppable;
          counted = ground (arith, w.3, recount_add q it.wire v);
        },
        ground (arith, w.1, tally-append p (contents q.priority) (it ∷ [])),
        ground (arith, w.3),
      )

  accept_bulk :
      (q : Queue R) (it : Item)
      → IsValid q
      → it.pkt.no_drop ≡ false
      → let r = (accept (record q { bulk = Fifo.push q.bulk it }) it).0 in
        IsValid r × Keeps q it.pkt r × (data_bytes r ≡ data_bytes q + it.wire)
  unfolding accept account data_bytes
  accept_bulk q it v may_drop =
      let w = push_view q.bulk it v.bulk in
      (
        record {
          control = v.control;
          priority = v.priority;
          bulk = w.0;
          reliable = v.reliable;
          droppable = ground (
            arith,
            v.droppable,
            w.1,
            tally-append (λ pkt. pkt.no_drop) (contents q.bulk) (it ∷ []),
          );
          counted = ground (arith, w.3, recount_add q it.wire v);
        },
        ground (arith, w.1, tally-append p (contents q.bulk) (it ∷ [])),
        ground (arith, w.3),
      )

  accept_reliable :
      (q : Queue R) (it : Item)
      → IsValid q
      → let r = (accept (record q { reliable = Fifo.push q.reliable it }) it).0 in
        IsValid r × Keeps q it.pkt r
  unfolding accept account
  accept_reliable q it v =
      let w = push_view q.reliable it v.reliable in
      (
        record {
          control = v.control;
          priority = v.priority;
          bulk = v.bulk;
          reliable = w.0;
          droppable = v.droppable;
          counted = ground (arith, w.3, recount_add q it.wire v);
        },
        ground (arith, w.1, tally-append p (contents q.reliable) (it ∷ [])),
      )

  refuse_lem :
      (q : Queue R) (pkt : Packet)
      → IsValid q
      → IsValid (refuse q pkt).0 × Keeps q pkt (refuse q pkt).0
  unfolding refuse give_back count_overflow
  refuse_lem q pkt v = (
    record {
      control = v.control;
      priority = v.priority;
      bulk = v.bulk;
      reliable = v.reliable;
      droppable = v.droppable;
      counted = v.counted;
    },
    ground (arith, count-append p q.released (pkt ∷ [])),
  )

  -- With the room made, the packet is taken exactly when it fits.
  admit_lem :
      (q : Queue R) (it : Item)
      → IsValid q
      → it.pkt.no_drop ≡ false
      → let (q', taken) = admit q it in
        IsValid q'
        × Keeps q it.pkt q'
        × ((taken ≡ true) ↔ (data_bytes q + it.wire ≤ q.s.limit))
        × (taken ≡ true → data_bytes q' ≤ q.s.limit)
  unfolding admit accept refuse
  admit_lem q it v may_drop = elim (Bool-cases (ltb q.s.limit (data_bytes q + it.wire))) [
    | inl full ↦
        let r = refuse_lem q it.pkt v in
        rw (full, admit) (r.0, r.1, ((λ e. cc), ground arith), λ e. cc)
    | inr fits ↦ elim (Bool-cases (is_small q it)) [
      | inl small ↦
          let r = accept_priority q it v in
          rw (fits, small, admit)
            (r.0, r.1, ((λ e. ground (arith, fits)), λ e. refl), λ e. ground (arith, fits, r.2))
      | inr large ↦
          let r = accept_bulk q it v may_drop in
          rw (fits, large, admit)
            (r.0, r.1, ((λ e. ground (arith, fits)), λ e. refl), λ e. ground (arith, fits, r.2))
    ]
  ]

  -- What a call returns, with what it does to the packets.
  abbrev pub Pushed :
      Queue R → Packet → Option (Queue R × Bool) → (Queue R → Bool → Type 0) → Type 0
  Pushed q pkt r P =
      (q' : Queue R) × (taken : Bool) × (r ≡ some (q', taken))
      × IsValid q'
      × Keeps q pkt q'
      × P q' taken

  pub push_closed :
      (q : Queue R) (pkt : Packet) (control : Bool) (now : ℕ)
      → IsValid q
      → q.closed ≡ true
      → Pushed q pkt (push q pkt control now) λ q' taken. taken ≡ false
  unfolding push give_back
  push_closed q pkt control now v gone = (
    give_back q pkt,
    false,
    rw (gone, push) refl,
    record {
      control = v.control;
      priority = v.priority;
      bulk = v.bulk;
      reliable = v.reliable;
      droppable = v.droppable;
      counted = v.counted;
    },
    ground (arith, count-append p q.released (pkt ∷ [])),
    refl,
  )

  push_control :
      (q : Queue R) (pkt : Packet) (now : ℕ)
      → IsValid q
      → q.closed ≡ false
      → Pushed q pkt (push q pkt true now) λ q' taken. taken ≡ true
  unfolding push accept
  push_control q pkt now v still =
      let r = accept_control q (item_of pkt now) v in
      (_, true, rw (still, push) refl, r.0, r.1, refl)

  push_keep :
      (q : Queue R) (pkt : Packet) (now : ℕ)
      → IsValid q
      → q.closed ≡ false
      → pkt.no_drop ≡ true
      → Pushed q pkt (push q pkt false now) λ q' taken. taken ≡ true
  unfolding push accept
  push_keep q pkt now v still keep = elim (Bool-cases (is_small q (item_of pkt now))) [
    | inl small ↦
        let r = accept_priority q (item_of pkt now) v in
        (_, true, simp (still, keep, small, push), r.0, r.1, refl)
    | inr large ↦
        let r = accept_reliable q (item_of pkt now) v in
        (_, true, simp (still, keep, large, push), r.0, r.1, refl)
  ]

  -- A droppable data packet is taken exactly when it fits beside the packets that are not bulk;
  -- then the data bytes are within the limit.
  pub push_droppable :
      (q : Queue R) (pkt : Packet) (now : ℕ)
      → IsValid q
      → q.closed ≡ false
      → pkt.no_drop ≡ false
      → Pushed q pkt (push q pkt false now) λ q' taken.
        ((taken ≡ true) ↔ (q.priority.bytes + q.reliable.bytes + pkt.length ≤ q.s.limit))
        × (taken ≡ true → data_bytes q' ≤ q.s.limit)
  unfolding push data_bytes
  push_droppable q pkt now v still may_drop =
      let it = item_of pkt now in
      let (e, ended, out, room) = evict_lem p (suc (Fifo.len q.bulk)) q it.wire v (omega arith) in
      let a = admit_lem e it out.valid may_drop in
      let others : (data_bytes e + it.wire ≤ q.s.limit)
          ↔ (q.priority.bytes + q.reliable.bytes + it.wire ≤ q.s.limit) =
        (
          (λ h. ground (arith, h, out.priority, out.reliable)),
          λ h. ground (arith, h, room, out.priority, out.reliable, no_bytes e.bulk out.valid.bulk),
        ) in
      (
        (admit e it).0,
        (admit e it).1,
        simp (still, may_drop, ended, push),
        a.0,
        ground (arith, a.1, out.control, out.priority, out.reliable, out.moved),
        (
          (
            (λ t. others.0 (rw out.settings at (a.2.0 t))),
            λ h. a.2.1 (rw (← out.settings) at (others.1 h)),
          ),
          λ t. rw out.settings at (a.3 t),
        ),
      )

  -- `push` never panics on a valid queue and leaves it valid. Every packet is accounted for: after
  -- the call the packet that came in and those that waited are waiting or have been given back.
  pub push-IsValid :
      (q : Queue R) (pkt : Packet) (control : Bool) (now : ℕ)
      → IsValid q
      → (q' : Queue R) × (taken : Bool) × (push q pkt control now ≡ some (q', taken))
        × IsValid q'
        × Keeps q pkt q'
  push-IsValid q pkt control now v = elim (Bool-cases q.closed) [
    | inl gone ↦ all control (push_closed q pkt control now v gone)
    | inr still ↦ open_queue control still
  ]
    where
      all :
          (c : Bool) {P : Queue R → Bool → Type 0}
          → Pushed q pkt (push q pkt c now) P
          → (q' : Queue R) × (taken : Bool) × (push q pkt c now ≡ some (q', taken))
            × IsValid q'
            × Keeps q pkt q'
      all c w = (w.0, w.1, w.2, w.3, w.4)

      open_queue :
          (c : Bool)
          → q.closed ≡ false
          → (q' : Queue R) × (taken : Bool) × (push q pkt c now ≡ some (q', taken))
            × IsValid q'
            × Keeps q pkt q'
      open_queue true still = all true (push_control q pkt now v still)
      open_queue false still = elim (Bool-cases pkt.no_drop) [
        | inl keep ↦ all false (push_keep q pkt now v still keep)
        | inr may_drop ↦ all false (push_droppable q pkt now v still may_drop)
      ]
