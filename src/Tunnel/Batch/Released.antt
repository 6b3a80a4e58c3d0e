-- ===== src/Tunnel/Batch/Released.antt =====
-- tcp_tunnel.go: the references of a batch.
use udplex.Prelude.{
  ℕ, zero, suc, ◌+◌, ◌-◌, ◌≡◌, refl, ap, subst, ◌∙◌, Bool, true, false, not, ◌||◌, Bool-cases, inl,
  inr, ◌⊎◌, arith, Option, none, some, List, [], ◌∷◌, ◌++◌, ltb, leb, ◌==◌, if◌then◌else◌, length,
  get_elem?, set, map,
}
use mathlib.Core.Option.{some-injective}
use udplex.Packet.{Packet}
use udplex.Fifo.View.{count, count-append}
use udplex.Tunnel.Batch.{
  Batch, release_slots, release_batch, finish_packet, advance, advance_batch_write, Write,
  WriteError, no_error, timeout_error, other_error, after_write, write_rounds, send_packet_batch,
}

module _ (f : Packet → Bool) where
  -- How many packets with the property `f` the batch still holds.
  abbrev held : List (Option Packet) → ℕ
  held [] = 0
  held (none ∷ ps) = held ps
  held (some p ∷ ps) = (if f p then 1 else 0) + held ps

  abbrev both : Batch → ℕ
  both b = held b.packets + count f b.released

  held-set :
      (ps : List (Option Packet)) (i : ℕ) (p : Packet)
      → get_elem? ps i ≡ some (some p)
      → held ps ≡ held (set ps i none) + (if f p then 1 else 0)
  held-set [] i p h = absurd (ground (arith, h))
  held-set (none ∷ ps) zero p h = absurd (ground (arith, h))
  held-set (some q ∷ ps) zero p h =
      let same : q ≡ p = some-injective q p (some-injective (some q) (some p) h) in
      let e : ◌≡◌ {A = ℕ} (if f q then 1 else 0) (if f p then 1 else 0) =
        ap (λ x. if◌then◌else◌ {A = ℕ} (f x) 1 0) same in
      omega (arith, e)
  held-set (none ∷ ps) (suc i) p h = held-set ps i p h
  held-set (some q ∷ ps) (suc i) p h = omega (arith, held-set ps i p h)

  finish_packet-both :
      (b : Batch) (p : Packet)
      → get_elem? b.packets b.index ≡ some (some p)
      → both (finish_packet b p) ≡ both b
  unfolding finish_packet
  finish_packet-both b p h =
      omega (arith, held-set b.packets b.index p h, count-append f b.released (p ∷ []))

  advance-both : (fuel : ℕ) (b : Batch) (written : ℕ) → both (advance fuel b written) ≡ both b
  unfolding advance
  advance-both zero b written = refl
  advance-both (suc fuel) b written = elim (Bool-cases (written == 0)) [
    | inl z ↦ rw z refl
    | inr z ↦ rw z (slot (get_elem? b.packets b.index) refl (λ c n. advance-both fuel c n))
  ]
    where
      slot :
          (o : Option (Option Packet))
          → get_elem? b.packets b.index ≡ o
          → ((c : Batch) (n : ℕ) → both (advance fuel c n) ≡ both c)
          → both (elim o as (λ x. Batch) [
            | none ↦ b
            | some none ↦ advance fuel (record b { index = b.index + 1; offset = 0 }) written
            | some (some p) ↦
                if leb p.length b.offset
                then advance fuel (finish_packet b p) written
                else if ltb written (p.length - b.offset)
                then record b { offset = b.offset + written }
                else advance fuel (finish_packet b p) (written - (p.length - b.offset))
          ])
            ≡ both b
      slot none e ih = refl
      slot (some none) e ih = ih (record b { index = b.index + 1; offset = 0 }) written
      slot (some (some p)) e ih =
          let done = finish_packet-both b p e in
          elim (Bool-cases (leb p.length b.offset)) [
            | inl h ↦ rw h (ih (finish_packet b p) written ∙ done)
            | inr h ↦ elim (Bool-cases (ltb written (p.length - b.offset))) [
              | inl k ↦ rw (h, k) refl
              | inr k ↦ rw (h, k) (ih (finish_packet b p) (written - (p.length - b.offset)) ∙ done)
            ]
          ]

  release_slots_lem :
      (ps : List (Option Packet)) (released : List Packet)
      → count f (release_slots ps released) ≡ held ps + count f released
  unfolding release_slots
  release_slots_lem [] released = omega arith
  release_slots_lem (none ∷ ps) released = release_slots_lem ps released
  release_slots_lem (some p ∷ ps) released =
      omega (arith, release_slots_lem ps (released ++ (p ∷ [])), count-append f released (p ∷ []))

  release_batch_lem :
      (b : Batch) → ((release_batch b).packets ≡ []) × (count f (release_batch b).released ≡ both b)
  unfolding release_batch
  release_batch_lem b = (refl, release_slots_lem b.packets b.released)

  abbrev Released : Option (Batch × Bool) → ℕ → Type 0
  Released o n =
      (b : Batch) × (go_on : Bool) × (o ≡ some (b, go_on))
      × (b.packets ≡ [])
      × (count f b.released ≡ n)

  -- Whatever a write has come to, the loop releases what is left of the batch, or goes on with it.
  after_write_lem :
      (a : Batch) (w : Write) (rest : Option (Batch × Bool))
      → (Released rest (both a) ⊎ (w.more ≡ false))
      → Released (after_write a w rest) (both a)
  unfolding after_write
  after_write_lem a w rest g = by_error w.error
    where
      ends : (go : Bool) → Released (some (release_batch a, go)) (both a)
      ends go = let r = release_batch_lem a in (release_batch a, go, refl, r.0, r.1)

      goes :
          (more : Bool)
          → (Released rest (both a) ⊎ (more ≡ false))
          → Released (if more then rest else some (release_batch a, true)) (both a)
      goes false g = ends true
      goes true (inl r) = r
      goes true (inr e) = absurd (ground (arith, e))

      by_error :
          (e : WriteError)
          → Released
              (elim e as (λ x. Option (Batch × Bool)) [
                | no_error ↦ if w.more then rest else some (release_batch a, true)
                | timeout_error ↦
                    if w.bytes == 0 || not w.deadline_set
                    then some (release_batch a, false)
                    else if w.more
                    then rest
                    else some (release_batch a, true)
                | other_error ↦ some (release_batch a, false)
              ])
              (both a)
      by_error no_error = goes w.more g
      by_error other_error = ends false
      by_error timeout_error = elim (Bool-cases (w.bytes == 0 || not w.deadline_set)) [
        | inl z ↦ rw z (ends false)
        | inr z ↦ rw z (goes w.more g)
      ]

  advance_batch_write-both : (b : Batch) (n : ℕ) → both (advance_batch_write b n) ≡ both b
  unfolding advance_batch_write
  advance_batch_write-both b n = advance-both (suc (length b.packets)) b n

  write_rounds_lem :
      (b : Batch) (ws : List Write) (w : Write)
      → w.more ≡ false
      → Released (write_rounds b (ws ++ (w ∷ []))) (both b)
  unfolding write_rounds
  write_rounds_lem b [] w h =
      subst (Released (after_write (advance_batch_write b w.bytes) w none))
        (advance_batch_write-both b w.bytes)
        (after_write_lem (advance_batch_write b w.bytes) w none (inr h))
  write_rounds_lem b (v ∷ ws) w h =
      let a = advance_batch_write b v.bytes in
      subst (Released (after_write a v (write_rounds a (ws ++ (w ∷ [])))))
        (advance_batch_write-both b v.bytes)
        (after_write_lem a v (write_rounds a (ws ++ (w ∷ []))) (inl (write_rounds_lem a ws w h)))

  held-map : (ps : List Packet) → held (map {B = Option Packet} some ps) ≡ count f ps
  held-map [] = refl
  held-map (p ∷ ps) = omega (arith, held-map ps)

  -- Whatever the writes of a batch come to, and however far they get, each packet of the batch is released
  -- exactly once by the time sendPacketBatch returns: after the last write, after an error or a
  -- deadline that cannot be set, and without a connection.
  pub send_packet_batch-Released :
      (has_conn first_deadline : Bool) (packets released : List Packet) (ws : List Write)
      (w : Write)
      → w.more ≡ false
      → Released
          (send_packet_batch has_conn first_deadline packets released (ws ++ (w ∷ [])))
          (count f packets + count f released)
  unfolding send_packet_batch
  send_packet_batch-Released has_conn first_deadline [] released ws w h = (
    record { packets = []; index = 0; offset = 0; released = released },
    true,
    refl,
    refl,
    omega arith,
  )
  send_packet_batch-Released has_conn first_deadline (p ∷ ps) released ws w h =
      let b : Batch = record {
        packets = map {B = Option Packet} some (p ∷ ps);
        index = 0;
        offset = 0;
        released = released;
      } in
      let total : both b ≡ count f (p ∷ ps) + count f released =
        ap (λ (n : ℕ). n + count f released) (held-map (p ∷ ps)) in
      let r = release_batch_lem b in
      let e : (length (p ∷ ps) == 0) ≡ false = ground arith in
      elim (Bool-cases has_conn) [
        | inr c ↦ rw (e, c) (release_batch b, true, refl, r.0, r.1 ∙ total)
        | inl c ↦ elim (Bool-cases first_deadline) [
          | inr d ↦ rw (e, c, d) (release_batch b, false, refl, r.0, r.1 ∙ total)
          | inl d ↦
              let g = write_rounds_lem b ws w h in rw (e, c, d) (g.0, g.1, g.2, g.3, g.4 ∙ total)
        ]
      ]
