-- ===== src/Auth/Data/Sealed.antt =====
-- auth_protocol.go: an encrypted packet from WrapData to UnwrapData.
use udplex.Prelude.{
  ℕ, zero, suc, ◌+◌, ◌-◌, ◌^◌, ◌≤◌, ◌<◌, ◌≡◌, refl, ap, sym, ◌∙◌, true, false, ◌||◌, Bool-cases,
  inl, inr, ◌⊎◌, arith, Option, some, List, [], ◌∷◌, ◌++◌, append_assoc, length, length-append,
  length-take, length-drop, take, drop, ltb, ◌==◌,
}
use udplex.Prelude.Int.{pos, ◌-ℤ◌, ltb_ℤ}
use udplex.Packet.{Packet, get_data, overwrite}
use udplex.Wire.{
  put_be, be, slice, length-put_be, read_be, skip_be, take-exact, take-all, slice_lem,
}
use udplex.Wire.Header.{msg_data, parse_header, write_header_whole}
use udplex.Autorate.Probe.{to_int64, to_int64_small}
use udplex.Auth.Dedup.{Nonce, Dedup, next_nonce, mark_as_used, is_duplicate}
use udplex.Auth.Data.{
  prefix_size, nonce_bytes, nonce_of, make_room, with_prefix, wrapped, unwrapped, sealed,
  wrap_encrypted, opened, unwrap_encrypted, unwrap_data,
}
use udplex.Auth.Data.Layout.{two_writes, drop_first, drop_all_of}

take_past : (n k : ℕ) (xs ys : List ℕ) → length xs ≡ n → take (n + k) (xs ++ ys) ≡ xs ++ take k ys
take_past n k [] ys e = ap (λ (m : ℕ). take m ys) (omega (arith, e))
take_past zero k (x ∷ xs) ys e = absurd (omega (arith, e))
take_past (suc n) k (x ∷ xs) ys e =
    let s : suc n + k ≡ suc (n + k) = omega arith in
    ap (λ (m : ℕ). take m (x ∷ (xs ++ ys))) s ∙ ap (◌∷◌ x) (take_past n k xs ys (omega (arith, e)))

-- The plaintext of a packet.
abbrev pub plaintext : ℕ → Packet → List ℕ
plaintext timestamp p = put_be 8 timestamp ++ (put_be 8 p.conn_id ++ get_data p)

length-plaintext :
    (timestamp : ℕ) (p : Packet) → length (plaintext timestamp p) ≡ 16 + length (get_data p)
length-plaintext timestamp p = omega (
  arith,
  length-append (put_be 8 timestamp) (put_be 8 p.conn_id ++ get_data p),
  length-append (put_be 8 p.conn_id) (get_data p),
  length-put_be 8 timestamp,
  length-put_be 8 p.conn_id,
)

take_plaintext :
    (x y n : ℕ) (xs : List ℕ)
    → take (n + 16) (put_be 8 x ++ (put_be 8 y ++ xs)) ≡ put_be 8 x ++ (put_be 8 y ++ take n xs)
take_plaintext x y n xs =
    ap (λ (m : ℕ). take m (put_be 8 x ++ (put_be 8 y ++ xs))) (omega arith)
    ∙ take_past 8 (8 + n) (put_be 8 x) (put_be 8 y ++ xs) (length-put_be 8 x)
    ∙ ap (λ l. put_be 8 x ++ l) (take_past 8 n (put_be 8 y) xs (length-put_be 8 y))

-- The packet's data lies in its buffer, with room for 16 bytes and one more in front or not less than 16
-- bytes long, and the pool's buffer has room for it.
pub record IsPlaced (fresh : List ℕ) (p : Packet) : Type 0 where
  pub window : p.offset + p.length ≤ length p.buffer
  pub long : (prefix_size < p.offset) ⊎ (prefix_size ≤ p.length)
  pub room : prefix_size + p.length ≤ length fresh

length-get_data :
    (p : Packet) → p.offset + p.length ≤ length p.buffer → length (get_data p) ≡ p.length
unfolding get_data
length-get_data p h =
    omega (arith, length-take p.length (drop p.offset p.buffer), length-drop p.offset p.buffer)

with_prefix_lem :
    (fresh : List ℕ) (timestamp : ℕ) (p : Packet)
    → IsPlaced fresh p
    → (q : Packet) × (with_prefix fresh timestamp p ≡ some q) × (get_data q ≡ plaintext timestamp p)
unfolding with_prefix make_room get_data overwrite
with_prefix_lem fresh timestamp p v = elim (Bool-cases (ltb prefix_size p.offset)) [
  | inl far ↦
      let w =
        two_writes p.buffer (p.offset - 16) timestamp p.conn_id (ground (arith, far, v.window)) in
      (
        record p { offset = p.offset - 16; buffer = w.1; length = p.length + 16 },
        rw (far, w.2, w.3) refl,
        ap (take (p.length + 16)) w.4
            ∙ take_plaintext timestamp p.conn_id p.length (drop (p.offset - 16 + 16) p.buffer)
            ∙ ap
                (λ (o : ℕ).
                  put_be 8 timestamp ++ (put_be 8 p.conn_id ++ take p.length (drop o p.buffer)))
                (ground (arith, far)),
      )
  | inr near ↦
      let bytes = get_data p in
      let n = length-get_data p v.window in
      let front = take 16 fresh in
      let behind = drop (16 + length bytes) fresh in
      let buf = overwrite fresh 16 bytes in
      let nf : length front ≡ 16 = omega (arith, length-take 16 fresh, v.room) in
      let size : length buf ≡ length fresh = omega (
        arith,
        n,
        nf,
        v.room,
        length-append front (bytes ++ behind),
        length-append bytes behind,
        length-drop (16 + length bytes) fresh,
      ) in
      let w = two_writes buf 0 timestamp p.conn_id (omega (arith, size, v.room)) in
      let long : 16 ≤ p.length = elim v.long [
        | inl f ↦ absurd (ground (arith, near, f))
        | inr l ↦ l
      ] in
      let fits : (ltb p.length 16 || ltb (length fresh) (16 + p.length)) ≡ false =
        ground (arith, long, v.room) in
      (
        record p { offset = 0; buffer = w.1; length = p.length + 16 },
        rw (near, fits, w.2, w.3) refl,
        ap (take (p.length + 16)) w.4
            ∙ take_plaintext timestamp p.conn_id p.length (drop (0 + 16) buf)
            ∙ ap (λ l. put_be 8 timestamp ++ (put_be 8 p.conn_id ++ l))
                (ap (take p.length) (drop_all_of 16 front (bytes ++ behind) nf)
                  ∙ ap (λ (m : ℕ). take m (bytes ++ behind)) (sym n)
                  ∙ take-exact bytes behind),
      )
]

-- What is used of AES-GCM: opening with the same nonce gives back what was sealed, which is longer by the
-- overhead.
pub record GcmLaws (seal : Nonce → List ℕ → List ℕ) (open_sealed : Nonce → List ℕ → Option (List ℕ))
    (overhead : ℕ) : Type 0 where
  pub opens : (n : Nonce) (x : List ℕ) → open_sealed n (seal n x) ≡ some x
  pub size : (n : Nonce) (x : List ℕ) → length (seal n x) ≡ length x + overhead

-- The numbers fit the bytes that they are written to.
pub record IsEncodable (timestamp : ℕ) (n : Nonce) (p : Packet) : Type 0 where
  pub time : timestamp < 2 ^ 63
  pub id : p.conn_id < 2 ^ 64
  pub frame : n.frame < 2 ^ 64
  pub seq : n.seq < 2 ^ 32

nonce_of-nonce_bytes :
    (n : Nonce) (rest : List ℕ)
    → n.frame < 2 ^ 64
    → n.seq < 2 ^ 32
    → (nonce_of (nonce_bytes n ++ rest) ≡ n) × (drop 12 (nonce_bytes n ++ rest) ≡ rest)
unfolding nonce_of nonce_bytes
nonce_of-nonce_bytes n rest h k =
    let tail = put_be 4 n.seq ++ rest in
    let whole = append_assoc (put_be 8 n.frame) (put_be 4 n.seq) rest in
    let frame : be (slice (nonce_bytes n ++ rest) 0 8) ≡ n.frame =
      ap (λ l. be (slice l 0 8)) whole ∙ read_be 8 n.frame tail (omega (arith, h)) in
    let seq : be (slice (nonce_bytes n ++ rest) 8 4) ≡ n.seq =
      ap (λ l. be (slice l 8 4)) whole
      ∙ ap be (skip_be 8 n.frame tail 8 4 0 (omega arith))
      ∙ read_be 4 n.seq rest (omega (arith, k)) in
    let nonce : nonce_of (nonce_bytes n ++ rest) ≡ n = rw (frame, seq) refl in
    (
      nonce,
      ap (drop 12) whole
          ∙ drop_first 8 4 (put_be 8 n.frame) tail (length-put_be 8 n.frame)
          ∙ drop_all_of 4 (put_be 4 n.seq) rest (length-put_be 4 n.seq),
    )

length-nonce_bytes : (n : Nonce) → length (nonce_bytes n) ≡ 12
unfolding nonce_bytes
length-nonce_bytes n = omega (
  arith,
  length-append (put_be 8 n.frame) (put_be 4 n.seq),
  length-put_be 8 n.frame,
  length-put_be 4 n.seq,
)

module _ (seal : Nonce → List ℕ → List ℕ) (open_sealed : Nonce → List ℕ → Option (List ℕ))
    (overhead : ℕ) (laws : GcmLaws seal open_sealed overhead) where
  sealed_lem :
      (buffer : List ℕ) (n : Nonce) (c : List ℕ) (p : Packet)
      → 20 + length c ≤ length buffer
      → 12 + length c < 2 ^ 32
      → (r : Packet) × (sealed seal open_sealed overhead buffer n c p ≡ some r)
        × (r.offset ≡ 0)
        × (r.length ≡ 20 + length c)
        × (length r.buffer ≡ 20 + length c)
        × (drop 8 r.buffer ≡ nonce_bytes n ++ c)
        × (parse_header r.buffer
            ≡ some (record { version = 2; msg_type = msg_data; reserved = 0; len = 12 + length c }))
  unfolding sealed
  sealed_lem buffer n c p h k =
      let tail = nonce_bytes n ++ c in
      let body = take 8 buffer ++ tail in
      let nf : length (take 8 buffer) ≡ 8 = omega (arith, length-take 8 buffer) in
      let nt : length tail ≡ 12 + length c =
        omega (arith, length-append (nonce_bytes n) c, length-nonce_bytes n) in
      let nb : length body ≡ 20 + length c =
        omega (arith, nf, nt, length-append (take 8 buffer) tail) in
      let w = write_header_whole body msg_data (12 + length c) (omega (arith, nb)) k in
      let fits : ltb (length buffer) (8 + 12 + length c) ≡ false = ground (arith, h) in
      (
        record p { buffer = w.0; offset = 0; length = length w.0 },
        rw (fits, w.1) refl,
        refl,
        w.3 ∙ nb,
        w.3 ∙ nb,
        w.4 ∙ drop_all_of 8 (take 8 buffer) tail nf,
        w.2,
      )

  opened_lem :
      (now now_ms timeout timestamp : ℕ) (n : Nonce) (p r : Packet) (d : Dedup)
      → IsEncodable timestamp n p
      → now_ms ≤ timestamp + timeout
      → (q : Packet) × (opened seal open_sealed overhead now now_ms timeout n
            (plaintext timestamp p)
            r
            d
          ≡ unwrapped q (mark_as_used now n d))
        × (get_data q ≡ get_data p)
        × (q.conn_id ≡ p.conn_id)
  unfolding opened get_data ◌-ℤ◌
  opened_lem now now_ms timeout timestamp n p r d v h =
      let bytes = get_data p in
      let tail = put_be 8 p.conn_id ++ bytes in
      let plain = put_be 8 timestamp ++ tail in
      let size : length plain ≡ 16 + length bytes = length-plaintext timestamp p in
      let enough : ltb (length plain) 16 ≡ false = ground (arith, size) in
      let time : to_int64 (be (slice plain 0 8)) ≡ pos timestamp =
        ap to_int64 (read_be 8 timestamp tail (omega (arith, v.time)))
        ∙ to_int64_small timestamp v.time in
      let id : be (slice plain 8 8) ≡ p.conn_id =
        ap be (skip_be 8 timestamp tail 8 8 0 (omega arith))
        ∙ read_be 8 p.conn_id bytes (omega (arith, v.id)) in
      let fresh_still : ltb_ℤ (pos timeout) (pos now_ms -ℤ pos timestamp) ≡ false =
        ground (arith, h) in
      (
        record r {
          conn_id = be (slice plain 8 8);
          buffer = plain;
          offset = 16;
          length = length plain - 16;
        },
        rw (enough, time, fresh_still) refl,
        ap (take (length plain - 16)) (
              drop_first 8 8 (put_be 8 timestamp) tail (length-put_be 8 timestamp)
              ∙ drop_all_of 8 (put_be 8 p.conn_id) bytes (length-put_be 8 p.conn_id))
            ∙ take-all (length plain - 16) bytes (omega (arith, size)),
        id,
      )

  wrap_encrypted_lem :
      (fresh buffer c : List ℕ) (fresh_id : Option ℕ) (now timestamp : ℕ) (n : Nonce)
      (p q r : Packet) (d d' : Dedup)
      → with_prefix fresh timestamp p ≡ some q
      → next_nonce fresh_id d ≡ (some n, d')
      → seal n (get_data q) ≡ c
      → (length c == 0) ≡ false
      → sealed seal open_sealed overhead buffer n c q ≡ some r
      → wrap_encrypted seal open_sealed overhead fresh buffer fresh_id now timestamp p d
        ≡ some (wrapped r (mark_as_used now n d'))
  unfolding wrap_encrypted
  wrap_encrypted_lem fresh buffer c fresh_id now timestamp n p q r d d' e f g h k =
      let nonce : (next_nonce fresh_id d).0 ≡ some n = ap (λ x. x.0) f in
      let after : (next_nonce fresh_id d).1 ≡ d' = ap (λ x. x.1) f in
      rw (e, nonce, g, h, k) (ap (λ x. some (wrapped r (mark_as_used now n x))) after)

  unwrap_data_lem :
      (b c plain : List ℕ) (now now_ms timeout : ℕ) (n : Nonce) (r o : Packet) (peer d : Dedup)
      → drop r.offset r.buffer ≡ b
      → r.length ≡ 20 + length c
      → length b ≡ 20 + length c
      → parse_header b
        ≡ some (record { version = 2; msg_type = msg_data; reserved = 0; len = 12 + length c })
      → slice b 8 (12 + length c) ≡ nonce_bytes n ++ c
      → n.frame < 2 ^ 64
      → n.seq < 2 ^ 32
      → 16 + overhead ≤ length c
      → is_duplicate n peer ≡ false
      → open_sealed n c ≡ some plain
      → opened seal open_sealed overhead now now_ms timeout n plain r peer ≡ unwrapped o d
      → unwrap_data seal open_sealed overhead true now now_ms timeout r peer ≡ some (unwrapped o d)
  unfolding unwrap_data unwrap_encrypted
  unwrap_data_lem b c plain now now_ms timeout n r o peer d e l lb h body fits fits' enough g op
        done =
      let k = nonce_of-nonce_bytes n c fits fits' in
      let long : ltb r.length 8 ≡ false = ground (arith, l) in
      let declared : ltb r.length (8 + (12 + length c)) ≡ false = ground (arith, l) in
      let held : ltb (length b) (8 + (12 + length c)) ≡ false = ground (arith, lb) in
      let enough' : ltb (length (nonce_bytes n ++ c)) (12 + 16 + overhead) ≡ false =
        ground (arith, length-append (nonce_bytes n) c, length-nonce_bytes n, enough) in
      rw (long, e, h, declared, e, held, body, enough', k.0, k.1, g, op, e, body, k.0, done) refl

  -- A packet that WrapData has encrypted comes out of the peer's UnwrapData with the same data and the
  -- same connection id, and its nonce is then marked as used: if the packet lies in its buffer and has
  -- more than 16 bytes in front of its data there or at least 16 bytes of data, it fits the buffers of
  -- the pool, its numbers fit their fields, the peer has not seen the nonce, and no more time than the
  -- timeout has passed.
  pub unwrap-wrap_encrypted :
      (fresh buffer : List ℕ) (fresh_id : Option ℕ) (now now' now_ms timeout timestamp : ℕ)
      (n : Nonce) (p : Packet) (d d' peer : Dedup)
      → IsPlaced fresh p
      → IsEncodable timestamp n p
      → 36 + p.length + overhead ≤ length buffer
      → length buffer < 2 ^ 32
      → next_nonce fresh_id d ≡ (some n, d')
      → is_duplicate n peer ≡ false
      → now_ms ≤ timestamp + timeout
      → (w r : Packet) × (wrap_encrypted seal open_sealed overhead fresh buffer fresh_id now
            timestamp p d
          ≡ some (wrapped w (mark_as_used now n d')))
        × (unwrap_data seal open_sealed overhead true now' now_ms timeout w peer
            ≡ some (unwrapped r (mark_as_used now' n peer)))
        × (get_data r ≡ get_data p)
        × (r.conn_id ≡ p.conn_id)
  unwrap-wrap_encrypted fresh buffer fresh_id now now' now_ms timeout timestamp n p d d' peer v e b
        b' f g t =
      let plain = plaintext timestamp p in
      let c = seal n plain in
      let q = with_prefix_lem fresh timestamp p v in
      let np : length plain ≡ 16 + p.length =
        omega (arith, length-plaintext timestamp p, length-get_data p v.window) in
      let nc : length c ≡ 16 + p.length + overhead = omega (arith, np, laws.size n plain) in
      let some_bytes : (length c == 0) ≡ false = ground (arith, nc) in
      let s = sealed_lem buffer n c q.0 (omega (arith, nc, b)) (omega (arith, nc, b, b')) in
      let o = opened_lem now' now_ms timeout timestamp n p s.0 peer e t in
      let body : slice s.0.buffer 8 (12 + length c) ≡ nonce_bytes n ++ c =
        slice_lem s.0.buffer 8 (12 + length c)
        ∙ ap (take (12 + length c)) s.5
        ∙ take-all (12 + length c) (nonce_bytes n ++ c)
            (omega (arith, length-append (nonce_bytes n) c, length-nonce_bytes n)) in
      let whole : drop s.0.offset s.0.buffer ≡ s.0.buffer = ap (λ (i : ℕ). drop i s.0.buffer) s.2 in
      (
        s.0,
        o.0,
        wrap_encrypted_lem fresh buffer c fresh_id now timestamp n p q.0 s.0 d d' q.1 f
            (ap (seal n) q.2) some_bytes s.1,
        unwrap_data_lem s.0.buffer c plain now' now_ms timeout n s.0 o.0 peer
            (mark_as_used now' n peer) whole s.3 s.4 s.6 body e.frame e.seq (omega (arith, nc)) g
            (laws.opens n plain) o.1,
        o.2,
        o.3,
      )
