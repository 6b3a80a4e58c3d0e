-- ===== src/Auth/Challenge/Handshake.antt =====
-- auth_protocol.go: a challenge from CreateAuthChallenge to ProcessAuthChallenge.
use udplex.Prelude.{
  ℕ, ◌+◌, ◌^◌, ◌≤◌, ◌<◌, ◌≡◌, refl, ◌∙◌, sym, ap, true, false, none, some, List, [], ◌∷◌, ltb,
  arith, length, length-append, length-take, length-drop, take, drop, ◌++◌, take-append-drop,
}
use udplex.Prelude.Int.{pos, ◌-ℤ◌, ltb_ℤ}
use udplex.Wire.{put_be, be, slice, length-put_be, be-put_be}
use udplex.Wire.Header.{Header, header_size, protocol_version, parse_header, write_header_whole}
use udplex.Autorate.Probe.{to_int64, to_int64_small}
use udplex.Table.{find, put, number_key}
use udplex.Auth.Challenge.{
  Manager, accepted, same_bytes, put_challenge, create_auth_challenge, is_replayed,
  process_auth_challenge,
}
use udplex.Auth.Challenge.Layout.{copy_at-behind, parse_header-front, AreFields, fields_stand}

same_bytes_refl : (xs : List ℕ) → same_bytes xs xs ≡ true
unfolding same_bytes
same_bytes_refl [] = refl
same_bytes_refl (x ∷ xs) = ground (arith, same_bytes_refl xs)

-- HMAC-SHA256 gives 32 bytes.
abbrev pub IsMac : (List ℕ → List ℕ) → Type 0
IsMac mac_of = (x : List ℕ) → length (mac_of x) ≡ 32

module _ (mac_of : List ℕ → List ℕ) (mac_size : IsMac mac_of) where
  -- The message as it is written.
  put_challenge_lem :
      (head rest c f p t : List ℕ)
      → length head ≡ 8
      → 88 ≤ length rest
      → AreFields c f p
      → length t ≡ 8
      → (tail : List ℕ) × (put_challenge mac_of (head ++ rest) c f p t
          ≡ some (((((head ++ c) ++ f) ++ p) ++ t) ++ mac_of (c ++ (f ++ (p ++ t))) ++ tail))
  unfolding put_challenge
  put_challenge_lem head rest c f p t e h v k =
      let m = mac_of (c ++ (f ++ (p ++ t))) in
      let r1 = drop (length c) rest in
      let r2 = drop (length f) r1 in
      let r3 = drop (length p) r2 in
      let r4 = drop (length t) r3 in
      let n1 : 56 ≤ length r1 = omega (arith, length-drop (length c) rest, v.challenge_size, h) in
      let n2 : 48 ≤ length r2 = omega (arith, length-drop (length f) r1, v.forward_size, n1) in
      let n3 : 40 ≤ length r3 = omega (arith, length-drop (length p) r2, v.pool_size, n2) in
      let n4 : 32 ≤ length r4 = omega (arith, length-drop (length t) r3, k, n3) in
      let l1 : length (head ++ c) ≡ 40 = omega (arith, length-append head c, e, v.challenge_size) in
      let l2 : length ((head ++ c) ++ f) ≡ 48 =
        omega (arith, length-append (head ++ c) f, l1, v.forward_size) in
      let l3 : length (((head ++ c) ++ f) ++ p) ≡ 56 =
        omega (arith, length-append ((head ++ c) ++ f) p, l2, v.pool_size) in
      let l4 : length ((((head ++ c) ++ f) ++ p) ++ t) ≡ 64 =
        omega (arith, length-append (((head ++ c) ++ f) ++ p) t, l3, k) in
      (
        drop (length m) r4,
        rw
            (
              copy_at-behind head rest c 8 e (omega (arith, h, v.challenge_size)),
              copy_at-behind (head ++ c) r1 f 40 l1 (omega (arith, n1, v.forward_size)),
              copy_at-behind ((head ++ c) ++ f) r2 p 48 l2 (omega (arith, n2, v.pool_size)),
              copy_at-behind (((head ++ c) ++ f) ++ p) r3 t 56 l3 (omega (arith, n3, k)),
              copy_at-behind ((((head ++ c) ++ f) ++ p) ++ t) r4 m 64 l4
                  (omega (arith, n4, mac_size (c ++ (f ++ (p ++ t))))),
            )
            refl,
      )

  -- A payload whose fields are those, with the MAC of the first four, is accepted.
  fields_accepted :
      (now later : ℕ) (bytes c f p : List ℕ) (server : Manager)
      → length bytes ≡ 88
      → slice bytes 0 32 ≡ c
      → slice bytes 32 8 ≡ f
      → slice bytes 40 8 ≡ p
      → slice bytes 48 8 ≡ put_be 8 now
      → slice bytes 56 32 ≡ mac_of (c ++ (f ++ (p ++ put_be 8 now)))
      → now < 2 ^ 63
      → find (be c) server.challenge_cache ≡ none
      → later ≤ now + server.auth_timeout
      → (process_auth_challenge mac_of later bytes server).0 ≡ accepted f p
  unfolding process_auth_challenge is_replayed ◌-ℤ◌
  fields_accepted now later bytes c f p server n ec ef ep et em fits unknown in_time =
      let m = mac_of (c ++ (f ++ (p ++ put_be 8 now))) in
      let long : ltb (length bytes) 88 ≡ false = ground (arith, n) in
      let time : to_int64 (be (put_be 8 now)) ≡ pos now =
        ap to_int64 (be-put_be 8 now (omega (arith, fits))) ∙ to_int64_small now fits in
      let young : ltb_ℤ (pos server.auth_timeout) (pos later -ℤ pos now) ≡ false =
        ground (arith, in_time) in
      let new : is_replayed mac_of later (be c) server ≡ false = rw (unknown, is_replayed) refl in
      rw (long, ec, ef, ep, et, em, new, time, young, same_bytes_refl m) refl

  -- A challenge that CreateAuthChallenge has written, cut out of the buffer by the length in its header, is
  -- accepted with its ids by a manager with the same key that does not know it, up to the timeout after
  -- it was made: if the buffer has room, the fields have their sizes and the time fits.
  pub created_is_accepted :
      (now later msg_type : ℕ) (c f p buffer : List ℕ) (client server : Manager)
      → 96 ≤ length buffer
      → AreFields c f p
      → now < 2 ^ 63
      → find (be c) server.challenge_cache ≡ none
      → later ≤ now + server.auth_timeout
      → (b : List ℕ) × (sent : Manager) × (h : Header) × (create_auth_challenge mac_of now c
            msg_type f p buffer client
          ≡ some (b, 96, sent))
        × (parse_header b ≡ some h)
        × (h.msg_type ≡ msg_type)
        × ((process_auth_challenge mac_of later (slice b header_size h.len) server).0
            ≡ accepted f p)
  unfolding create_auth_challenge
  created_is_accepted now later msg_type c f p buffer client server room v fits unknown in_time =
      let w = write_header_whole buffer msg_type 88 (omega (arith, room)) (omega arith) in
      let head = take 8 w.0 in
      let t = put_be 8 now in
      let m = mac_of (c ++ (f ++ (p ++ t))) in
      let nh : length head ≡ 8 = omega (arith, length-take 8 w.0, w.3, room) in
      let nr : 88 ≤ length (drop 8 w.0) = omega (arith, length-drop 8 w.0, w.3, room) in
      let q = put_challenge_lem head (drop 8 w.0) c f p t nh nr v (length-put_be 8 now) in
      let whole = ((((head ++ c) ++ f) ++ p) ++ t) ++ m ++ q.0 in
      let written : put_challenge mac_of w.0 c f p t ≡ some whole =
        ap (λ (x : List ℕ). put_challenge mac_of x c f p t) (sym (take-append-drop 8 w.0)) ∙ q.1 in
      let st = fields_stand head c f p t m q.0 nh v (length-put_be 8 now) (mac_size _) in
      let parsed = parse_header-front head (c ++ (f ++ (p ++ (t ++ (m ++ q.0))))) nh in
      let original = parse_header-front head (drop 8 w.0) nh in
      (
        whole,
        record client { challenge_cache = put (be c) now client.challenge_cache },
        record { version = protocol_version; msg_type = msg_type; reserved = 0; len = 88 },
        rw (w.1, written) refl,
        ap parse_header st.front
            ∙ parsed
            ∙ sym original
            ∙ ap parse_header (take-append-drop 8 w.0)
            ∙ w.2,
        refl,
        fields_accepted now later (slice whole 8 88) c f p server st.size st.challenge st.forward_id
            st.pool_id st.timestamp st.mac fits unknown in_time,
      )
