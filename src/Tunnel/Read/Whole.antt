-- ===== src/Tunnel/Read/Whole.antt =====
-- tcp_tunnel.go: readLoop with its own limits: payloads of up to BufferSize bytes pass the check of the
-- length, and as many bytes are in the buffer behind its offset, the header of a message included.
use udplex.Prelude.{
  ℕ, zero, suc, ◌+◌, ◌-◌, ◌≤◌, ◌≡◌, refl, sym, ◌∙◌, Option-cases, inl, inr, Option, none, some,
  List, [], ◌∷◌, ◌++◌, arith, leb, length, take, drop, get_or, Bool-cases,
}
use mathlib.Core.Option.{some-ne-none}
use udplex.Auth.Challenge.{handshake_size}
use udplex.Wire.Header.{header_size}
use udplex.Tunnel.Read.{
  Mode, Handlers, incomplete, complete, next_frame, dispatch, dispatch_data, expects, on_heartbeat,
  refused, process, read_messages, read_round, read_loop,
}
use udplex.Tunnel.Read.Framing.{Frame-cases, flatten, read_loop_roomy}

module _ {S : Type 0} (H : Handlers S) (mode : Mode) (small large : ℕ) (h : small ≤ large) where
  dispatch-same :
      (s : S) (typ : ℕ) (message : List ℕ)
      → dispatch H mode small s typ message ≡ dispatch H mode large s typ message
  unfolding dispatch dispatch_data expects on_heartbeat
  dispatch-same s typ message = refl

  -- What the smaller limit lets pass, the larger one does.
  next_frame-incomplete :
      (s : S) (bytes : List ℕ) (e : ℕ)
      → next_frame H mode small s bytes ≡ incomplete e
      → next_frame H mode large s bytes ≡ incomplete e
  unfolding next_frame refused
  next_frame-incomplete s bytes e f = ground (arith, f, h)

  next_frame-complete :
      (s : S) (bytes : List ℕ) (t : ℕ)
      → next_frame H mode small s bytes ≡ complete t
      → next_frame H mode large s bytes ≡ complete t
  unfolding next_frame refused
  next_frame-complete s bytes t f = ground (arith, f, h)

  -- A message that has been handled, and the rest of the bytes.
  handled :
      (n : ℕ) (rest : List ℕ) (r : S × List ℕ × ℕ) (o q : Option S)
      → ((s' : S)
          → process H mode small n s' rest ≡ some r
          → process H mode large n s' rest ≡ some r)
      → o ≡ q
      → (elim o as (λ x. Option (S × List ℕ × ℕ)) [
        | none ↦ none
        | some s' ↦ process H mode small n s' rest
      ])
        ≡ some r
      → (elim q as (λ x. Option (S × List ℕ × ℕ)) [
        | none ↦ none
        | some s' ↦ process H mode large n s' rest
      ])
        ≡ some r
  handled n rest r none q ih same k = absurd (some-ne-none r (sym k))
  handled n rest r (some s') q ih same k = rw (sym same) (ih s' k)

  process-wider :
      (n : ℕ) (s : S) (bytes : List ℕ) (r : S × List ℕ × ℕ)
      → process H mode small n s bytes ≡ some r
      → process H mode large n s bytes ≡ some r
  unfolding process
  process-wider zero s bytes r e = absurd (some-ne-none r (sym e))
  process-wider (suc n) s bytes r e = elim (Frame-cases (next_frame H mode small s bytes)) [
    | inl (x, f) ↦ rw (next_frame-incomplete s bytes x f, process) (simp (f, process) at e)
    | inr (inl f) ↦ absurd (some-ne-none r (sym (simp (f, process) at e)))
    | inr (inr (t, f)) ↦
        rw (next_frame-complete s bytes t f, process)
          (handled n (drop t bytes) r (dispatch H mode small s (get_or bytes 1 0) (take t bytes))
            (dispatch H mode large s (get_or bytes 1 0) (take t bytes))
            (λ s' k. process-wider n s' (drop t bytes) r k)
            (dispatch-same s (get_or bytes 1 0) (take t bytes)) (simp (f, process) at e))
  ]

  read_messages-wider :
      (s : S) (bytes : List ℕ) (r : S × List ℕ × ℕ)
      → read_messages H mode small s bytes ≡ some r
      → read_messages H mode large s bytes ≡ some r
  unfolding read_messages
  read_messages-wider s bytes r e = process-wider (suc (length bytes)) s bytes r e

  read_round-wider :
      (capacity : ℕ) (s : S) (pending chunk : List ℕ) (r : S × List ℕ × ℕ)
      → read_round H mode small capacity s pending chunk ≡ some r
      → read_round H mode large capacity s pending chunk ≡ some r
  unfolding read_round
  read_round-wider capacity s pending chunk r e =
      elim (Bool-cases (leb capacity (length pending))) [
        | inl full ↦ absurd (some-ne-none r (sym (simp (full, read_round) at e)))
        | inr room ↦ elim (Option-cases (read_messages H mode small s (pending ++ chunk))) [
          | inl n ↦ absurd (some-ne-none r (sym (simp (room, n, read_round) at e)))
          | inr (x, n) ↦
              rw (room, read_messages-wider s (pending ++ chunk) x n, read_round)
                (simp (room, n, read_round) at e)
        ]
      ]

  read_loop-wider :
      (capacity : ℕ) (s : S) (pending : List ℕ) (expected : ℕ) (chunks : List (List ℕ))
      (r : S × List ℕ × ℕ)
      → read_loop H mode small capacity s pending expected chunks ≡ some r
      → read_loop H mode large capacity s pending expected chunks ≡ some r
  unfolding read_loop
  read_loop-wider capacity s pending expected [] r e = e
  read_loop-wider capacity s pending expected (chunk ∷ chunks) r e =
      elim (Option-cases (read_round H mode small capacity s pending chunk)) [
        | inl n ↦ absurd (some-ne-none r (sym (simp (n, read_loop) at e)))
        | inr ((s', rest, expected'), n) ↦
            rw (read_round-wider capacity s pending chunk (s', rest, expected') n, read_loop)
              (read_loop-wider capacity s' rest expected' chunks r (simp (n, read_loop) at e))
      ]

-- If one pass over the whole stream with messages of at most BufferSize bytes, header included, does not
-- end the connection, then readLoop, with its buffer of BufferSize bytes and its limit of BufferSize on
-- the payload, ends in the same state with the same bytes left over, however the stream is cut into
-- reads; and so does one pass with its own limit.
pub read_loop-flatten :
    {S : Type 0} (H : Handlers S) (mode : Mode) (buffer_size : ℕ) (s : S) (chunks : List (List ℕ))
    (r : S × List ℕ × ℕ)
    → handshake_size + header_size ≤ buffer_size
    → read_messages H mode (buffer_size - header_size) s (flatten chunks) ≡ some r
    → (read_loop H mode buffer_size buffer_size s [] 0 chunks ≡ some r)
      × (read_messages H mode buffer_size s (flatten chunks) ≡ some r)
read_loop-flatten H mode buffer_size s chunks r h e =
    let small = buffer_size - header_size in
    let below : small ≤ buffer_size = omega arith in
    let kept =
      read_loop_roomy H mode small buffer_size s chunks (omega (arith, h)) (omega (arith, h)) in
    (
      read_loop-wider H mode small buffer_size below buffer_size s [] 0 chunks r (kept ∙ e),
      read_messages-wider H mode small buffer_size below s (flatten chunks) r e,
    )
