-- ===== src/Tunnel/Read/Framing.antt =====
-- tcp_tunnel.go: readLoop over a stream that arrives in pieces.
use udplex.Prelude.{
  ◌⊎◌, ℕ, zero, suc, ◌+◌, ◌≤◌, ◌<◌, ◌≡◌, refl, ap, sym, subst, ◌∙◌, false, Option-cases, inl, inr,
  Option, none, some, List, [], ◌∷◌, ◌++◌, append_assoc, append-nil, arith, leb, ◌==◌, ◌&&◌,
  if◌then◌else◌, length, length-append, length-drop, take, drop, get_or,
}
use udplex.Wire.{slice-append, get_or-front}
use udplex.Auth.Challenge.{handshake_size}
use udplex.Wire.Header.{header_size}
use udplex.Tunnel.Read.{
  Mode, Handlers, Frame, incomplete, bad, complete, next_frame, dispatch, refused, process,
  read_messages, read_round, read_loop,
}

take-front : (n : ℕ) (xs ys : List ℕ) → n ≤ length xs → take n (xs ++ ys) ≡ take n xs
take-front zero xs ys h = refl
take-front (suc n) [] ys h = absurd (omega arith)
take-front (suc n) (x ∷ xs) ys h = ap (◌∷◌ x) (take-front n xs ys (omega arith))

drop-front : (n : ℕ) (xs ys : List ℕ) → n ≤ length xs → drop n (xs ++ ys) ≡ drop n xs ++ ys
drop-front zero xs ys h = refl
drop-front (suc n) [] ys h = absurd (omega arith)
drop-front (suc n) (x ∷ xs) ys h = drop-front n xs ys (omega arith)

pub Frame-cases :
    (f : Frame) → ((e : ℕ) × (f ≡ incomplete e)) ⊎ ((f ≡ bad) ⊎ ((t : ℕ) × (f ≡ complete t)))
Frame-cases (incomplete e) = inl (e, refl)
Frame-cases bad = inr (inl refl)
Frame-cases (complete t) = inr (inr (t, refl))

-- The reads one behind the other.
abbrev pub flatten : List (List ℕ) → List ℕ
flatten [] = []
flatten (x ∷ xs) = x ++ flatten xs

module _ {S : Type 0} (H : Handlers S) (mode : Mode) (max_payload : ℕ) where
  -- What comes after does not change a verdict, once there is one.
  next_frame-bad :
      (s : S) (xs ys : List ℕ)
      → next_frame H mode max_payload s xs ≡ bad
      → next_frame H mode max_payload s (xs ++ ys) ≡ bad
  unfolding next_frame
  next_frame-bad s xs ys h =
      let long : 8 ≤ length xs = ground (arith, h) in
      rw (slice-append xs ys 4 4 long) (ground (arith, h, length-append xs ys))

  next_frame-complete :
      (s : S) (xs ys : List ℕ) (total : ℕ)
      → next_frame H mode max_payload s xs ≡ complete total
      → (8 ≤ total)
        × (total ≤ length xs)
        × (next_frame H mode max_payload s (xs ++ ys) ≡ complete total)
  unfolding next_frame
  next_frame-complete s xs ys total h =
      let long : 8 ≤ length xs = ground (arith, h) in
      (
        ground (arith, h),
        ground (arith, h),
        rw (slice-append xs ys 4 4 long) (ground (arith, h, length-append xs ys)),
      )

  -- More fuel than bytes is as good as any.
  process-fuel :
      (n m : ℕ) (s : S) (bytes : List ℕ)
      → length bytes < n
      → length bytes < m
      → process H mode max_payload n s bytes ≡ process H mode max_payload m s bytes
  unfolding process
  process-fuel zero m s bytes h k = elim h [ ]
  process-fuel (suc n) zero s bytes h k = elim k [ ]
  process-fuel (suc n) (suc m) s bytes h k =
      elim (Frame-cases (next_frame H mode max_payload s bytes)) [
        | inl (e, f) ↦ rw (f, process) refl
        | inr (inl f) ↦ rw (f, process) refl
        | inr (inr (t, f)) ↦
            let w = next_frame-complete s bytes [] t f in
            rw (f, process)
              (elim (dispatch H mode max_payload s (get_or bytes 1 0) (take t bytes))
                as (λ o.
                  (elim o as (λ x. Option (S × List ℕ × ℕ)) [
                    | none ↦ none
                    | some s' ↦ process H mode max_payload n s' (drop t bytes)
                  ])
                  ≡ (elim o as (λ x. Option (S × List ℕ × ℕ)) [
                    | none ↦ none
                    | some s' ↦ process H mode max_payload m s' (drop t bytes)
                  ])) [
                    | none ↦ refl
                    | some s' ↦
                        process-fuel n m s' (drop t bytes)
                          (omega (arith, length-drop t bytes, w.0, w.1))
                          (omega (arith, length-drop t bytes, w.0, w.1))
                  ])
      ]

  -- What is left of the stream is read on when more has come.
  abbrev go_on : Option (S × List ℕ × ℕ) → List ℕ → Option (S × List ℕ × ℕ)
  go_on none ys = none
  go_on (some (s, rest, expected)) ys = read_messages H mode max_payload s (rest ++ ys)

  process-append :
      (n : ℕ) (s : S) (xs ys : List ℕ)
      → length (xs ++ ys) < n
      → process H mode max_payload n s (xs ++ ys) ≡ go_on (process H mode max_payload n s xs) ys
  unfolding process read_messages
  process-append zero s xs ys h = elim h [ ]
  process-append (suc n) s xs ys h = elim (Frame-cases (next_frame H mode max_payload s xs)) [
    | inl (e, f) ↦
        rw (f, process)
          (process-fuel (suc n) (suc (length (xs ++ ys))) s (xs ++ ys) h (omega arith))
    | inr (inl f) ↦ rw (f, next_frame-bad s xs ys f, process) refl
    | inr (inr (t, f)) ↦
        let w = next_frame-complete s xs ys t f in
        rw (f, w.2, take-front t xs ys w.1, get_or-front 1 xs ys (omega (arith, w.0, w.1)), process)
          (elim (dispatch H mode max_payload s (get_or xs 1 0) (take t xs))
            as (λ o.
              (elim o as (λ x. Option (S × List ℕ × ℕ)) [
                | none ↦ none
                | some s' ↦ process H mode max_payload n s' (drop t (xs ++ ys))
              ])
              ≡ go_on
                  (elim o as (λ x. Option (S × List ℕ × ℕ)) [
                    | none ↦ none
                    | some s' ↦ process H mode max_payload n s' (drop t xs)
                  ])
                  ys) [
                    | none ↦ refl
                    | some s' ↦ rw (drop-front t xs ys w.1) (
                        process-append n s' (drop t xs) ys (
                          omega (
                            arith,
                            length-append xs ys,
                            length-append (drop t xs) ys,
                            length-drop t xs,
                            w.0,
                            w.1,
                          )))
                  ])
  ]

  next_frame-incomplete :
      (s : S) (xs : List ℕ) (e : ℕ)
      → handshake_size ≤ max_payload
      → next_frame H mode max_payload s xs ≡ incomplete e
      → length xs < max_payload + header_size
  unfolding next_frame refused
  next_frame-incomplete s xs e h f = ground (arith, h, f)

  abbrev rest_length : Option (S × List ℕ × ℕ) → ℕ
  rest_length none = 0
  rest_length (some (s, rest, expected)) = length rest

  -- What stays behind is smaller than one message.
  left_over :
      (n : ℕ) (s : S) (xs : List ℕ)
      → handshake_size ≤ max_payload
      → rest_length (process H mode max_payload n s xs) < max_payload + header_size
  unfolding process
  left_over zero s xs h = omega arith
  left_over (suc n) s xs h = elim (Frame-cases (next_frame H mode max_payload s xs)) [
    | inl (e, f) ↦ rw (f, process) (next_frame-incomplete s xs e h f)
    | inr (inl f) ↦ rw (f, process) (omega arith)
    | inr (inr (t, f)) ↦
        rw (f, process)
          (elim (dispatch H mode max_payload s (get_or xs 1 0) (take t xs))
            as (λ o.
              rest_length (elim o as (λ x. Option (S × List ℕ × ℕ)) [
                | none ↦ none
                | some s' ↦ process H mode max_payload n s' (drop t xs)
              ])
              < max_payload + header_size) [
                | none ↦ omega arith
                | some s' ↦ left_over n s' (drop t xs) h
              ])
  ]

  read_round_lem :
      (capacity : ℕ) (s : S) (pending chunk : List ℕ)
      → handshake_size ≤ max_payload
      → max_payload + header_size ≤ capacity
      → length pending < capacity
      → read_round H mode max_payload capacity s pending chunk
        ≡ read_messages H mode max_payload s (pending ++ chunk)
  unfolding read_round
  read_round_lem capacity s pending chunk h c k =
      let room : leb capacity (length pending) ≡ false = ground (arith, k) in
      rw (room, read_round) (kept (read_messages H mode max_payload s (pending ++ chunk)) (small h))
    where
      small :
          handshake_size ≤ max_payload
          → rest_length (read_messages H mode max_payload s (pending ++ chunk))
            < max_payload + header_size
      small h =
          unfold read_messages in left_over (suc (length (pending ++ chunk))) s (pending ++ chunk) h

      kept :
          (o : Option (S × List ℕ × ℕ))
          → rest_length o < max_payload + header_size
          → (elim o as (λ x. Option (S × List ℕ × ℕ)) [
            | none ↦ none
            | some (s', rest, expected) ↦
                if length rest == capacity && length rest == length (pending ++ chunk)
                then none
                else some (s', rest, expected)
          ])
            ≡ o
      kept none l = refl
      kept (some (s', rest, expected)) l =
          let e : (length rest == capacity) ≡ false = ground (arith, l, c) in rw e refl

  read_messages-append :
      (s : S) (xs ys : List ℕ)
      → read_messages H mode max_payload s (xs ++ ys)
        ≡ go_on (read_messages H mode max_payload s xs) ys
  unfolding read_messages
  read_messages-append s xs ys =
      process-append (suc (length (xs ++ ys))) s xs ys (omega arith)
      ∙ ap (λ o. go_on o ys)
          (process-fuel (suc (length (xs ++ ys))) (suc (length xs)) s xs
            (omega (arith, length-append xs ys)) (omega arith))

  pieces_lem :
      (capacity : ℕ) (s : S) (pending : List ℕ) (expected : ℕ) (chunks : List (List ℕ))
      → handshake_size ≤ max_payload
      → max_payload + header_size ≤ capacity
      → read_messages H mode max_payload s pending ≡ some (s, pending, expected)
      → read_loop H mode max_payload capacity s pending expected chunks
        ≡ read_messages H mode max_payload s (pending ++ flatten chunks)
  unfolding read_loop
  pieces_lem capacity s pending expected [] h c e =
      sym (ap (read_messages H mode max_payload s) (append-nil pending) ∙ e)
  pieces_lem capacity s pending expected (chunk ∷ chunks) h c e =
      let xs = pending ++ chunk in
      let few : length pending < max_payload + header_size = few_left e in
      let round = read_round_lem capacity s pending chunk h c (omega (arith, few)) in
      let joined =
        ap (read_messages H mode max_payload s) (sym (append_assoc pending chunk (flatten chunks)))
        ∙ read_messages-append s xs (flatten chunks) in
      elim (Option-cases (read_messages H mode max_payload s xs)) [
        | inl n ↦ rw (round ∙ n, read_loop) (sym (joined ∙ ap (λ o. go_on o (flatten chunks)) n))
        | inr ((s', rest, expected'), n) ↦
            let again =
              sym (ap (read_messages H mode max_payload s') (append-nil rest))
              ∙ sym (ap (λ o. go_on o []) n)
              ∙ sym (read_messages-append s xs [])
              ∙ ap (read_messages H mode max_payload s) (append-nil xs)
              ∙ n in
            rw (round ∙ n, read_loop)
              (pieces_lem capacity s' rest expected' chunks h c again
                ∙ sym (joined ∙ ap (λ o. go_on o (flatten chunks)) n))
      ]
    where
      few_left :
          read_messages H mode max_payload s pending ≡ some (s, pending, expected)
          → length pending < max_payload + header_size
      few_left e =
          subst (λ o. rest_length o < max_payload + header_size) e
            (unfold read_messages in left_over (suc (length pending)) s pending h)

  -- If the receive buffer has room for the largest message with its header, the outer loop does the same,
  -- message by message, however the stream is cut into reads: it ends in the state, with the bytes left
  -- over, in which one pass over the whole stream ends, or it closes the connection if that pass does.
  pub read_loop_roomy :
      (capacity : ℕ) (s : S) (chunks : List (List ℕ))
      → handshake_size ≤ max_payload
      → max_payload + header_size ≤ capacity
      → read_loop H mode max_payload capacity s [] 0 chunks
        ≡ read_messages H mode max_payload s (flatten chunks)
  read_loop_roomy capacity s chunks h c = pieces_lem capacity s [] 0 chunks h c nothing_yet
    where
      nothing_yet : read_messages H mode max_payload s [] ≡ some (s, [], 0)
      nothing_yet = unfold read_messages process next_frame in refl
