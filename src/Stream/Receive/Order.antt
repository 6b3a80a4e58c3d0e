-- ===== src/Stream/Receive/Order.antt =====
-- tcp_stream.go: the receiver against the pieces of the stream that were sent, whatever the lines do
-- to the frames.
use udplex.Prelude.{
  ℕ, zero, suc, ◌+◌, ◌≤◌, ◌<◌, ◌≡◌, refl, ap, sym, ◌∙◌, inl, inr, Bool, true, false, ◌&&◌, Option,
  none, some, List, [], ◌∷◌, ◌++◌, arith, append_assoc, append-nil, ltb, leb, ◌==◌, if◌then◌else◌,
  length, Bool-cases, Option-cases,
}
use udplex.Stream.{
  Stream, Segment, Frame, Flags, Kind, open_frame, data_frame, fin_frame, ack_frame, rst_frame,
  span, seg_len, queue_ack, fill_ack,
}
use udplex.Stream.Receive.{
  Early, lookup, insert, delete, deliver_body, deliver, fill, segment_of, keep_early, acknowledge,
  process_segment, is_data,
}

-- What the sender has put into the stream, from sequence number 0 on.
pub record Piece : Type 0 where
  pub seq : ℕ
  pub kind : Kind
  pub body : List ℕ

-- The pieces lie end to end from `b` on, and none is empty.
abbrev pub Contiguous : ℕ → List Piece → Type 0
Contiguous b [] = Unit {0}
Contiguous b (x ∷ xs) =
    (x.seq ≡ b) × (0 < span x.kind x.body) × Contiguous (b + span x.kind x.body) xs

-- The piece that begins at a sequence number.
abbrev pub piece_at : ℕ → List Piece → Option Piece
piece_at n [] = none
piece_at n (x ∷ xs) = if x.seq == n then some x else piece_at n xs

abbrev pub bytes_of : Kind → List ℕ → List ℕ
bytes_of data_frame body = body
bytes_of _ body = []

-- The data bytes of the pieces that begin below a sequence number.
abbrev pub bytes_below : ℕ → List Piece → List ℕ
bytes_below n [] = []
bytes_below n (x ∷ xs) =
    if ltb x.seq n then bytes_of x.kind x.body ++ bytes_below n xs else bytes_below n xs

abbrev pub concat : List (List ℕ) → List ℕ
concat [] = []
concat (x ∷ xs) = x ++ concat xs

concat-append : (xs ys : List (List ℕ)) → concat (xs ++ ys) ≡ concat xs ++ concat ys
concat-append [] ys = refl
concat-append (x ∷ xs) ys =
    ap (◌++◌ x) (concat-append xs ys) ∙ sym (append_assoc x (concat xs) (concat ys))

-- The segment is the piece that was sent at `n`.
abbrev pub IsSent : List Piece → ℕ → Kind → List ℕ → Type 0
IsSent ps n kind body = piece_at n ps ≡ some (record { seq = n; kind = kind; body = body })

piece_at_le :
    (b n : ℕ) (ps : List Piece) {p : Piece} → Contiguous b ps → piece_at n ps ≡ some p → b ≤ n
piece_at_le b n [] c h = cc
piece_at_le b n (x ∷ xs) c h = elim (Bool-cases (x.seq == n)) [
  | inl e ↦ ground (arith, e, c.0)
  | inr e ↦ omega (arith, piece_at_le (b + span x.kind x.body) n xs c.2 (rw e at h))
]

pub bytes_below_nil : (b n : ℕ) (ps : List Piece) → Contiguous b ps → n ≤ b → bytes_below n ps ≡ []
bytes_below_nil b n [] c h = refl
bytes_below_nil b n (x ∷ xs) c h =
    ground (arith, c.0, bytes_below_nil (b + span x.kind x.body) n xs c.2)

-- The bytes below the end of a piece are those below its start and its own.
bytes_below-advance :
    (b n : ℕ) (ps : List Piece) (p : Piece)
    → Contiguous b ps
    → piece_at n ps ≡ some p
    → bytes_below (n + span p.kind p.body) ps ≡ bytes_below n ps ++ bytes_of p.kind p.body
bytes_below-advance b n [] p c h = cc
bytes_below-advance b n (x ∷ xs) p c h = elim (Bool-cases (x.seq == n)) [
  | inl e ↦ here e (rw e at h)
  | inr e ↦
      let h' : piece_at n xs ≡ some p = rw e at h in
      let le = piece_at_le (b + span x.kind x.body) n xs c.2 h' in
      let ih = bytes_below-advance (b + span x.kind x.body) n xs p c.2 h' in
      let lo : ltb x.seq n ≡ true = ground (arith, le, c.0, c.1) in
      let hi : ltb x.seq (n + span p.kind p.body) ≡ true = ground (arith, le, c.0, c.1) in
      rw (lo, hi, ih, append_assoc) refl
]
  where
    here :
        (x.seq == n) ≡ true
        → some x ≡ some p
        → bytes_below (n + span p.kind p.body) (x ∷ xs)
          ≡ bytes_below n (x ∷ xs) ++ bytes_of p.kind p.body
    here e q = ground (
      arith,
      e,
      q,
      c.0,
      c.1,
      bytes_below_nil (b + span x.kind x.body) (n + span p.kind p.body) xs c.2,
      bytes_below_nil (b + span x.kind x.body) n xs c.2,
      append-nil (bytes_of x.kind x.body),
    )

deliver_body_lem :
    (s : Stream) (kind : Kind) (body : List ℕ)
    → let t = deliver_body s kind body in
      (concat t.rcv_queue ≡ concat s.rcv_queue ++ bytes_of kind body)
      × (t.rcv_nxt ≡ s.rcv_nxt)
      × (t.ooo ≡ s.ooo)
unfolding deliver_body
deliver_body_lem s open_frame body = ground (arith, append-nil (concat s.rcv_queue))
deliver_body_lem s data_frame [] = (sym (append-nil (concat s.rcv_queue)), refl, refl)
deliver_body_lem s data_frame (x ∷ xs) = (
  concat-append s.rcv_queue ((x ∷ xs) ∷ [])
      ∙ ap (λ t. concat s.rcv_queue ++ (x ∷ t)) (append-nil xs),
  refl,
  refl,
)
deliver_body_lem s fin_frame body = (sym (append-nil (concat s.rcv_queue)), refl, refl)
deliver_body_lem s ack_frame body = (sym (append-nil (concat s.rcv_queue)), refl, refl)
deliver_body_lem s rst_frame body = (sym (append-nil (concat s.rcv_queue)), refl, refl)

pub lookup-delete :
    (k j : ℕ) (m : Early) → lookup k (delete j m) ≡ (if j == k then none else lookup k m)
unfolding lookup delete
lookup-delete k j [] = ground arith
lookup-delete k j ((i, x) ∷ m) = ground (arith, lookup-delete k j m)

length-delete : (j : ℕ) (m : Early) → length (delete j m) ≤ length m
unfolding delete
length-delete j [] = omega arith
length-delete j ((i, x) ∷ m) = ground (arith, length-delete j m)

length-delete_found :
    (j : ℕ) (m : Early) (g : Segment) → lookup j m ≡ some g → length (delete j m) < length m
unfolding lookup delete
length-delete_found j [] g h = cc
length-delete_found j ((i, x) ∷ m) g h =
    ground (arith, length-delete j m, length-delete_found j m g)

-- With fuel above the number of early segments, the loop that delivers them ends only when none is
-- kept for the next expected sequence number.
pub fill_complete :
    (fuel : ℕ) (s : Stream) (filled : Bool)
    → length s.ooo < fuel
    → let t = (fill fuel s filled).0 in lookup t.rcv_nxt t.ooo ≡ none
unfolding fill deliver
fill_complete zero s filled h = elim h [ ]
fill_complete (suc fuel) s filled h = elim (Option-cases (lookup s.rcv_nxt s.ooo)) [
  | inl e ↦ rw (e, fill) e
  | inr (g, e) ↦
      let s' = record s { ooo = delete s.rcv_nxt s.ooo; rcv_nxt = s.rcv_nxt + seg_len g } in
      rw (e, fill)
        (fill_complete fuel (deliver_body s' g.kind g.body) true (
          rw (deliver_body_lem s' g.kind g.body).2
            (omega (arith, length-delete_found s.rcv_nxt s.ooo g e))))
]

module _ (ps : List Piece) (sent : Contiguous 0 ps) where
  -- What the receiver holds against what was sent: `written` is what has gone to the connection.
  pub record InOrder (written : List ℕ) (s : Stream) : Type 0 where
    pub prefix : written ++ concat s.rcv_queue ≡ bytes_below s.rcv_nxt ps
    pub early : (k : ℕ) (g : Segment) → lookup k s.ooo ≡ some g → IsSent ps k g.kind g.body

  extended :
      (written : List ℕ) (s : Stream) (kind : Kind) (body : List ℕ)
      → IsSent ps s.rcv_nxt kind body
      → InOrder written s
      → (written ++ concat s.rcv_queue) ++ bytes_of kind body
        ≡ bytes_below (s.rcv_nxt + span kind body) ps
  extended written s kind body at v =
      rw v.prefix (sym (bytes_below-advance 0 s.rcv_nxt ps _ sent at))

  deliver-InOrder :
      (written : List ℕ) (s : Stream) (g : Segment)
      → IsSent ps s.rcv_nxt g.kind g.body
      → InOrder written s
      → InOrder written (deliver s g)
  unfolding deliver
  deliver-InOrder written s g at v =
      let d = deliver_body_lem (record s { rcv_nxt = s.rcv_nxt + seg_len g }) g.kind g.body in
      record {
        prefix =
            rw (d.0, d.1)
              (sym (append_assoc written (concat s.rcv_queue) (bytes_of g.kind g.body))
                ∙ extended written s g.kind g.body at v);
        early = λ k h e. v.early k h (rw d.2 at e);
      }

  fill-InOrder :
      (fuel : ℕ) (written : List ℕ) (s : Stream) (filled : Bool)
      → InOrder written s
      → InOrder written (fill fuel s filled).0
  unfolding fill
  fill-InOrder zero written s filled v = v
  fill-InOrder (suc fuel) written s filled v = elim (Option-cases (lookup s.rcv_nxt s.ooo)) [
    | inl e ↦ rw (e, fill) v
    | inr (g, e) ↦
        let s' = record s { ooo = delete s.rcv_nxt s.ooo } in
        let v' : InOrder written s' = record {
          prefix = v.prefix;
          early = λ k h d. v.early k h (ground (arith, d, lookup-delete k s.rcv_nxt s.ooo));
        } in
        rw (e, fill)
          (fill-InOrder fuel written (deliver s' g) true
            (deliver-InOrder written s' g (v.early s.rcv_nxt g e) v'))
  ]

  keep_early-InOrder :
      (written : List ℕ) (s : Stream) (g : Segment)
      → IsSent ps g.seq g.kind g.body
      → InOrder written s
      → InOrder written (keep_early s g)
  unfolding keep_early
  keep_early-InOrder written s g at v =
      elim (Bool-cases (ltb s.rcv_nxt g.seq && leb (g.seq + seg_len g) (s.rcv_nxt + s.e.window))) [
        | inr far ↦ rw (far, keep_early) v
        | inl near ↦ elim (Option-cases (lookup g.seq s.ooo)) [
          | inr (old, e) ↦ rw (near, e, keep_early) v
          | inl e ↦
              rw (near, e, keep_early) (record { prefix = v.prefix; early = λ k h d. kept k h d })
        ]
      ]
    where
      kept :
          (k : ℕ) (h : Segment)
          → lookup k (insert g.seq g s.ooo) ≡ some h
          → IsSent ps k h.kind h.body
      kept k h d = elim (Bool-cases (g.seq == k)) [
        | inl e ↦ unfold lookup insert in ground (arith, e, d, at)
        | inr e ↦ v.early k h (unfold lookup insert in ground (arith, e, d))
      ]

  -- Acknowledging changes nothing of what has been received.
  same_InOrder :
      (written : List ℕ) (s t : Stream)
      → t.rcv_queue ≡ s.rcv_queue
      → t.rcv_nxt ≡ s.rcv_nxt
      → t.ooo ≡ s.ooo
      → InOrder written s
      → InOrder written t
  same_InOrder written s t q n o v = record {
    prefix = rw (q, n) v.prefix;
    early = λ k h d. v.early k h (rw o at d);
  }

  queue_ack-InOrder :
      (written : List ℕ) (s : Stream) (flags : Flags)
      → InOrder written s
      → InOrder written (queue_ack s flags)
  unfolding queue_ack fill_ack
  queue_ack-InOrder written s flags v = same_InOrder written s _ refl refl refl v

  acknowledge-InOrder :
      (written : List ℕ) (s : Stream) (filled : Bool) (kind : Kind)
      → InOrder written s
      → InOrder written (acknowledge s filled kind)
  unfolding acknowledge queue_ack fill_ack
  acknowledge-InOrder written s filled kind v =
      same_InOrder written s _ (ground arith) (ground arith) (ground arith) v

  -- A frame that carries one of the pieces keeps the order: all that has been delivered is, before
  -- and after, the data of the pieces below the next expected sequence number.
  pub process_segment-InOrder :
      (written : List ℕ) (s : Stream) (f : Frame)
      → IsSent ps f.seq f.kind (segment_of f).body
      → InOrder written s
      → InOrder written (process_segment s f)
  unfolding process_segment
  process_segment-InOrder written s f at v =
      let g = segment_of f in
      let at' : IsSent ps g.seq g.kind g.body = unfold segment_of in at in
      elim (Bool-cases (leb (g.seq + seg_len g) s.rcv_nxt)) [
        | inl old ↦ rw old (queue_ack-InOrder written s _ v)
        | inr new ↦ elim (Bool-cases (g.seq == s.rcv_nxt)) [
          | inr ahead ↦
              rw (new, ahead) (queue_ack-InOrder written _ _ (keep_early-InOrder written s g at' v))
          | inl next ↦
              elim (Bool-cases
                (is_data g.kind && ltb (s.e.window + s.e.mss) (s.rcv_queued + length g.body))) [
                  | inl full ↦ rw (new, next, full) v
                  | inr fits ↦
                      let here : IsSent ps s.rcv_nxt g.kind g.body = ground (arith, at', next) in
                      rw (new, next, fits)
                        (acknowledge-InOrder written _ _ g.kind (
                          fill-InOrder (suc (length s.ooo)) written (deliver s g) false
                            (deliver-InOrder written s g here v)))
                ]
        ]
      ]
