-- ===== src/Wire/Header.antt =====
-- auth_protocol.go: ParseHeader and WriteHeader. component.go: ConnID and uint64.
use udplex.Prelude.{
  ℕ, ◌^◌, ◌≤◌, ◌<◌, ◌≡◌, refl, sym, ◌∙◌, ap, false, Option, none, some, List, [], ◌∷◌, ◌++◌, arith,
  length, length-append, length-drop, drop, get_or, ltb, if◌then◌else◌,
}
use udplex.Wire.{put_be, be, slice, be-put_be, length-put_be, slice-past, slice-first, drop-past}
use mathlib.Core.Option.{some-injective}

abbrev pub header_size : ℕ
header_size = 8

abbrev pub protocol_version : ℕ
protocol_version = 2

abbrev pub msg_data : ℕ
msg_data = 5

pub record Header : Type 0 where
  pub version : ℕ
  pub msg_type : ℕ
  pub reserved : ℕ
  pub len : ℕ

unfoldable pub parse_header : List ℕ → Option Header
parse_header b =
    if ltb (length b) header_size
    then none
    else some (record {
      version = get_or b 0 0;
      msg_type = get_or b 1 0;
      reserved = be (slice b 2 2);
      len = be (slice b 4 4);
    })

-- The first eight bytes of the buffer are written; on a shorter one Go panics (`none`).
pub write_header : List ℕ → ℕ → ℕ → Option (List ℕ)
write_header b msg_type data_len =
    if ltb (length b) header_size
    then none
    else some
        ((protocol_version ∷ msg_type ∷ put_be 2 0) ++ (put_be 4 data_len ++ drop header_size b))

-- A message header that is written into a buffer with room for it, with a length below 2^32, is read
-- back as it was written, whatever stood in the buffer before.
pub parse-write_header :
    (b : List ℕ) (msg_type data_len : ℕ)
    → header_size ≤ length b
    → data_len < 2 ^ 32
    → (b' : List ℕ) × (write_header b msg_type data_len ≡ some b')
      × (parse_header b'
          ≡ some (record {
            version = protocol_version;
            msg_type = msg_type;
            reserved = 0;
            len = data_len;
          }))
unfolding write_header parse_header
parse-write_header b msg_type data_len h k =
    (b', ground (arith, h), rw (long, reserved_back, len_back) refl)
  where
    tail : List ℕ
    tail = put_be 4 data_len ++ drop header_size b

    b' : List ℕ
    b' = (protocol_version ∷ msg_type ∷ put_be 2 0) ++ tail

    reserved_back : be (slice b' 2 2) ≡ 0
    reserved_back =
        ap be (
          slice-past (protocol_version ∷ msg_type ∷ []) (put_be 2 0 ++ tail) 2 0 2 2 refl
            (omega arith)
          ∙ slice-first (put_be 2 0) tail 2 (length-put_be 2 0))
        ∙ be-put_be 2 0 (omega arith)

    len_back : be (slice b' 4 4) ≡ data_len
    len_back =
        ap be (
          slice-past (protocol_version ∷ msg_type ∷ put_be 2 0) tail 4 0 4 4
            (omega (arith, length-put_be 2 0)) (omega arith)
          ∙ slice-first (put_be 4 data_len) (drop header_size b) 4 (length-put_be 4 data_len))
        ∙ be-put_be 4 data_len (omega (arith, k))

    long : ltb (length b') header_size ≡ false
    long = ground (
      arith,
      length-append (protocol_version ∷ msg_type ∷ put_be 2 0) tail,
      length-append (put_be 4 data_len) (drop header_size b),
      length-put_be 2 0,
      length-put_be 4 data_len,
    )

pub write_header_room :
    (b : List ℕ) (msg_type data_len : ℕ)
    → header_size ≤ length b
    → (b' : List ℕ) × (write_header b msg_type data_len ≡ some b') × (length b' ≡ length b)
unfolding write_header
write_header_room b msg_type data_len h =
    let start = protocol_version ∷ msg_type ∷ put_be 2 0 in
    let tail = put_be 4 data_len ++ drop header_size b in
    (
      start ++ tail,
      ground (arith, h),
      omega (
        arith,
        length-append start tail,
        length-append (put_be 4 data_len) (drop header_size b),
        length-put_be 2 0,
        length-put_be 4 data_len,
        length-drop header_size b,
      ),
    )

-- All that a reader of the message sees of it: the header, and what stood behind it in the buffer.
pub write_header_whole :
    (b : List ℕ) (msg_type data_len : ℕ)
    → header_size ≤ length b
    → data_len < 2 ^ 32
    → (b' : List ℕ) × (write_header b msg_type data_len ≡ some b')
      × (parse_header b'
          ≡ some (record {
            version = protocol_version;
            msg_type = msg_type;
            reserved = 0;
            len = data_len;
          }))
      × (length b' ≡ length b)
      × (drop header_size b' ≡ drop header_size b)
unfolding write_header put_be
write_header_whole b msg_type data_len h k =
    let p = parse-write_header b msg_type data_len h k in
    let start = protocol_version ∷ msg_type ∷ put_be 2 0 in
    let b' = start ++ (put_be 4 data_len ++ drop header_size b) in
    let e : write_header b msg_type data_len ≡ some b' = ground (arith, h) in
    let same : p.0 ≡ b' = some-injective p.0 b' (sym p.1 ∙ e) in
    let r = write_header_room b msg_type data_len h in
    let same' : r.0 ≡ p.0 = some-injective r.0 p.0 (sym r.1 ∙ p.1) in
    (
      p.0,
      p.1,
      p.2,
      ap length (sym same') ∙ r.2,
      ap (drop header_size) same
          ∙ drop-past start (put_be 4 data_len ++ drop header_size b) 4
          ∙ drop-past (put_be 4 data_len) (drop header_size b) 0,
    )
