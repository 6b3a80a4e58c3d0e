-- ===== src/Wire/Tests.antt =====
-- Headers and frames at concrete bytes.
use udplex.Prelude.{ℕ, ◌+◌, ◌≡◌, some, List, [], ◌∷◌, replicate, take, arith}
use udplex.Wire.StreamFrame.{
  WireFrame, stream_header_size, IsEncodable, parse_frame, put_frame, parse-put_frame,
}

abbrev wire_frame : WireFrame
wire_frame = record {
  typ = 2;
  flags = 1;
  id = 77;
  seq = 1000;
  ack = 2000;
  wnd = 65536;
  payload = 1 ∷ 2 ∷ 3 ∷ [];
}

wire_frame-IsEncodable : IsEncodable wire_frame
wire_frame-IsEncodable = record {
  typ_low = omega arith;
  typ_high = omega arith;
  flags = omega arith;
  id = omega arith;
  seq = omega arith;
  ack = omega arith;
  wnd = omega arith;
}

parse-put_frame_example :
    (b' : List ℕ) × (n : ℕ) × (put_frame (replicate 64 9) wire_frame ≡ some (b', n))
    × (n ≡ stream_header_size + 3)
    × (parse_frame (take n b') ≡ some wire_frame)
parse-put_frame_example =
    parse-put_frame (replicate 64 9) wire_frame wire_frame-IsEncodable (omega arith)
