-- ===== src/Auth/Data/Tests.antt =====
-- Packets through WrapData and UnwrapData: the examples of the theorems about encrypted packets.
use udplex.Prelude.{
  ℕ, ◌-◌, ◌≡◌, refl, ap, inl, ◌∙◌, true, false, Option, none, some, List, [], ◌∷◌, ◌++◌, arith,
  length, length-append, take, replicate,
}
use udplex.Prelude.Int.{pos}
use udplex.Packet.{Packet, get_data}
use udplex.Auth.Dedup.{Nonce, Dedup, next_nonce, mark_as_used, is_duplicate}
use udplex.Table.{find}
use udplex.Auth.Data.{wrapped, unwrapped, wrap_encrypted, unwrap_data}
use udplex.Auth.Data.Sealed.{GcmLaws, unwrap-wrap_encrypted}
use udplex.Auth.Dedup.Replay.{Event, mark, cleanup, generate}

-- A cipher that appends the tag to the text, to run the example with.
abbrev tag : List ℕ
tag = replicate 16 7

abbrev seal : Nonce → List ℕ → List ℕ
seal n x = x ++ tag

abbrev open_sealed : Nonce → List ℕ → Option (List ℕ)
open_sealed n x = some (take (length x - 16) x)

take_front : (xs ys : List ℕ) → take (length xs) (xs ++ ys) ≡ xs
take_front [] ys = refl
take_front (x ∷ xs) ys = ap (◌∷◌ x) (take_front xs ys)

laws : GcmLaws seal open_sealed 16
laws = record {
  opens = λ n x.
      ap (λ (k : ℕ). some (take k (x ++ tag))) (omega (arith, length-append x tag))
      ∙ ap some (take_front x tag);
  size = λ n x. length-append x tag;
}

abbrev packet : Packet
packet = record {
  buffer = replicate 64 0 ++ replicate 20 9;
  offset = 64;
  length = 20;
  src_addr = none;
  src_tag = "";
  count = pos 1;
  proto = "";
  conn_id = 77;
  batch_id = 0;
  no_drop = false;
}

abbrev pool_buffer : List ℕ
pool_buffer = replicate 200 0

abbrev sender : Dedup
sender = record { frames = []; current_frame = 12; current_seq = 3 }

abbrev sender_after : Dedup
sender_after = record { frames = []; current_frame = 12; current_seq = 4 }

abbrev receiver : Dedup
receiver = record { frames = []; current_frame = 99; current_seq = 0 }

abbrev nonce : Nonce
nonce = record { frame = 12; seq = 3 }

unwrap-wrap_encrypted_example :
    (w r : Packet) × (wrap_encrypted seal open_sealed 16 pool_buffer pool_buffer none 50 1000 packet
        sender
      ≡ some (wrapped w (mark_as_used 50 nonce sender_after)))
    × (unwrap_data seal open_sealed 16 true 60 1020 5000 w receiver
        ≡ some (unwrapped r (mark_as_used 60 nonce receiver)))
    × (get_data r ≡ get_data packet)
    × (r.conn_id ≡ 77)
unfolding next_nonce is_duplicate find
unwrap-wrap_encrypted_example =
    unwrap-wrap_encrypted seal open_sealed 16 laws pool_buffer pool_buffer none 50 60 1020 5000 1000
      nonce packet sender sender_after receiver
      (record { window = omega arith; long = inl (omega arith); room = omega arith })
      (record { time = omega arith; id = omega arith; frame = omega arith; seq = omega arith })
      (omega arith) (omega arith) refl refl (omega arith)

-- A wrapped packet as it stands in a datagram: the header, the nonce, and the plaintext of two bytes with
-- its tag.
abbrev datagram : Packet
datagram = record packet {
  buffer =
      2 ∷ 5 ∷ 0 ∷ 0 ∷ 0 ∷ 0 ∷ 0 ∷ 46 ∷ 0 ∷ 0 ∷ 0 ∷ 0 ∷ 0 ∷ 0 ∷ 0 ∷ 12 ∷ 0 ∷ 0 ∷ 0 ∷ 3 ∷ 0 ∷ 0 ∷ 0
      ∷ 0 ∷ 0 ∷ 0 ∷ 3 ∷ 232 ∷ 0 ∷ 0 ∷ 0 ∷ 0 ∷ 0 ∷ 0 ∷ 0 ∷ 77 ∷ 8 ∷ 9 ∷ tag;
  offset = 0;
  length = 54;
}

abbrev delivered : Packet
delivered = record packet {
  buffer = 0 ∷ 0 ∷ 0 ∷ 0 ∷ 0 ∷ 0 ∷ 3 ∷ 232 ∷ 0 ∷ 0 ∷ 0 ∷ 0 ∷ 0 ∷ 0 ∷ 0 ∷ 77 ∷ 8 ∷ 9 ∷ [];
  offset = 16;
  length = 2;
}

-- Another packet, a cleanup and a packet of the receiver's own, between the two.
abbrev meanwhile : List Event
meanwhile = mark 65 (record { frame = 12; seq = 4 }) ∷ cleanup 90_000_000_000 ∷ generate none ∷ []
