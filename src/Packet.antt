-- ===== src/Packet.antt =====
-- packet.go: the packet that the components hand on, its reference count and its buffer window.
-- A buffer is the list of its bytes; the pool that it comes from is Router's.
use udplex.Prelude.{
  ℕ, ◌+◌, Bool, true, false, Option, List, ◌++◌, take, drop, length, if◌then◌else◌, ltb,
}
use udplex.Prelude.Int.{ℤ, pos, ◌+ℤ◌, ◌-ℤ◌, ltb_ℤ}
use Prim.Native.String.{String}

-- net.Addr, as far as this code looks at it: a UDP or TCP address with the bytes of its IP, or
-- another implementation.
pub data Addr : Type 0 where
  udp : List ℕ → ℕ → Addr
  tcp : List ℕ → ℕ → Addr
  other : Addr

pub record Packet : Type 0 where
  pub buffer : List ℕ
  pub offset : ℕ
  pub length : ℕ
  pub src_addr : Option Addr
  pub src_tag : String
  pub count : ℤ
  pub proto : String
  pub conn_id : ℕ
  pub batch_id : ℕ
  pub no_drop : Bool

-- `p.buffer[p.offset : p.offset+p.length]`
unfoldable pub get_data : Packet → List ℕ
get_data p = take p.length (drop p.offset p.buffer)

-- The buffer that is replaced goes back to the pool (the first component).
unfoldable pub set_buffer : Packet → List ℕ → List ℕ × Packet
set_buffer p b = (p.buffer, record p { buffer = b; length = length b })

unfoldable pub add_ref : Packet → ℕ → Packet
add_ref p n = record p { count = p.count +ℤ pos n }

-- Whether this release returns the buffer to the pool.
unfoldable pub release : Packet → ℕ → Packet × Bool
release p n =
    let c = p.count -ℤ pos n in (record p { count = c }, if ltb_ℤ (pos 0) c then false else true)

-- Go's `copy(dst[i:], src)` on a buffer that is long enough: the bytes from `i` on are replaced.
unfoldable pub overwrite : List ℕ → ℕ → List ℕ → List ℕ
overwrite dst i src = take i dst ++ (src ++ drop (i + length src) dst)

-- `fresh` is the buffer that the pool hands out.
unfoldable pub copy : List ℕ → Packet → Packet
copy fresh p = record p {
  buffer = if ltb 0 p.length then overwrite fresh p.offset (get_data p) else fresh;
  count = pos 1;
}
