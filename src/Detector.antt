-- ===== src/Detector.antt =====
-- protocol_detector.go and filter.go: the matching of packets against signatures, and the filter
-- that routes by the protocol. `contains` is bytes.Contains. The hex and text decoding of the patterns (`preprocess`) uses the
-- standard library: the decoded bytes are fields here.
mod Tests
pub mod Match
use udplex.Prelude.{
  ℕ, suc, ◌+◌, ◌-◌, Bool, true, false, not, ◌&&◌, ◌||◌, Option, none, some, List, [], ◌∷◌, length,
  get_or, drop, take, ltb, ◌==◌, if◌then◌else◌,
}
use Prim.Native.Nat.{bit_and}
use Prim.Native.String.{String}
use text.Mathlib.Text.{◌==◌ as text_eq}
use udplex.Table.{find, text_key}

pub record LengthMatch : Type 0 where
  pub min_length : ℕ
  pub max_length : ℕ

-- SignatureRule; the flags tell whether the texts `Bytes` and `Contains` are given. The offset of
-- the source may be negative, which panics; here it is not.
pub record SignatureRule : Type 0 where
  pub offset : ℕ
  pub has_bytes : Bool
  pub has_contains : Bool
  pub length_match : Option LengthMatch
  pub decoded_bytes : List ℕ
  pub decoded_mask : List ℕ
  pub decoded_contains : List ℕ

pub record ProtocolDefinition : Type 0 where
  pub signatures : List SignatureRule
  pub match_logic : String

-- The loop over the pattern with a mask: it ends with the mask.
pub masked_equal : List ℕ → List ℕ → List ℕ → Bool
masked_equal bytes [] mask = true
masked_equal bytes (p ∷ ps) [] = true
masked_equal bytes (p ∷ ps) (m ∷ ms) =
    let rest = masked_equal (drop 1 bytes) ps ms in
    if bit_and (get_or bytes 0 0) m == bit_and p m then rest else false

-- The loop over the pattern without a mask.
pub bytes_equal : List ℕ → List ℕ → Bool
bytes_equal bytes [] = true
bytes_equal bytes (p ∷ ps) =
    let rest = bytes_equal (drop 1 bytes) ps in if get_or bytes 0 0 == p then rest else false

pub length_ok : Option LengthMatch → ℕ → Bool
length_ok none n = true
length_ok (some l) n =
    if ltb 0 l.min_length && ltb n l.min_length
    then false
    else if ltb 0 l.max_length && ltb l.max_length n
    then false
    else true

-- The test of the bytes at the offset.
pub bytes_ok : List ℕ → ℕ → SignatureRule → Bool
unfolding masked_equal bytes_equal
bytes_ok bytes n sig =
    if ltb n (sig.offset + length sig.decoded_bytes)
    then false
    else if ltb 0 (length sig.decoded_mask)
    then masked_equal (drop sig.offset bytes) sig.decoded_bytes sig.decoded_mask
    else bytes_equal (drop sig.offset bytes) sig.decoded_bytes

-- FilterComponent.HandlePacket: the tags that the packet is routed to; `none` is the error for a
-- protocol without a detour. (A detected protocol with the empty name counts as none detected.)
pub record Filter : Type 0 where
  pub detour : List (String × List String)
  pub detour_miss : List String
  pub use_proto_detectors : List String

module _ (contains : List ℕ → List ℕ → Bool) where
  -- matchSignature, on data that is at least as long as the given length.
  pub match_signature : List ℕ → ℕ → SignatureRule → Bool
  unfolding length_ok bytes_ok
  match_signature bytes n sig =
      if not (length_ok sig.length_match n)
      then false
      else if sig.has_bytes && not (bytes_ok bytes n sig)
      then false
      else if sig.has_contains && not (contains (take n bytes) sig.decoded_contains)
      then false
      else true

  -- The loop of matchProtocol, which stops at the first signature that decides.
  pub match_loop : Bool → List ℕ → ℕ → List SignatureRule → Bool
  unfolding match_signature
  match_loop match_all bytes n [] = match_all
  match_loop match_all bytes n (sig ∷ sigs) =
      let rest = match_loop match_all bytes n sigs in
      let matched = match_signature bytes n sig in
      if match_all && not matched then false else if not match_all && matched then true else rest

  pub match_protocol : List ℕ → ℕ → ProtocolDefinition → Bool
  unfolding match_loop
  match_protocol bytes n def =
      if length def.signatures == 0
      then false
      else match_loop (text_eq def.match_logic "AND") bytes n def.signatures

  -- DetectProtocol: the first of the protocols that matches. A name that is not defined has the
  -- zero definition, without signatures.
  pub detect_protocol : List (String × ProtocolDefinition) → List ℕ → List String → Option String
  unfolding match_protocol
  detect_protocol defs bytes [] = none
  detect_protocol defs bytes (name ∷ names) =
      let rest = detect_protocol defs bytes names in
      let def : ProtocolDefinition = elim (find name defs) [
        | none ↦ record { signatures = []; match_logic = "" }
        | some d ↦ d
      ] in
      if match_protocol bytes (length bytes) def then some name else rest

  pub filter_targets : List (String × ProtocolDefinition) → Filter → List ℕ → Option (List String)
  unfolding detect_protocol
  filter_targets defs f bytes = elim (detect_protocol defs bytes f.use_proto_detectors) [
    | none ↦ some f.detour_miss
    | some proto ↦ if text_eq proto "" then some f.detour_miss else find proto f.detour
  ]
