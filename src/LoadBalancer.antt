-- ===== src/LoadBalancer.antt =====
-- load_balancer.go: the traffic window, the rules and the decision for a packet. The expression
-- library is a parameter: `eval` runs a compiled rule, with the variables at hand, to its result.
mod Tests
pub mod Window
pub mod Batch
use udplex.Prelude.{
  ℕ, ◌+◌, ◌-◌, ◌*◌, ◌/◌, ◌%◌, ◌^◌, Bool, true, false, not, ◌&&◌, ◌||◌, Option, none, some, List, [],
  ◌∷◌, ◌++◌, get_or, set, length, replicate, ltb, ◌==◌, if◌then◌else◌,
}
use Prim.Native.String.{String}

pub record Sample : Type 0 where
  pub bytes : ℕ
  pub packets : ℕ

abbrev pub no_sample : Sample
no_sample = record { bytes = 0; packets = 0 }

pub record TrafficStats : Type 0 where
  pub samples : List Sample
  pub current_index : ℕ
  pub window_size : ℕ
  pub current_bytes : ℕ
  pub current_packets : ℕ
  pub total_bytes : ℕ
  pub total_packets : ℕ

pub new_stats : ℕ → TrafficStats
new_stats size = record {
  samples = replicate size no_sample;
  current_index = 0;
  window_size = size;
  current_bytes = 0;
  current_packets = 0;
  total_bytes = 0;
  total_packets = 0;
}

abbrev word : ℕ
word = 2 ^ 64

-- updateStats
pub update_stats : ℕ → TrafficStats → TrafficStats
update_stats size s = record s {
  current_bytes = (s.current_bytes + size) % word;
  current_packets = (s.current_packets + 1) % word;
}

-- getCurrentStats: bits and packets per second over the window and the running second.
pub get_current_stats : TrafficStats → ℕ × ℕ
get_current_stats s =
    let count = (s.window_size + 1) % 2 ^ 32 in
    (
      ((s.total_bytes + s.current_bytes) % word * 8) % word / count,
      ((s.total_packets + s.current_packets) % word) / count,
    )

-- sampleStats on a window with samples, without the update of the cached results.
pub shift_window : TrafficStats → TrafficStats
shift_window s =
    let counter = (s.current_index + 1) % 2 ^ 32 in
    let index = counter % s.window_size in
    let old = get_or s.samples index no_sample in
    record s {
      current_bytes = 0;
      current_packets = 0;
      current_index = counter;
      total_bytes = ((s.total_bytes + s.current_bytes) % word + (word - old.bytes)) % word;
      total_packets = ((s.total_packets + s.current_packets) % word + (word - old.packets)) % word;
      samples =
          set s.samples index (record { bytes = s.current_bytes; packets = s.current_packets });
    }

-- The index modulo a window of no samples panics (`none`).
pub sample_stats : TrafficStats → Option TrafficStats
sample_stats s = if s.window_size == 0 then none else some (shift_window s)

-- A result of the expression library, and what the code makes of it: the test `v != 0` of a case with
-- several types compares an interface with the int 0, so zeros of other types count as true.
pub data Result : Type 0 where
  is_bool : Bool → Result
  is_int : ℕ → Result
  is_other_number : ℕ → Result
  is_other : Result
  is_error : Result

pub truth_of : Result → Bool
truth_of (is_bool b) = b
truth_of (is_int n) = not (n == 0)
truth_of (is_other_number n) = true
truth_of is_other = false
truth_of is_error = false

-- CompiledExpression with its targets.
pub record Rule (P : Type 0) : Type 0 where
  pub program : P
  pub can_cache : Bool
  pub cached_result : Bool
  pub targets : List String

pub record Variables : Type 0 where
  pub seq : ℕ
  pub bps : ℕ
  pub pps : ℕ
  pub size : ℕ

module _ {P : Type 0} (eval : P → Variables → Result) where
  pub evaluate_direct : P → Variables → Bool
  unfolding truth_of
  evaluate_direct p v = truth_of (eval p v)

  -- evaluateCompiledRules
  pub evaluate_rules : Variables → List (Rule P) → List String
  unfolding evaluate_direct
  evaluate_rules v [] = []
  evaluate_rules v (r ∷ rs) =
      let rest = evaluate_rules v rs in
      if (if r.can_cache then r.cached_result else evaluate_direct r.program v)
      then r.targets ++ rest
      else rest

  -- updateCachedResults
  pub update_cached : Variables → List (Rule P) → List (Rule P)
  unfolding evaluate_direct
  update_cached v [] = []
  update_cached v (r ∷ rs) =
      (if r.can_cache then record r { cached_result = evaluate_direct r.program v } else r)
      ∷ update_cached v rs

-- lbBatchDecision
pub record Decision : Type 0 where
  pub batch_id : ℕ
  pub targets : List String

pub record LoadBalancer (P : Type 0) : Type 0 where
  pub miss : List String
  pub stats : TrafficStats
  pub packet_seq : ℕ
  pub rules : List (Rule P)
  pub enable_cache : Bool
  pub batch_decision : Bool
  pub last_batch : Option Decision

module _ {P : Type 0} (eval : P → Variables → Result) where
  -- sampleStats with the cached results that it updates.
  pub tick : LoadBalancer P → Option (LoadBalancer P)
  unfolding sample_stats update_cached get_current_stats
  tick lb = elim (sample_stats lb.stats) [
    | none ↦ none
    | some s ↦
        let (bps, pps) = get_current_stats s in
        some (record lb {
          stats = s;
          rules =
              if lb.enable_cache
              then update_cached eval (record { seq = 0; bps = bps; pps = pps; size = 0 }) lb.rules
              else lb.rules;
        })
  ]

  -- The decision of an earlier packet of the same batch.
  pub batch_targets : LoadBalancer P → ℕ → Option (List String)
  batch_targets lb id =
      if lb.batch_decision && not (id == 0)
      then elim lb.last_batch [
        | none ↦ none
        | some d ↦ if d.batch_id == id then some d.targets else none
      ]
      else none

  -- A fresh decision: the targets of the rules, or those for a miss.
  pub decide : LoadBalancer P → ℕ → List String
  unfolding evaluate_rules get_current_stats
  decide lb size =
      let (bps, pps) = get_current_stats lb.stats in
      let seq = (lb.packet_seq + 1) % word in
      let ts =
        evaluate_rules eval (record { seq = seq; bps = bps; pps = pps; size = size }) lb.rules in
      if length ts == 0 then lb.miss else ts

  -- HandlePacket for a packet of `size` bytes: the state and the targets it is routed to; with no
  -- targets it is dropped.
  pub handle_packet : LoadBalancer P → ℕ → ℕ → LoadBalancer P × List String
  unfolding update_stats batch_targets decide
  handle_packet lb0 size id =
      let lb = record lb0 { stats = update_stats size lb0.stats } in
      elim (batch_targets lb id) [
        | some ts ↦ (lb, ts)
        | none ↦
            let ts = decide lb size in
            let counted = record lb { packet_seq = (lb.packet_seq + 1) % word } in
            if length ts == 0 then (counted, []) else (
              if lb.batch_decision && not (id == 0)
                  then record counted { last_batch = some (record { batch_id = id; targets = ts }) }
                  else counted,
              ts,
            )
      ]
