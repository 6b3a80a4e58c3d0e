-- ===== src/Auth/Dedup/Issue.antt =====
-- auth_protocol.go: the nonces that generateNextNonce issues, each marked as used before the next.
use udplex.Prelude.{
  ℕ, ◌-◌, ◌≤◌, ◌<◌, ◌≡◌, refl, sym, ◌∙◌, ap, false, Option, none, some, ltb, arith, inl, inr,
  Bool-cases, subst,
}
use udplex.Table.{find, number_key}
use udplex.Auth.Dedup.{bitmap_size, Nonce, Dedup, issue, next_nonce, mark_as_used, is_duplicate}
use udplex.Auth.Dedup.Marks.{
  seen, is_duplicate-find, IsSized, is_duplicate-mark_as_used, mark_as_used-IsSized,
}

-- The numbers of the current frame from the next one on are unused.
pub record IsClean (d : Dedup) : Type 0 where
  pub sized : IsSized d
  pub low : d.current_seq ≤ bitmap_size
  pub unused :
      (s : ℕ)
      → d.current_seq ≤ s
      → is_duplicate (record { frame = d.current_frame; seq = s }) d ≡ false

abbrev issued : Dedup → Nonce
issued d = record { frame = d.current_frame; seq = d.current_seq }

-- Issuing from a state that still has a number left.
module _ (now : ℕ) (d : Dedup) (v : IsClean d) (room : d.current_seq < bitmap_size) where
  after : Dedup
  unfolding issue
  after = (issue d).1

  same_answer : (m : Nonce) → is_duplicate m after ≡ is_duplicate m d
  unfolding after
  same_answer m = is_duplicate-find m after refl ∙ sym (is_duplicate-find m d refl)

  after-IsSized : IsSized after
  unfolding after IsSized
  after-IsSized = v.sized

  Issued : Nonce → Dedup → Type 0
  Issued n d' =
      (n.seq < bitmap_size) × (is_duplicate n d' ≡ false) × IsClean (mark_as_used now n d')

  issue_new : Issued (issued d) after
  unfolding Issued after mark_as_used
  issue_new = (
    room,
    same_answer (issued d) ∙ v.unused d.current_seq (omega arith),
    record {
      sized = mark_as_used-IsSized now (issued d) after after-IsSized;
      low = omega arith;
      unused = λ s le.
          is_duplicate-mark_as_used now (issued d) after after-IsSized
            (record { frame = d.current_frame; seq = s })
          ∙ ground (
            arith,
            same_answer (record { frame = d.current_frame; seq = s }),
            v.unused s (omega arith),
          );
    },
  )

  issue_only : (n : Nonce) (d' : Dedup) → issue d ≡ (some n, d') → Issued n d'
  unfolding after issue
  issue_only n d' h =
      let first : some (issued d) ≡ some n = ap (λ x. x.0) h in
      let nonce : issued d ≡ n = cc in
      let state : after ≡ d' = ap (λ x. x.1) h in
      subst (Issued n) state (subst (λ m. Issued m after) nonce issue_new)

-- A nonce that is issued is in the range of the bit map and was not used before, and the state after
-- marking it as used allows the same for the next one. A new frame id has to be one that the
-- manager does not know.
pub next_nonce_new :
    (now : ℕ) (fresh : Option ℕ) (n : Nonce) (d d' : Dedup)
    → IsClean d
    → ((id : ℕ) → fresh ≡ some id → find id d.frames ≡ none)
    → next_nonce fresh d ≡ (some n, d')
    → (n.seq < bitmap_size) × (is_duplicate n d' ≡ false) × IsClean (mark_as_used now n d')
unfolding next_nonce Issued IsSized seen
next_nonce_new now none n d d' v new h = elim (Bool-cases (ltb (bitmap_size - 1) d.current_seq)) [
  | inr e ↦ issue_only now d v (ground arith) n d' (sym (rw e refl) ∙ h)
  | inl e ↦
      let stuck : ◌≡◌ {A = Option Nonce × Dedup} (none, d) (some n, d') = sym (rw e refl) ∙ h in
      let gone : none ≡ some n = ap (λ x. x.0) stuck in cc
]
next_nonce_new now (some id) n d d' v new h =
    elim (Bool-cases (ltb (bitmap_size - 1) d.current_seq)) [
      | inr e ↦ issue_only now d v (ground arith) n d' (sym (rw e refl) ∙ h)
      | inl e ↦
          let start = record d { current_frame = id; current_seq = 0 } in
          let clean : IsClean start = record {
            sized = v.sized;
            low = omega arith;
            unused = λ s le.
                is_duplicate-find (record { frame = id; seq = s }) start (new id refl) ∙ refl;
          } in
          issue_only now start clean (omega arith) n d' (sym (rw e refl) ∙ h)
    ]
