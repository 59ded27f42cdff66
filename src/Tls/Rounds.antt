-- ===== src/Tls/Rounds.antt =====
-- The rounds of a run: no probe stands in them twice, and each mode once in each.
use hybrid_tls_lab.Prelude.{
  ℕ, zero, suc, ◌+◌, ◌-◌, ◌%◌, ◌≤◌, ◌≡◌, refl, ◌∙◌, inl, inr, arith, Bool, false, ◌&&◌, List, [],
  ◌∷◌, ◌==◌, if◌then◌else◌, count_if, All, All-imp, Bool-cases,
}
use hybrid_tls_lab.Prelude.Text.{text_eq}
use hybrid_tls_lab.Schemas.{Mode, classical, hybrid, hybrid_p256, mode_text}
use hybrid_tls_lab.Main.App.Writes.{mode_stored}
use hybrid_tls_lab.Tls.Benchmark.Run.{rotation, rounds}
use hybrid_tls_lab.Tls.Delivery.{mode_at}

-- Two probes of a schedule are of different modes or sequence numbers.
abbrev pub same_probe : ℕ × ℕ → ℕ × ℕ → Bool
same_probe a b = text_eq (mode_text (mode_at a.1)) (mode_text (mode_at b.1)) && a.0 == b.0

abbrev pub Apart : List (ℕ × ℕ) → Type 0
Apart [] = Unit
Apart (a ∷ s) = All (λ b. same_probe a b ≡ false) s × Apart s

-- The schedule of a run.
pub rounds_small :
    (n index : ℕ)
    → index + n ≤ 1_000_000
    → All (λ at. suc index ≤ at.0 × at.0 ≤ 1_000_000) (rounds rotation (suc index) n)
unfolding rounds rotation
rounds_small zero index h = tt
rounds_small (suc n) index h =
    let later : All (λ at. suc index ≤ at.0 × at.0 ≤ 1_000_000)
        (rounds rotation (suc (suc index)) n) =
      All-imp (rounds rotation (suc (suc index)) n) (λ at k. (omega arith, k.1))
        (rounds_small n (suc index) (omega arith)) in
    ((omega arith, omega arith), ((omega arith, omega arith), ((omega arith, omega arith), later)))

earlier-same_probe :
    (index slot : ℕ) (b : ℕ × ℕ)
    → suc (suc index) ≤ b.0 × b.0 ≤ 1_000_000
    → same_probe (suc index, slot) b ≡ false
earlier-same_probe index slot b h =
    let other : (suc index == b.0) ≡ false = ground arith in rw other (ground arith)

other_round :
    (index slot : ℕ) (s : List (ℕ × ℕ))
    → All (λ at. suc (suc index) ≤ at.0 × at.0 ≤ 1_000_000) s
    → All (λ b. same_probe (suc index, slot) b ≡ false) s
other_round index slot s h = All-imp s (earlier-same_probe index slot) h

-- The slots of a round stand in one of three orders.
data Order (a b c : ℕ) : Type 0 where
  first_leads : a ≡ 0 → b ≡ 1 → c ≡ 2 → Order a b c
  second_leads : a ≡ 1 → b ≡ 2 → c ≡ 0 → Order a b c
  third_leads : a ≡ 2 → b ≡ 0 → c ≡ 1 → Order a b c

round-Order : (start : ℕ) → Order ((start + 0) % 3) ((start + 1) % 3) ((start + 2) % 3)
round-Order start = elim (Bool-cases (start % 3 == 0)) [
  | inl e ↦ first_leads (ground arith) (ground arith) (ground arith)
  | inr e ↦ elim (Bool-cases (start % 3 == 1)) [
    | inl e' ↦ second_leads (ground arith) (ground arith) (ground arith)
    | inr e' ↦ third_leads (ground arith) (ground arith) (ground arith)
  ]
]

modes_in_round :
    (a b c : ℕ)
    → Order a b c
    → (text_eq (mode_text (mode_at a)) (mode_text (mode_at b)) ≡ false)
      × (text_eq (mode_text (mode_at a)) (mode_text (mode_at c)) ≡ false)
      × (text_eq (mode_text (mode_at b)) (mode_text (mode_at c)) ≡ false)
modes_in_round a b c (first_leads p q r) = rw (p, q, r) (refl, refl, refl)
modes_in_round a b c (second_leads p q r) = rw (p, q, r) (refl, refl, refl)
modes_in_round a b c (third_leads p q r) = rw (p, q, r) (refl, refl, refl)

pub rounds-Apart : (n index : ℕ) → index + n ≤ 1_000_000 → Apart (rounds rotation (suc index) n)
unfolding rounds rotation
rounds-Apart zero index h = tt
rounds-Apart (suc n) index h =
    let start = (suc index - 1) % 3 in
    let rest = rounds rotation (suc (suc index)) n in
    let small = rounds_small n (suc index) (omega arith) in
    let (m01, m02, m12) = modes_in_round _ _ _ (round-Order start) in
    (
      (rw m01 refl, (rw m02 refl, other_round index ((start + 0) % 3) rest small)),
      (
        (rw m12 refl, other_round index ((start + 1) % 3) rest small),
        (other_round index ((start + 2) % 3) rest small, rounds-Apart n (suc index) (omega arith)),
      ),
    )

-- A probe whose report is stored in a mode.
abbrev pub stored_in : Mode → ℕ × ℕ → Bool
stored_in mode at =
    mode_stored (mode_at at.1) && text_eq (mode_text (mode_at at.1)) (mode_text mode)

one_of_round :
    (mode : Mode) (index a b c : ℕ) (rest : List (ℕ × ℕ))
    → Order a b c
    → count_if (stored_in mode) ((index, a) ∷ (index, b) ∷ (index, c) ∷ rest)
      ≡ (if mode_stored mode then 1 else 0) + count_if (stored_in mode) rest
one_of_round classical index a b c rest (first_leads p q r) = rw (p, q, r) (omega arith)
one_of_round classical index a b c rest (second_leads p q r) = rw (p, q, r) (omega arith)
one_of_round classical index a b c rest (third_leads p q r) = rw (p, q, r) (omega arith)
one_of_round hybrid index a b c rest (first_leads p q r) = rw (p, q, r) (omega arith)
one_of_round hybrid index a b c rest (second_leads p q r) = rw (p, q, r) (omega arith)
one_of_round hybrid index a b c rest (third_leads p q r) = rw (p, q, r) (omega arith)
one_of_round hybrid_p256 index a b c rest (first_leads p q r) = rw (p, q, r) (omega arith)
one_of_round hybrid_p256 index a b c rest (second_leads p q r) = rw (p, q, r) (omega arith)
one_of_round hybrid_p256 index a b c rest (third_leads p q r) = rw (p, q, r) (omega arith)

pub count_of_rounds :
    (mode : Mode) (n index : ℕ)
    → count_if (stored_in mode) (rounds rotation (suc index) n)
      ≡ (if mode_stored mode then n else 0)
unfolding rounds rotation
count_of_rounds mode zero index = ground arith
count_of_rounds mode (suc n) index =
    one_of_round mode (suc index) _ _ _ (rounds rotation (suc (suc index)) n)
      (round-Order ((suc index - 1) % 3))
    ∙ ground (arith, count_of_rounds mode n (suc index))
