-- ===== src/Tls/Benchmark/Samples.antt =====
-- The sample ids of a run.
use hybrid_tls_lab.Prelude.{
  ℕ, zero, suc, ◌+◌, ◌-◌, ◌*◌, ◌/◌, ◌%◌, ◌^◌, ◌<◌, ◌≤◌, ◌≡◌, refl, ap, ◌∙◌, sym, inl, inr, arith,
  Bool, true, ◌&&◌, [], ◌∷◌, ◌++◌, ltb, ◌==◌, Bool-cases, length, get_or, take_of_le, length-append,
}
use mathlib.Core.Path.{subst}
use hybrid_tls_lab.Prelude.Json.{drop_codes}
use native.Mathlib.Numerals.{unary_clauses}
use hybrid_tls_lab.Prelude.Text.{
  Text, is_digit, all_codes, to_int_from, to_int, text_eq, text_eq_iff, text_eq_refl,
}
use hybrid_tls_lab.Prelude.Text.Decimal.{str_of, digits_of, is_digits-str_of, to_int-str_of}
use hybrid_tls_lab.Db.Instant.{pad}
use hybrid_tls_lab.Schemas.{Mode, classical, hybrid, hybrid_p256, mode_text, is_id_code, is_id}
use hybrid_tls_lab.Tls.Server.Query.{length-of-is_id}
use hybrid_tls_lab.Tls.Benchmark.{sequence_text, sample_id_of}

to_int_from-append : (k : ℕ) (s t : Text) → to_int_from k (s ++ t) ≡ to_int_from (to_int_from k s) t
to_int_from-append k [] t = refl
to_int_from-append k (c ∷ s) t = to_int_from-append (k * 10 + (c - b'0')) s t

to_int-pad : (w n : ℕ) → n < 10 ^ w → to_int (pad w n) ≡ n
unfolding pad
to_int-pad zero n h = omega (arith)
to_int-pad (suc w) n h =
    let bound : n < 10 ^ w * 10 = omega (arith, simp unary_clauses at h) in
    to_int_from-append 0 (pad w (n / 10)) ((b'0' + n % 10) ∷ [])
    ∙ ap (λ k. to_int_from k ((b'0' + n % 10) ∷ [])) (to_int-pad w (n / 10) (omega arith))
    ∙ omega arith

to_int-sequence_text : (n : ℕ) → to_int (sequence_text n) ≡ n
to_int-sequence_text n = elim (Bool-cases (ltb n 1_000_000)) [
  | inl e ↦ rw e (to_int-pad 6 n (ground arith))
  | inr e ↦ rw e (to_int-str_of n)
]

sequence_text-injective : (m n : ℕ) → sequence_text m ≡ sequence_text n → m ≡ n
sequence_text-injective m n h = sym (to_int-sequence_text m) ∙ ap to_int h ∙ to_int-sequence_text n

append-injective : (s t u : Text) → s ++ t ≡ s ++ u → t ≡ u
append-injective [] t u h = h
append-injective (c ∷ s) t u h = append-injective s t u (cc)

-- The end of a sample id.
abbrev suffix : Mode → ℕ → Text
suffix mode n = mode_text mode ++ b'-' ∷ sequence_text n

suffix-injective :
    (a b : Mode) (m n : ℕ) → suffix a m ≡ suffix b n → (a ≡ b) × (sequence_text m ≡ sequence_text n)
suffix-injective classical classical m n h = (refl, cc)
suffix-injective classical hybrid m n h = absurd (omega (arith, ap (λ (s : Text). get_or s 0 0) h))
suffix-injective classical hybrid_p256 m n h =
    absurd (omega (arith, ap (λ (s : Text). get_or s 0 0) h))
suffix-injective hybrid classical m n h = absurd (omega (arith, ap (λ (s : Text). get_or s 0 0) h))
suffix-injective hybrid hybrid m n h = (refl, cc)
suffix-injective hybrid hybrid_p256 m n h =
    absurd (omega (arith, ap (λ (s : Text). get_or s 6 0) h))
suffix-injective hybrid_p256 classical m n h =
    absurd (omega (arith, ap (λ (s : Text). get_or s 0 0) h))
suffix-injective hybrid_p256 hybrid m n h =
    absurd (omega (arith, ap (λ (s : Text). get_or s 6 0) h))
suffix-injective hybrid_p256 hybrid_p256 m n h = (refl, cc)

-- The whole of a sample id, as it is before it is put into its buffer.
abbrev pub whole_id : Text → Mode → ℕ → Text
whole_id run_id mode n = run_id ++ b'-' ∷ suffix mode n

length-pad : (w n : ℕ) → length (pad w n) ≡ w
unfolding pad
length-pad zero n = refl
length-pad (suc w) n =
    omega (arith, length-append (pad w (n / 10)) ((b'0' + n % 10) ∷ []), length-pad w (n / 10))

length-million : length (str_of 1_000_000) ≡ 7
unfolding digits_of
length-million = refl

length-sequence_text : (n : ℕ) → n ≤ 1_000_000 → length (sequence_text n) ≤ 7
length-sequence_text n h = elim (Bool-cases (ltb n 1_000_000)) [
  | inl e ↦ rw e (omega (arith, length-pad 6 n))
  | inr e ↦
      let last : n ≡ 1_000_000 = ground arith in
      subst (λ k. length (sequence_text k) ≤ 7) (sym last) (omega (arith, length-million))
]

pub length-mode_text : (mode : Mode) → length (mode_text mode) ≤ 11
length-mode_text classical = omega arith
length-mode_text hybrid = omega arith
length-mode_text hybrid_p256 = omega arith

-- A sample id is at most 20 characters longer than its run id.
pub length-whole_id :
    (run_id : Text) (mode : Mode) (n : ℕ)
    → n ≤ 1_000_000
    → length (whole_id run_id mode n) ≤ length run_id + 20
length-whole_id run_id mode n h = omega (
  arith,
  length-append run_id (b'-' ∷ suffix mode n),
  length-append (mode_text mode) (b'-' ∷ sequence_text n),
  length-mode_text mode,
  length-sequence_text n h,
)

-- It fits its buffer if the run id has at most 159 characters.
pub sample_id_of-whole :
    (run_id : Text) (mode : Mode) (n : ℕ)
    → length run_id ≤ 159
    → n ≤ 1_000_000
    → sample_id_of run_id (mode_text mode) n ≡ whole_id run_id mode n
unfolding sample_id_of
sample_id_of-whole run_id mode n short h =
    take_of_le 179 (whole_id run_id mode n) (omega (arith, length-whole_id run_id mode n h))

-- The mode and the sequence number can be told from a sample id.
sample_id_of-injective :
    (run_id : Text) (a b : Mode) (m n : ℕ)
    → length run_id ≤ 159
    → m ≤ 1_000_000
    → n ≤ 1_000_000
    → sample_id_of run_id (mode_text a) m ≡ sample_id_of run_id (mode_text b) n
    → (a ≡ b) × (m ≡ n)
sample_id_of-injective run_id a b m n short hm hn h =
    let whole =
      sym (sample_id_of-whole run_id a m short hm) ∙ h ∙ sample_id_of-whole run_id b n short hn in
    let ends : suffix a m ≡ suffix b n =
      ap (drop_codes 1) (append-injective run_id (b'-' ∷ suffix a m) (b'-' ∷ suffix b n) whole) in
    let (mode, sequence) = suffix-injective a b m n ends in
    (mode, sequence_text-injective m n sequence)

same_ids :
    (run_id : Text) (a b : Mode) (m n : ℕ)
    → (text_eq (mode_text a) (mode_text b) && m == n) ≡ true
    → sample_id_of run_id (mode_text a) m ≡ sample_id_of run_id (mode_text b) n
same_ids run_id a b m n h =
    let mode : mode_text a ≡ mode_text b =
      (text_eq_iff (mode_text a) (mode_text b)).0 (ground arith) in
    let sequence : m ≡ n = ground arith in rw (mode, sequence)

-- Two probes of a run have the same sample id just if they are of one mode and one sequence number,
-- so that no report of a probe overwrites another's: for a run id of at most 159 characters and
-- sequence numbers up to 1,000,000.
pub text_eq-sample_id_of :
    (run_id : Text) (a b : Mode) (m n : ℕ)
    → length run_id ≤ 159
    → m ≤ 1_000_000
    → n ≤ 1_000_000
    → text_eq (sample_id_of run_id (mode_text a) m) (sample_id_of run_id (mode_text b) n)
      ≡ (text_eq (mode_text a) (mode_text b) && m == n)
text_eq-sample_id_of run_id a b m n short hm hn =
    let s = sample_id_of run_id (mode_text a) m in
    let t = sample_id_of run_id (mode_text b) n in
    elim (Bool-cases (text_eq s t)) [
      | inl e ↦
          let (mode, sequence) =
            sample_id_of-injective run_id a b m n short hm hn ((text_eq_iff s t).0 e) in
          rw e (rw (mode, sequence) (ground (arith, text_eq_refl (mode_text b))))
      | inr e ↦ elim (Bool-cases (text_eq (mode_text a) (mode_text b) && m == n)) [
        | inl same ↦ let equal = (text_eq_iff s t).1 (same_ids run_id a b m n same) in cc
        | inr other ↦ rw (e, other)
      ]
    ]

all_codes-append :
    (p : ℕ → Bool) (s t : Text)
    → all_codes p s ≡ true
    → all_codes p t ≡ true
    → all_codes p (s ++ t) ≡ true
all_codes-append p [] t h k = k
all_codes-append p (c ∷ s) t h k = ground (arith, all_codes-append p s t)

id_codes_of_digits : (s : Text) → all_codes is_digit s ≡ true → all_codes is_id_code s ≡ true
id_codes_of_digits [] h = refl
id_codes_of_digits (c ∷ s) h = ground (arith, id_codes_of_digits s)

digits-pad : (w n : ℕ) → all_codes is_digit (pad w n) ≡ true
unfolding pad
digits-pad zero n = refl
digits-pad (suc w) n =
    all_codes-append is_digit (pad w (n / 10)) ((b'0' + n % 10) ∷ []) (digits-pad w (n / 10))
      (ground arith)

id_codes-sequence_text : (n : ℕ) → all_codes is_id_code (sequence_text n) ≡ true
id_codes-sequence_text n = elim (Bool-cases (ltb n 1_000_000)) [
  | inl e ↦ rw e (id_codes_of_digits (pad 6 n) (digits-pad 6 n))
  | inr e ↦ rw e (id_codes_of_digits (str_of n) (ground (arith, is_digits-str_of n)))
]

id_codes-suffix : (mode : Mode) (n : ℕ) → all_codes is_id_code (suffix mode n) ≡ true
id_codes-suffix classical n = id_codes-sequence_text n
id_codes-suffix hybrid n = id_codes-sequence_text n
id_codes-suffix hybrid_p256 n = id_codes-sequence_text n

is_id-append :
    (m n : ℕ) (s t : Text)
    → is_id m s ≡ true
    → all_codes is_id_code t ≡ true
    → length (s ++ t) ≤ n
    → is_id n (s ++ t) ≡ true
unfolding is_id
is_id-append m n [] t id h fits = cc
is_id-append m n (c ∷ s) t id h fits = ground (arith, all_codes-append is_id_code (c ∷ s) t)

-- The sample ids of a run whose id the schemas take are taken as well.
pub sample_id_of-is_id :
    (run_id : Text) (mode : Mode) (n : ℕ)
    → is_id 139 run_id ≡ true
    → n ≤ 1_000_000
    → is_id 160 (sample_id_of run_id (mode_text mode) n) ≡ true
sample_id_of-is_id run_id mode n id h =
    let (_, short) = length-of-is_id 139 run_id id in
    subst (λ s. is_id 160 s ≡ true) (sym (sample_id_of-whole run_id mode n (omega arith) h))
      (is_id-append 139 160 run_id (b'-' ∷ suffix mode n) id (id_codes-suffix mode n)
        (omega (arith, length-whole_id run_id mode n h)))
