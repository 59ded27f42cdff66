-- ===== src/Db/Instant.antt =====
-- dashboard/app/db.py: the text of `iso_now`, and that the order of such texts is the order of time.
use hybrid_tls_lab.Prelude.{
  ℕ, zero, suc, ◌+◌, ◌*◌, ◌/◌, ◌%◌, ◌<◌, ◌≤◌, ◌≡◌, refl, sym, ap, ◌∙◌, inl, inr, arith, Bool, true,
  false, ◌&&◌, ◌||◌, List, [], ◌∷◌, ◌++◌, ltb, ◌==◌, Bool-cases,
}
use native.Mathlib.Nat.{mul-le-mul_right}
use mathlib.Core.List.{append_assoc}
use hybrid_tls_lab.Prelude.Text.{Text, codes}

-- The fields of a time in UTC.
pub record Moment : Type 0 where
  pub year : ℕ
  pub month : ℕ
  pub day : ℕ
  pub hour : ℕ
  pub minute : ℕ
  pub second : ℕ
  pub millisecond : ℕ

-- A number in a fixed number of digits.
unfoldable pub pad : ℕ → ℕ → Text
pad zero n = []
pad (suc w) n = pad w (n / 10) ++ (b'0' + n % 10) ∷ []

-- `isoformat(timespec="milliseconds")`
unfoldable pub iso_text : Moment → Text
iso_text m =
    pad 4 m.year
    ++ b'-'
      ∷ (pad 2 m.month
          ++ b'-'
            ∷ (pad 2 m.day
                ++ b'T'
                  ∷ (pad 2 m.hour
                      ++ b':'
                        ∷ (pad 2 m.minute
                            ++ b':'
                              ∷ (pad 2 m.second
                                  ++ b'.' ∷ (pad 3 m.millisecond ++ codes "+00:00"))))))

-- The order of texts by which SQLite sorts.
abbrev pub text_ltb : Text → Text → Bool
text_ltb [] [] = false
text_ltb [] (b ∷ t) = true
text_ltb (a ∷ s) [] = false
text_ltb (a ∷ s) (b ∷ t) = ltb a b || (a == b && text_ltb s t)

-- The number of an instant, with room for every field.
unfoldable pub instant : Moment → ℕ
instant m =
    (((((m.year * 13 + m.month) * 32 + m.day) * 24 + m.hour) * 60 + m.minute) * 60 + m.second)
      * 1000
    + m.millisecond

-- The fields have their ranges.
pub record IsMoment (m : Moment) : Type 0 where
  pub year : m.year < 10_000
  pub month : m.month < 13
  pub day : m.day < 32
  pub hour : m.hour < 24
  pub minute : m.minute < 60
  pub second : m.second < 60
  pub millisecond : m.millisecond < 1000

-- The number has at most so many digits.
abbrev Fits : ℕ → ℕ → Type 0
Fits zero n = n ≡ 0
Fits (suc w) n = Fits w (n / 10)

-- First by the one, then by the other.
abbrev first_by : Bool → Bool → Bool → Bool
first_by less same later = less || (same && later)

by_digit :
    (a b : ℕ) (later : Bool)
    → first_by
        (ltb (a / 10) (b / 10))
        (a / 10 == b / 10)
        (first_by (ltb (b'0' + a % 10) (b'0' + b % 10)) ((b'0' + a % 10) == (b'0' + b % 10)) later)
      ≡ first_by (ltb a b) (a == b) later
by_digit a b later = ground arith

text_ltb-pad :
    (w a b : ℕ) (s t : Text)
    → Fits w a
    → Fits w b
    → text_ltb (pad w a ++ s) (pad w b ++ t) ≡ first_by (ltb a b) (a == b) (text_ltb s t)
unfolding pad
text_ltb-pad zero a b s t h h' = rw (h, h') refl
text_ltb-pad (suc w) a b s t h h' =
    rw
      (
        append_assoc (pad w (a / 10)) ((b'0' + a % 10) ∷ []) s,
        append_assoc (pad w (b / 10)) ((b'0' + b % 10) ∷ []) t,
      )
      (text_ltb-pad w (a / 10) (b / 10) ((b'0' + a % 10) ∷ s) ((b'0' + b % 10) ∷ t) h h'
        ∙ by_digit a b (text_ltb s t))

-- How two numbers compare: whether the first is less, and whether they are the same.
record Compared (a b : ℕ) (less same : Bool) : Type 0 where
  before : ltb a b ≡ less
  equal : (a == b) ≡ same

-- A number with one more digit, of base `k`.
radix :
    (k a b x y : ℕ)
    → x < k
    → y < k
    → Compared (a * k + x) (b * k + y) (first_by (ltb a b) (a == b) (ltb x y)) (a == b && x == y)
radix k a b x y h h' = elim (Bool-cases (ltb a b)) [
  | inl e ↦
      let more : (a + 1) * k ≤ b * k = mul-le-mul_right k (ground arith) in
      record { before = ground arith; equal = ground arith }
  | inr e ↦ elim (Bool-cases (a == b)) [
    | inl same ↦
        let equal : a ≡ b = ground arith in
        record { before = rw equal (ground arith); equal = rw equal (ground arith) }
    | inr other ↦
        let more : (b + 1) * k ≤ a * k = mul-le-mul_right k (ground arith) in
        record { before = ground arith; equal = ground arith }
  ]
]

-- Numbers that are made of digits, compared by the first digits and then by the next ones.
abbrev after : Bool × Bool → List (Bool × Bool) → Bool
after (less, same) [] = less
after (less, same) ((less', same') ∷ rest) = after (first_by less same less', same && same') rest

abbrev in_turn : List (Bool × Bool) → Bool
in_turn [] = false
in_turn ((less, same) ∷ rest) = first_by less same (in_turn rest)

first_by_assoc :
    (l e l' e' r : Bool) → first_by (first_by l e l') (e && e') r ≡ first_by l e (first_by l' e' r)
first_by_assoc true e l' e' r = refl
first_by_assoc false true true e' r = refl
first_by_assoc false true false e' r = refl
first_by_assoc false false l' e' r = refl

after-in_turn :
    (l e : Bool) (rest : List (Bool × Bool)) → after (l, e) rest ≡ first_by l e (in_turn rest)
after-in_turn true e [] = refl
after-in_turn false true [] = refl
after-in_turn false false [] = refl
after-in_turn l e ((l', e') ∷ rest) =
    after-in_turn (first_by l e l') (e && e') rest ∙ first_by_assoc l e l' e' (in_turn rest)

next_digit :
    (k : ℕ) {a b x y : ℕ} {less same : Bool}
    → x < k
    → y < k
    → Compared a b less same
    → Compared (a * k + x) (b * k + y) (first_by less same (ltb x y)) (same && x == y)
next_digit k {a} {b} {x} {y} h h' c =
    let r = radix k a b x y h h' in
    record {
      before = r.before ∙ (λ i. first_by (c.before i) (c.equal i) (ltb x y));
      equal = r.equal ∙ (λ i. c.equal i && x == y);
    }

module _ (a b : Moment) where
  -- How the two compare by one field.
  abbrev by : (Moment → ℕ) → Bool × Bool
  by f = (ltb (f a) (f b), f a == f b)

  abbrev fields : List (Bool × Bool)
  fields =
      by (λ m. m.month)
      ∷ by (λ m. m.day)
      ∷ by (λ m. m.hour)
      ∷ by (λ m. m.minute)
      ∷ by (λ m. m.second)
      ∷ by (λ m. m.millisecond)
      ∷ []

  instant-in_turn :
      IsMoment a → IsMoment b → ltb (instant a) (instant b) ≡ in_turn (by (λ m. m.year) ∷ fields)
  unfolding instant
  instant-in_turn v v' =
      let year : Compared a.year b.year (ltb a.year b.year) (a.year == b.year) = record {
        before = refl;
        equal = refl;
      } in
      let month = next_digit 13 v.month v'.month year in
      let day = next_digit 32 v.day v'.day month in
      let hour = next_digit 24 v.hour v'.hour day in
      let minute = next_digit 60 v.minute v'.minute hour in
      let second = next_digit 60 v.second v'.second minute in
      let millisecond = next_digit 1000 v.millisecond v'.millisecond second in
      millisecond.before ∙ after-in_turn (ltb a.year b.year) (a.year == b.year) fields

  text_ltb-in_turn :
      IsMoment a
      → IsMoment b
      → text_ltb (iso_text a) (iso_text b) ≡ in_turn (by (λ m. m.year) ∷ fields)
  unfolding iso_text
  text_ltb-in_turn v v' =
      let after_field = λ (f : Moment → ℕ) (r : Bool). first_by (ltb (f a) (f b)) (f a == f b) r in
      text_ltb-pad 4 a.year b.year _ _ (omega (arith, v.year)) (omega (arith, v'.year))
      ∙ ap (after_field (λ m. m.year)) (
          text_ltb-pad 2 a.month b.month _ _ (omega (arith, v.month)) (omega (arith, v'.month))
          ∙ ap (after_field (λ m. m.month)) (
              text_ltb-pad 2 a.day b.day _ _ (omega (arith, v.day)) (omega (arith, v'.day))
              ∙ ap (after_field (λ m. m.day)) (
                  text_ltb-pad 2 a.hour b.hour _ _ (omega (arith, v.hour)) (omega (arith, v'.hour))
                  ∙ ap (after_field (λ m. m.hour)) (
                      text_ltb-pad 2 a.minute b.minute _ _ (omega (arith, v.minute))
                        (omega (arith, v'.minute))
                      ∙ ap (after_field (λ m. m.minute)) (
                          text_ltb-pad 2 a.second b.second _ _ (omega (arith, v.second))
                            (omega (arith, v'.second))
                          ∙ ap (after_field (λ m. m.second)) (
                              text_ltb-pad 3 a.millisecond b.millisecond _ _
                                (omega (arith, v.millisecond)) (omega (arith, v'.millisecond))))))))

  -- Of two times in the years up to 9999 the text of the one sorts before that of the other exactly
  -- if its number is the smaller: to order rows by the stored texts is to order them by time.
  pub text_ltb-iso_text :
      IsMoment a → IsMoment b → text_ltb (iso_text a) (iso_text b) ≡ ltb (instant a) (instant b)
  text_ltb-iso_text v v' = text_ltb-in_turn v v' ∙ sym (instant-in_turn v v')
