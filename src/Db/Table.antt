-- ===== src/Db/Table.antt =====
-- A table of rows with a text key, as SQLite keeps it by PRIMARY KEY.
use mathlib.Core.Option.{some-injective}
use hybrid_tls_lab.Prelude.{
  ◌≡◌, refl, arith, Bool, true, false, count_if, Option, none, some, List, [], ◌∷◌, All, inl, inr,
  Bool-cases, if◌then◌else◌,
}
use hybrid_tls_lab.Prelude.Text.{Text, text_eq, text_eq_iff}

module _ {A : Type 0} (key : A → Text) where
  -- The row with a key.
  unfoldable pub find : Text → List A → Option A
  find k [] = none
  find k (r ∷ rs) = if text_eq (key r) k then some r else find k rs

  -- INSERT ... ON CONFLICT DO UPDATE: `update` is applied to the row that has the key of `new`.
  unfoldable pub upsert : (A → A) → A → List A → List A
  upsert update new [] = new ∷ []
  upsert update new (r ∷ rs) =
      if text_eq (key r) (key new) then update r ∷ rs else r ∷ upsert update new rs

  -- No two rows have the same key.
  abbrev pub Distinct : List A → Type 0
  Distinct [] = Unit
  Distinct (r ∷ rs) = (find (key r) rs ≡ none) × Distinct rs

  -- What a row becomes, or the new row.
  abbrev pub merged : (A → A) → A → Option A → A
  merged update new none = new
  merged update new (some r) = update r

  module _ (update : A → A) (keeps : (r : A) → key (update r) ≡ key r) (new : A) where
    pub find-upsert :
        (k : Text) (rs : List A)
        → find k (upsert update new rs) ≡ (
            if text_eq (key new) k then some (merged update new (find (key new) rs)) else find k rs)
    unfolding find upsert
    find-upsert k [] = refl
    find-upsert k (r ∷ rs) = ground (
      arith,
      keeps r,
      text_eq_iff (key r) (key new),
      text_eq_iff (key new) k,
      text_eq_iff (key r) k,
      text_eq_iff (key (update r)) k,
      find-upsert k rs,
    )

    pub upsert-Distinct : (rs : List A) → Distinct rs → Distinct (upsert update new rs)
    unfolding upsert find
    upsert-Distinct [] h = (refl, tt)
    upsert-Distinct (r ∷ rs) h = elim (Bool-cases (text_eq (key r) (key new))) [
      | inl e ↦ rw (e, keeps r) h
      | inr e ↦
          let other : text_eq (key new) (key r) ≡ false =
            ground (arith, text_eq_iff (key new) (key r), text_eq_iff (key r) (key new)) in
          rw e (rw (find-upsert (key r) rs, other) h.0, upsert-Distinct rs h.1)
    ]

    -- What holds of every row holds after the upsert, if the update keeps it and the new row has it.
    pub upsert-All {κ} :
        (P : A → Type κ) (rs : List A)
        → ((r : A) → P r → P (update r))
        → P new
        → All P rs
        → All P (upsert update new rs)
    unfolding upsert
    upsert-All P [] f h all = (h, tt)
    upsert-All P (r ∷ rs) f h all = elim (Bool-cases (text_eq (key r) (key new))) [
      | inl e ↦ rw e (f r all.0, all.1)
      | inr e ↦ rw e (all.0, upsert-All P rs f h all.1)
    ]

  pub find-key : (k : Text) (rs : List A) {r : A} → find k rs ≡ some r → key r ≡ k
  unfolding find
  find-key k [] h = cc
  find-key k (x ∷ rs) {r} h = elim (Bool-cases (text_eq (key x) k)) [
    | inl e ↦
        let same : x ≡ r = some-injective _ _ (rw e at h) in
        rw same at ((text_eq_iff (key x) k).0 e)
    | inr e ↦ find-key k rs (rw e at h)
  ]

  -- The test holds only of rows with the key.
  module _ (q : A → Bool) (k : Text) (only : (r : A) → q r ≡ true → text_eq (key r) k ≡ true) where
    count_if-find-none : (rs : List A) → find k rs ≡ none → count_if q rs ≡ 0
    unfolding find
    count_if-find-none [] h = refl
    count_if-find-none (r ∷ rs) h = ground (arith, only r, count_if-find-none rs)

    -- With distinct keys it holds of one row, if it holds of the one that has the key.
    pub count_if-find :
        (rs : List A) {r : A} → Distinct rs → find k rs ≡ some r → q r ≡ true → count_if q rs ≡ 1
    unfolding find
    count_if-find [] {r} d h holds = cc
    count_if-find (x ∷ rs) {r} d h holds = elim (Bool-cases (text_eq (key x) k)) [
      | inl e ↦
          let same : x ≡ r = some-injective _ _ (rw e at h) in
          let here : q x ≡ true = rw same holds in
          let keyed : key x ≡ k = (text_eq_iff (key x) k).0 e in
          let none_left : find k rs ≡ none = rw keyed at d.0 in
          rw here (omega (arith, count_if-find-none rs none_left))
      | inr e ↦
          let later : find k rs ≡ some r = rw e at h in
          ground (arith, only x, count_if-find rs d.1 later holds)
    ]
