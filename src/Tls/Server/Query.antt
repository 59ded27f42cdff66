-- ===== src/Tls/Server/Query.antt =====
-- The request of a probe, as the endpoint reads it.
use hybrid_tls_lab.Prelude.{
  ℕ, ◌<◌, ◌≤◌, ◌≡◌, refl, ap, arith, Bool, true, false, not, ◌||◌, some, [], ◌∷◌, ◌++◌, leb, ◌==◌,
  length,
}
use hybrid_tls_lab.Prelude.Text.{Text, codes, all_codes, starts_with, contains}
use hybrid_tls_lab.Schemas.{is_id_code, is_id}
use hybrid_tls_lab.Tls.Common.{snprintf}
use hybrid_tls_lab.Tls.Common.Escape.{valid_identifier-is_id}
use hybrid_tls_lab.Tls.Server.{after_first, ends_value, value_of, extract_query_value}

-- A character other than a given one.
abbrev pub is_not : ℕ → ℕ → Bool
is_not d c = not (c == d)

-- A pattern with an equals sign does not begin in a text without one that ends at a character
-- that the pattern does not have.
starts_with-past :
    (d : ℕ) (p s rest : Text)
    → all_codes (is_not b'=') p ≡ false
    → all_codes (is_not d) p ≡ true
    → all_codes (is_not b'=') s ≡ true
    → starts_with (s ++ d ∷ rest) p ≡ false
starts_with-past d [] s rest h h' h'' = cc
starts_with-past d (b ∷ p) [] rest h h' h'' = ground arith
starts_with-past d (b ∷ p) (a ∷ s) rest h h' h'' = ground (arith, starts_with-past d p s rest)

module _ (d : ℕ) (p rest : Text) (equals : all_codes (is_not b'=') p ≡ false)
    (ends : all_codes (is_not d) p ≡ true) where
  pub after_first-past :
      (s : Text)
      → all_codes (is_not b'=') s ≡ true
      → after_first p (s ++ d ∷ rest) ≡ after_first p (d ∷ rest)
  unfolding after_first
  after_first-past [] h = refl
  after_first-past (c ∷ s) h =
      rw (starts_with-past d p (c ∷ s) rest equals ends h) (after_first-past s (ground arith))

  pub contains-past :
      (s : Text)
      → all_codes (is_not b'=') s ≡ true
      → contains p (s ++ d ∷ rest) ≡ contains p (d ∷ rest)
  contains-past [] h = refl
  contains-past (c ∷ s) h =
      rw (starts_with-past d p (c ∷ s) rest equals ends h) (contains-past s (ground arith))

value_of-append :
    (s : Text) (d : ℕ) (rest : Text)
    → all_codes is_id_code s ≡ true
    → ends_value d ≡ true
    → value_of (s ++ d ∷ rest) ≡ s
unfolding value_of
value_of-append [] d rest h e = rw e
value_of-append (c ∷ s) d rest h e =
    let inside : ends_value c ≡ false = ground arith in
    rw inside (ap (◌∷◌ c) (value_of-append s d rest (ground arith) e))

pub id_has_no_equals : (s : Text) → all_codes is_id_code s ≡ true → all_codes (is_not b'=') s ≡ true
id_has_no_equals [] h = refl
id_has_no_equals (c ∷ s) h =
    let other : is_not b'=' c ≡ true = ground arith in rw other (id_has_no_equals s (ground arith))

pub id_codes-of-is_id : (n : ℕ) (s : Text) → is_id n s ≡ true → all_codes is_id_code s ≡ true
unfolding is_id
id_codes-of-is_id n s h = ground arith

pub length-of-is_id : (n : ℕ) (s : Text) → is_id n s ≡ true → (0 < length s) × (length s ≤ n)
unfolding is_id
length-of-is_id n [] h = cc
length-of-is_id n (c ∷ s) h = (omega arith, ground arith)

-- A value that is found and ends is extracted if it is an identifier and fits the buffer.
pub extract-found :
    (request name s : Text) (d : ℕ) (rest : Text) (n : ℕ)
    → after_first (snprintf 64 (name ++ codes "=")) request ≡ some (s ++ d ∷ rest)
    → is_id 160 s ≡ true
    → length s < n
    → ends_value d ≡ true
    → extract_query_value request name n ≡ some s
unfolding extract_query_value
extract-found request name s d rest n found id fits e =
    let value = value_of-append s d rest (id_codes-of-is_id 160 s id) e in
    let (positive, _) = length-of-is_id 160 s id in
    let test : (length s == 0 || leb n (length s)) ≡ false = ground arith in
    rw (found, extract_query_value) (rw (value, test, valid_identifier-is_id s, id))
