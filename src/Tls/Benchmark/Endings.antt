-- ===== src/Tls/Benchmark/Endings.antt =====
-- The ways in which a probe finishes, in the order of its steps.
use hybrid_tls_lab.Prelude.{
  ℕ, ◌≡◌, ◌≢◌, ◌⊎◌, refl, inl, inr, arith, Bool, true, false, Option, none, some, [], ◌++◌,
  if◌then◌else◌,
}
use hybrid_tls_lab.Prelude.Text.{Text, codes, text_eq, lower, contains}
use hybrid_tls_lab.Tls.Common.{snprintf}
use hybrid_tls_lab.Tls.Options.{Endpoint}
use hybrid_tls_lab.Tls.Server.{group_text}
use hybrid_tls_lab.Tls.Benchmark.{
  Attempt, Finished, has_byte, read_response, before_handshake, after_handshake, after_response,
  after_write, after_connect, after_tcp, probe_to_finished,
}

-- The ways in which a probe finishes.
pub data Ending (endpoint : Endpoint) (a : Attempt) : Finished → Type 0 where
  no_handshake : (error : Text) → Ending endpoint a (before_handshake a error)
  failed :
      (negotiated : Bool) (first_byte : ℕ) (error : Text)
      → (first_byte ≡ 0) ⊎ (first_byte ≡ a.first_byte)
      → Ending endpoint a (after_handshake a negotiated first_byte (some error))
  succeeded :
      (first_byte : ℕ)
      → text_eq (lower (snprintf 100 (group_text a.group_name))) (lower endpoint.group) ≡ true
      → contains (codes "HTTP/1.1 200 OK") (read_response [] a.chunks) ≡ true
      → first_byte ≢ 0
      → (first_byte ≡ 0) ⊎ (first_byte ≡ a.first_byte)
      → Ending endpoint a (after_handshake a true first_byte none)

-- A property of both branches, each under its test.
if-elim {ℓ κ} :
    {A : Type ℓ} (P : A → Type κ) (b : Bool) (x y : A)
    → (b ≡ true → P x)
    → (b ≡ false → P y)
    → P (if b then x else y)
if-elim P true x y h k = h refl
if-elim P false x y h k = k refl

module _ (endpoint : Endpoint) (a : Attempt) where
  abbrev agrees : Bool
  agrees = text_eq (lower (snprintf 100 (group_text a.group_name))) (lower endpoint.group)

  after_response-Ending :
      (first_byte : ℕ)
      → agrees ≡ true
      → (first_byte ≡ 0) ⊎ (first_byte ≡ a.first_byte)
      → Ending endpoint a (after_response a first_byte)
  unfolding after_response
  after_response-Ending first_byte agreed which =
      if-elim (Ending endpoint a) _ _ _
        (λ bad. failed true first_byte (codes "TLS endpoint returned no valid HTTP response") which)
        (λ good. succeeded first_byte agreed (ground arith) (ground arith) which)

  after_write-Ending :
      (error : Option Text) → agrees ≡ true → Ending endpoint a (after_write a error)
  unfolding after_write
  after_write-Ending (some error) agreed = failed true 0 error (inl refl)
  after_write-Ending none agreed =
      after_response-Ending (if has_byte a.chunks then a.first_byte else 0) agreed (
        if-elim (λ n. (n ≡ 0) ⊎ (n ≡ a.first_byte)) (has_byte a.chunks) _ _ (λ e. inr refl)
          (λ e. inl refl))

  after_connect-Ending :
      (request : Text) (error : Option Text)
      → Ending endpoint a (after_connect endpoint a request error)
  unfolding after_connect
  after_connect-Ending request (some error) = failed false 0 error (inl refl)
  after_connect-Ending request none =
      if-elim (Ending endpoint a) _ _ _
        (λ other.
          failed true 0
            (codes "negotiated "
              ++ (snprintf 100 (group_text a.group_name)
                  ++ (codes " instead of " ++ endpoint.group)))
            (inl refl))
        (λ agreed. after_write-Ending (a.write_error request) (ground arith))

  after_tcp-Ending :
      (request : Text) (error : Option Text)
      → Ending endpoint a (after_tcp endpoint a request error)
  unfolding after_tcp
  after_tcp-Ending request (some error) = no_handshake error
  after_tcp-Ending request none =
      if-elim (Ending endpoint a) _ _ _ (λ unmade. no_handshake (codes "SSL_new failed"))
        (λ made. after_connect-Ending request a.handshake_error)

  -- Every probe finishes in one of these ways.
  pub probe_to_finished-Ending :
      (request : Text) → Ending endpoint a (probe_to_finished endpoint a request)
  unfolding probe_to_finished
  probe_to_finished-Ending request = after_tcp-Ending request a.connect_error
