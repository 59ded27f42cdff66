-- ===== src/Tls/Benchmark/Probes.antt =====
-- The locals of a probe when it is finished, on every path.
use hybrid_tls_lab.Prelude.{
  ℕ, ◌≤◌, ◌≡◌, ◌≢◌, refl, arith, Bool, true, false, Option, none, some, [], if◌then◌else◌, length,
  take, length-take, length-take-le,
}
use hybrid_tls_lab.Prelude.Text.{Text, codes, text_eq_iff, lower, contains, or_empty}
use hybrid_tls_lab.Prelude.Json.RoundTrip.{is_plain, is_plain-take}
use hybrid_tls_lab.Tls.Common.{snprintf}
use hybrid_tls_lab.Tls.Options.{Endpoint}
use hybrid_tls_lab.Tls.Server.{group_text}
use hybrid_tls_lab.Tls.Benchmark.{
  Attempt, Finished, or_zero, read_response, before_handshake, after_handshake, probe_to_finished,
  timings_of,
}
use hybrid_tls_lab.Tls.Benchmark.Endings.{
  Ending, no_handshake, failed, succeeded, probe_to_finished-Ending,
}
use hybrid_tls_lab.Tls.Benchmark.Payloads.{IsName, IsFinished, IsWord, HasWords}

-- OpenSSL's names have nothing that JSON would escape, and the numbers have 64 bits.
pub record IsAttempt (a : Attempt) : Type 0 where
  pub group_name : is_plain (group_text a.group_name) ≡ true
  pub version : is_plain a.version ≡ true
  pub cipher_name : is_plain a.cipher_name ≡ true
  pub started : IsWord a.started
  pub handshake_done : IsWord a.handshake_done
  pub bytes_read : IsWord (or_zero a.bytes_read)
  pub bytes_written : IsWord (or_zero a.bytes_written)

-- OpenSSL's names are short enough for the schemas.
pub record IsBrief (a : Attempt) : Type 0 where
  pub group_name : length (group_text a.group_name) ≤ 80
  pub version : length a.version ≤ 40
  pub cipher_name : length a.cipher_name ≤ 100

-- The copies are as short as the names.
pub record HasBrief (f : Finished) : Type 0 where
  pub group_copy : length f.group_copy ≤ 80
  pub version_copy : length f.version_copy ≤ 40
  pub cipher_copy : length f.cipher_copy ≤ 100

copy_length :
    (k n : ℕ) (s : Text) (b : Bool) → length s ≤ k → length (if b then take n s else []) ≤ k
copy_length k n s true h = omega (arith, length-take-le n s)
copy_length k n s false h = omega arith

after_handshake-HasBrief :
    (a : Attempt) (negotiated : Bool) (first_byte : ℕ) (error : Option Text)
    → IsBrief a
    → HasBrief (after_handshake a negotiated first_byte error)
after_handshake-HasBrief a negotiated first_byte error b = record {
  group_copy = copy_length 80 99 (group_text a.group_name) negotiated b.group_name;
  version_copy = copy_length 40 49 a.version negotiated b.version;
  cipher_copy = copy_length 100 119 a.cipher_name negotiated b.cipher_name;
}

copy-IsName :
    (n : ℕ) (s : Text) (b : Bool) → is_plain s ≡ true → IsName n (if b then take n s else [])
copy-IsName n s true h = record { short = length-take n s; plain = is_plain-take n s h }
copy-IsName n s false h = record { short = omega arith; plain = refl }

before_handshake-IsFinished : (a : Attempt) (error : Text) → IsFinished (before_handshake a error)
before_handshake-IsFinished a error = record {
  group_copy = record { short = omega arith; plain = refl };
  version_copy = record { short = omega arith; plain = refl };
  cipher_copy = record { short = omega arith; plain = refl };
  connection_error = length-take 511 error;
}

module _ (a : Attempt) (v : IsAttempt a) where
  after_handshake-IsFinished :
      (negotiated : Bool) (first_byte : ℕ) (error : Option Text)
      → IsFinished (after_handshake a negotiated first_byte error)
  after_handshake-IsFinished negotiated first_byte error = record {
    group_copy = copy-IsName 99 (group_text a.group_name) negotiated v.group_name;
    version_copy = copy-IsName 49 a.version negotiated v.version;
    cipher_copy = copy-IsName 119 a.cipher_name negotiated v.cipher_name;
    connection_error = length-take 511 (or_empty error);
  }

module _ (endpoint : Endpoint) (a : Attempt) where
  Ending-IsFinished : (f : Finished) → IsAttempt a → Ending endpoint a f → IsFinished f
  Ending-IsFinished _ v (no_handshake error) = before_handshake-IsFinished a error
  Ending-IsFinished _ v (failed negotiated first_byte error which) =
      after_handshake-IsFinished a v negotiated first_byte (some error)
  Ending-IsFinished _ v (succeeded first_byte agreed page seen which) =
      after_handshake-IsFinished a v true first_byte none

  Ending-HasBrief : (f : Finished) → IsBrief a → Ending endpoint a f → HasBrief f
  Ending-HasBrief _ b (no_handshake error) = record {
    group_copy = omega arith;
    version_copy = omega arith;
    cipher_copy = omega arith;
  }
  Ending-HasBrief _ b (failed negotiated first_byte error which) =
      after_handshake-HasBrief a negotiated first_byte (some error) b
  Ending-HasBrief _ b (succeeded first_byte agreed page seen which) =
      after_handshake-HasBrief a true first_byte none b

  Ending-words :
      (f : Finished)
      → IsAttempt a
      → Ending endpoint a f
      → IsWord f.handshake_done × IsWord f.bytes_sent × IsWord f.bytes_received
  Ending-words _ v (no_handshake error) = (v.started, omega arith, omega arith)
  Ending-words _ v (failed negotiated first_byte error which) =
      (v.handshake_done, v.bytes_written, v.bytes_read)
  Ending-words _ v (succeeded first_byte agreed page seen which) =
      (v.handshake_done, v.bytes_written, v.bytes_read)

  -- What a success reports of the handshake is what OpenSSL named.
  pub Ending-copies :
      (f : Finished)
      → Ending endpoint a f
      → f.success ≡ true
      → (f.group_copy ≡ snprintf 100 (group_text a.group_name))
        × (f.version_copy ≡ snprintf 50 a.version)
        × (f.cipher_copy ≡ snprintf 120 a.cipher_name)
  Ending-copies _ (no_handshake error) h = cc
  Ending-copies _ (failed negotiated first_byte error which) h = cc
  Ending-copies _ (succeeded first_byte agreed page seen which) h = (refl, refl, refl)

  -- What a report of a success says.
  abbrev pub Verified : Finished → Type 0
  Verified f =
      (lower f.group_copy ≡ lower endpoint.group)
      × (f.connection_error ≡ [])
      × (f.first_byte ≢ 0)
      × (contains (codes "HTTP/1.1 200 OK") (read_response [] a.chunks) ≡ true)

  Ending-success : (f : Finished) → Ending endpoint a f → f.success ≡ true → Verified f
  Ending-success _ (no_handshake error) h = cc
  Ending-success _ (failed negotiated first_byte error which) h = cc
  Ending-success _ (succeeded first_byte agreed page seen which) h =
      ((text_eq_iff _ (lower endpoint.group)).0 agreed, refl, seen, page)

pub probe_to_finished-IsFinished :
    (endpoint : Endpoint) (a : Attempt) (request : Text)
    → IsAttempt a
    → IsFinished (probe_to_finished endpoint a request)
probe_to_finished-IsFinished endpoint a request v =
    Ending-IsFinished endpoint a _ v (probe_to_finished-Ending endpoint a request)

pub probe_to_finished-HasBrief :
    (endpoint : Endpoint) (a : Attempt) (request : Text)
    → IsBrief a
    → HasBrief (probe_to_finished endpoint a request)
probe_to_finished-HasBrief endpoint a request b =
    Ending-HasBrief endpoint a _ b (probe_to_finished-Ending endpoint a request)

pub timings_of-HasWords :
    (endpoint : Endpoint) (a : Attempt) (request : Text)
    → IsAttempt a
    → let f = probe_to_finished endpoint a request in HasWords f (timings_of a f)
unfolding timings_of
timings_of-HasWords endpoint a request v =
    let (handshake, sent, received) =
      Ending-words endpoint a _ v (probe_to_finished-Ending endpoint a request) in
    record {
      tcp_us = omega arith;
      handshake_us = ground arith;
      ttfb_us = ground arith;
      total_us = omega arith;
      bytes_sent = sent;
      bytes_received = received;
    }

-- A probe that counts as a success has negotiated the group of its endpoint, whatever the case of
-- its name, has read an answer with status 200, and has no error; so that no handshake that fell
-- back to another group is ever reported as a success.
pub probe_success-Verified :
    (endpoint : Endpoint) (a : Attempt) (request : Text)
    → (probe_to_finished endpoint a request).success ≡ true
    → Verified endpoint a (probe_to_finished endpoint a request)
probe_success-Verified endpoint a request =
    Ending-success endpoint a _ (probe_to_finished-Ending endpoint a request)
