-- ===== src/Tls/Common/Sending.antt =====
-- `send_all` and `post_json` over a socket that takes some of what it is given.
use hybrid_tls_lab.Prelude.{
  ℕ, zero, suc, ◌<◌, ◌≤◌, ◌≡◌, refl, ap, arith, true, false, Option, some, [], ◌∷◌, ◌++◌, leb,
  le→leb, length, take,
}
use hybrid_tls_lab.Prelude.Text.{Text}
use hybrid_tls_lab.Prelude.Json.{drop_codes}
use hybrid_tls_lab.Tls.Common.{Connection, send_loop, send_all, header_text, accepted, post_json}

-- Every call takes a character at least, and no more than it is given.
abbrev pub Progresses : (ℕ → Text → Option ℕ) → Type 0
Progresses send = (n c : ℕ) (s : Text) → (k : ℕ) × (send n (c ∷ s) ≡ some (suc k)) × (k ≤ length s)

take-drop_codes : (n : ℕ) (s : Text) → take n s ++ drop_codes n s ≡ s
take-drop_codes zero s = refl
take-drop_codes (suc n) [] = refl
take-drop_codes (suc n) (c ∷ s) = ap (◌∷◌ c) (take-drop_codes n s)

length-drop_codes : (n : ℕ) (s : Text) → length (drop_codes n s) ≤ length s
length-drop_codes zero s = omega arith
length-drop_codes (suc n) [] = omega arith
length-drop_codes (suc n) (c ∷ s) = omega (arith, length-drop_codes n s)

send_loop-all :
    (send : ℕ → Text → Option ℕ) (fuel n : ℕ) (s : Text)
    → Progresses send
    → length s ≤ fuel
    → send_loop send fuel n s ≡ (true, s)
unfolding send_loop
send_loop-all send zero n [] p h = refl
send_loop-all send zero n (c ∷ s) p h = absurd (omega arith)
send_loop-all send (suc fuel) n [] p h = refl
send_loop-all send (suc fuel) n (c ∷ s) p h =
    let (k, took, few) = p n c s in
    rw (took, send_loop)
      (rw
        (send_loop-all send fuel (suc n) (drop_codes k s) p (omega (arith, length-drop_codes k s)))
        (ap (λ (t : Text). (true, c ∷ t)) (take-drop_codes k s)))

-- `send_all` ends and hands over the whole text in its order, however few characters each call takes.
pub send_all-all :
    (send : ℕ → Text → Option ℕ) (n : ℕ) (s : Text)
    → Progresses send
    → send_all send n s ≡ (true, s)
unfolding send_all
send_all-all send n s p = send_loop-all send (length s) n s p (omega arith)

-- Over a connection that is made and whose calls of `send` progress, `post_json` returns. Where the
-- header is below 1024 characters, it has sent the header and the body, whole and in this order, and
-- succeeds just if the answer to them has one of the two statuses among its first 255 characters; a
-- longer header is refused with nothing sent.
pub post_json_outcome :
    (connection : Connection) (host path json : Text)
    → Progresses connection.send
    → connection.connects ≡ true
    → let header = header_text host path json in
      (length header < 1024
        → post_json connection host path json
          ≡ (accepted (connection.recv (header ++ json)), header ++ json))
      × (1024 ≤ length header → post_json connection host path json ≡ (false, []))
unfolding post_json
post_json_outcome connection host path json p up =
    let header = header_text host path json in
    let head = send_all-all connection.send 0 header p in
    let body = send_all-all connection.send (length header) json p in
    (
      (λ short.
          let fits : leb 1024 (length header) ≡ false = ground arith in
          rw (up, fits) (rw (head, body))),
      (λ long. rw (up, le→leb 1024 (length header) long)),
    )
