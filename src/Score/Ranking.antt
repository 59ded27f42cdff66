-- ===== src/Score/Ranking.antt =====
-- A better posture never scores higher.
use hybrid_tls_lab.Prelude.{ℕ, ◌≤◌, ◌≡◌, arith, true, Option}
use hybrid_tls_lab.Prelude.Text.{Text}
use hybrid_tls_lab.Score.Formula
use hybrid_tls_lab.Score.Formula.{Posture, penalty}
use hybrid_tls_lab.Score.{total_of}

-- `p` has the certificate of `q`, whatever `q` supports, and static RSA only if `q` has.
pub record Improves (p q : Posture) : Type 0 where
  pub tls13 : q.tls13 ≡ true → p.tls13 ≡ true
  pub pqc : q.pqc ≡ true → p.pqc ≡ true
  pub static_rsa : p.static_rsa ≡ true → q.static_rsa ≡ true
  pub cert_key : p.cert_key ≡ q.cert_key
  pub cert_sig_alg : p.cert_sig_alg ≡ q.cert_sig_alg

f1_mono : (p q : Posture) → Improves p q → (Formula.f1 p).0 ≤ (Formula.f1 q).0
unfolding Formula.f1
f1_mono p q h = ground arith

f2_same : (p q : Posture) → Improves p q → (Formula.f2 p).0 ≡ (Formula.f2 q).0
unfolding Formula.f2
f2_same p q h = rw (h.cert_key, h.cert_sig_alg)

penalty_mono : (p q : Posture) → Improves p q → (penalty p).0 ≤ (penalty q).0
unfolding penalty
penalty_mono p q h = ground arith

effort_mono : (p q : Posture) → Improves p q → (Formula.effort p).0 ≤ (Formula.effort q).0
unfolding Formula.effort
effort_mono p q h = ground arith

-- An improvement of the posture, under the same certificate and data, raises neither the total
-- nor the effort.
pub Improves-total_of :
    (p q : Posture) (years : Option ℕ) (sens : Text)
    → Improves p q
    → (total_of p years sens ≤ total_of q years sens)
      × ((Formula.effort p).0 ≤ (Formula.effort q).0)
unfolding total_of
Improves-total_of p q years sens h =
    let f1 = f1_mono p q h in
    let f2 = f2_same p q h in let pen = penalty_mono p q h in (omega arith, effort_mono p q h)
