-- ===== src/Linux/Transport/Actions.antt =====
-- How a chain of the transport's actions ends.
use netfyr.Base.{◌≡◌, refl, ap, Result, ok, err}
use netfyr.Report.{BackendError}
use netfyr.Linux.Transport.{Connection, Action, resume, ◌>>=◌}

module _ {W A B : Type 0} where
  -- How a chain of actions ends: with the first one's error, or as the second one does.
  pub bind_cases {ℓ} :
      (P : Result B BackendError × Connection W → Type ℓ) (m : Action W A) (f : A → Action W B)
      (c : Connection W)
      → ((e : BackendError) (d : Connection W) → m c ≡ (err e, d) → P (err e, d))
      → ((a : A) (d : Connection W) → m c ≡ (ok a, d) → P (f a d))
      → P ((m >>= f) c)
  unfolding ◌>>=◌
  bind_cases P m f c failed went = go (m c) refl
    where
      go : (r : Result A BackendError × Connection W) → m c ≡ r → P (resume f r)
      go (ok a, d) e = went a d e
      go (err x, d) e = failed x d e

  -- How a chain succeeds.
  pub data Runs (m : Action W A) (f : A → Action W B) (c : Connection W) (b : B) (d : Connection W)
      : Type 0 where
    runs : (a : A) (s : Connection W) → m c ≡ (ok a, s) → f a s ≡ (ok b, d) → Runs m f c b d

  pub bind-Runs :
      (m : Action W A) (f : A → Action W B) (c : Connection W) (b : B) (d : Connection W)
      → (m >>= f) c ≡ (ok b, d)
      → Runs m f c b d
  bind-Runs m f c b d =
      bind_cases (λ r. r ≡ (ok b, d) → Runs m f c b d) m f c
        (λ e s h g. let no : err e ≡ ok b = ap (λ p. p.0) g in cc) (λ a s h g. runs a s h g)
