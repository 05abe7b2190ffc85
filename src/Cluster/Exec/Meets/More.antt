-- ===== src/Cluster/Exec/Meets/More.antt =====
-- Promises of actions that keep a property, and promises put together.
use k8s_safed.Base.{◌≡◌, refl, String, ◌∷◌}
use k8s_safed.Cluster.Env.{Error, Result, ok, err}
use k8s_safed.Cluster.Exec.{World, Exec, in_context, ignore, ask}
use k8s_safed.Cluster.Calls.{Call, History}
use k8s_safed.Cluster.Exec.Keeps.{Keeps}
use k8s_safed.Cluster.Exec.Meets.{Post, Post-both, Meets, Meets-try_catch, Meets-pure, Meets-raise}

module _ {A : Type 0} (X : Type 0) where
  Post-frame :
      (Q : A → World → Type 0) (E : Error → World → Type 0) (r : Result A) (w : World)
      → X
      → Post Q E (r, w)
      → Post (λ a u. Q a u × X) E (r, w)
  Post-frame Q E (ok a) w x h = (h, x)
  Post-frame Q E (err e) w x h = h

  -- A fact that is not about the world stays.
  pub Meets-frame :
      {P : World → Type 0} {Q : A → World → Type 0} {E : Error → World → Type 0} (m : Exec A)
      → Meets P Q E m
      → Meets (λ u. P u × X) (λ a u. Q a u × X) E m
  Meets-frame {P} {Q} {E} m h = record {
    at = λ w p. let (r, w') = m w in Post-frame Q E r w' p.1 (h.at w p.0);
  }

module _ {A : Type 0} where
  pub Post-one :
      (P : World → Type 0) (r : Result A) (w : World) → Post (λ _. P) (λ _. P) (r, w) → P w
  Post-one P (ok a) w h = h
  Post-one P (err e) w h = h

  pub Keeps-Meets : {P : World → Type 0} (m : Exec A) → Meets P (λ _. P) (λ _. P) m → Keeps P m
  Keeps-Meets {P} m h = record { at = λ w p. let (r, w') = m w in Post-one P r w' (h.at w p) }

module _ {A : Type 0} {P : World → Type 0} where
  Post-else :
      (E : World → Type 0) (r : Result A) (w : World)
      → ((u : World) → P u → E u)
      → P w
      → Post (λ _. P) (λ _. E) (r, w)
  Post-else E (ok a) w f h = h
  Post-else E (err e) w f h = f w h

  -- An action that keeps `P`, with what this gives where it fails.
  pub Meets-else :
      {E : World → Type 0} (m : Exec A)
      → Keeps P m
      → ((u : World) → P u → E u)
      → Meets P (λ _. P) (λ _. E) m
  Meets-else {E} m k f = record { at = λ w p. let (r, w') = m w in Post-else E r w' f (k.at w p) }

module _ {A : Type 0} where
  pub Post-and :
      (P : World → Type 0) (Q : A → World → Type 0) (E : Error → World → Type 0) (r : Result A)
      (w : World)
      → Post Q E (r, w)
      → P w
      → Post (λ a u. Q a u × P u) (λ e u. E e u × P u) (r, w)
  Post-and P Q E (ok a) w h p = (h, p)
  Post-and P Q E (err e) w h p = (h, p)

  pub Meets-and :
      {P R : World → Type 0} {Q : A → World → Type 0} {E : Error → World → Type 0} (m : Exec A)
      → Meets R Q E m
      → Keeps P m
      → Meets (λ u. R u × P u) (λ a u. Q a u × P u) (λ e u. E e u × P u) m
  Meets-and {P} {R} {Q} {E} m h k = record {
    at = λ w p. let (r, w') = m w in Post-and P Q E r w' (h.at w p.0) (k.at w p.1);
  }

-- More text on the error changes no promise.
pub Meets-in_context :
    {P E : World → Type 0} {A : Type 0} {Q : A → World → Type 0} (s : String) (m : Exec A)
    → Meets P Q (λ _. E) m
    → Meets P Q (λ _. E) (in_context s m)
unfolding in_context
Meets-in_context {P} {E} {A} {Q} s m h =
    Meets-try_catch Q (λ _. E) _ _ _ h (λ a. Meets-pure a (λ w q. q))
      (λ e. Meets-raise _ (λ w q. q))

module _ {A : Type 0} {Q R : A → World → Type 0} {D E : Error → World → Type 0} where
  pub Post-mono :
      ((a : A) (w : World) → Q a w → R a w)
      → ((e : Error) (w : World) → D e w → E e w)
      → (r : Result A) (w : World) → Post Q D (r, w)
      → Post R E (r, w)
  Post-mono f g (ok a) w h = f a w h
  Post-mono f g (err e) w h = g e w h

  pub Meets-mono :
      {P : World → Type 0} {m : Exec A}
      → ((a : A) (w : World) → Q a w → R a w)
      → ((e : Error) (w : World) → D e w → E e w)
      → Meets P Q D m
      → Meets P R E m
  Meets-mono {m} f g h = record { at = λ w p. let (r, w') = m w in Post-mono f g r w' (h.at w p) }

module _ {A : Type 0} {P Q : World → Type 0} where
  -- A call, whatever its answer.
  pub Meets-ask :
      (answer : History → Result A) (c : Call)
      → ((w : World) → P w → Q (record w { calls = c ∷ w.calls }))
      → Meets P (λ _. Q) (λ _. Q) (ask answer c)
  unfolding ask
  Meets-ask answer c f = record { at = λ w p. Post-both Q (answer w.calls) _ (f w p) }

-- An error that is dropped is no failure.
pub Meets-ignore :
    {A : Type 0} {P Q : World → Type 0} (m : Exec A)
    → Meets P (λ _. Q) (λ _. Q) m
    → Meets P (λ _. Q) (λ _ _. ⊥) (ignore m)
unfolding ignore
Meets-ignore {A} {P} {Q} m h =
    Meets-try_catch (λ _. Q) (λ _. Q) _ _ _ h (λ _. Meets-pure tt (λ w p. p))
      (λ _. Meets-pure tt (λ w p. p))

-- An action returns what it returns, and fails as it fails, from some world.
module _ {A : Type 0} (m : Exec A) where
  abbrev pub Ran : A → World → Type 0
  Ran a end = (start : World) × (m start ≡ (ok a, end))

  abbrev pub FailedRun : Error → World → Type 0
  FailedRun e end = (start : World) × (m start ≡ (err e, end))

  pub Post-itself :
      (start : World) (r : Result A) (end : World)
      → m start ≡ (r, end)
      → Post Ran FailedRun (r, end)
  Post-itself start (ok a) end h = (start, h)
  Post-itself start (err e) end h = (start, h)

  pub Meets-itself : {P : World → Type 0} → Meets P Ran FailedRun m
  Meets-itself = record { at = λ w p. let (r, w') = m w in Post-itself w r w' refl }
