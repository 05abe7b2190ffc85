-- ===== src/Cluster/Exec/Keeps.antt =====
-- What actions preserve, and what they promise: one rule for each way to build an action.
use k8s_safed.Base.{◌≡◌, refl, Bool, true, false, ◌∷◌, String, if◌then◌else◌}
use k8s_safed.Cluster.Calls.{Call, History}
use k8s_safed.Cluster.Env.{Error, Result, ok, err}
use k8s_safed.Cluster.Exec.{
  World, Exec, pure, raise, lift, ask, gets, attempt, continue, on_result, ◌>>=◌, try_catch,
  in_context, ignore,
}

-- The property is kept, whether the action returns or fails.
pub record Keeps {A : Type 0} (P : World → Type 0) (m : Exec A) : Type 0 where
  pub at : (w : World) → P w → P (m w).1

module _ {A : Type 0} {P : World → Type 0} where
  pub Keeps-pure : (a : A) → Keeps P (pure a)
  unfolding pure
  Keeps-pure a = record { at = λ w h. h }

  pub Keeps-raise : (e : Error) → Keeps P (raise {A = A} e)
  unfolding raise
  Keeps-raise e = record { at = λ w h. h }

  pub Keeps-lift : (r : Result A) → Keeps P (lift r)
  unfolding lift
  Keeps-lift r = record { at = λ w h. h }

  pub Keeps-gets : (f : World → A) → Keeps P (gets f)
  unfolding gets
  Keeps-gets f = record { at = λ w h. h }

  pub Keeps-ask :
      (answer : History → Result A) (c : Call)
      → ((w : World) → P w → P (record w { calls = c ∷ w.calls }))
      → Keeps P (ask answer c)
  unfolding ask
  Keeps-ask answer c logged = record { at = logged }

  pub Keeps-attempt : (m : Exec A) → Keeps P m → Keeps P (attempt m)
  unfolding attempt
  Keeps-attempt m km = record { at = km.at }

  pub Keeps-if :
      (test : Bool) (then_do else_do : Exec A)
      → (test ≡ true → Keeps P then_do)
      → (test ≡ false → Keeps P else_do)
      → Keeps P (if test then then_do else else_do)
  Keeps-if true then_do else_do fine _ = fine refl
  Keeps-if false then_do else_do _ fine = fine refl

module _ {A B : Type 0} {P : World → Type 0} where
  Keeps-continue :
      (r : Result A) (f : A → Exec B) → ((a : A) → Keeps P (f a)) → Keeps P (continue r f)
  Keeps-continue (ok a) f kf = record { at = (kf a).at }
  Keeps-continue (err e) f kf = record { at = λ w h. h }

  pub Keeps-bind :
      (m : Exec A) (f : A → Exec B) → Keeps P m → ((a : A) → Keeps P (f a)) → Keeps P (m >>= f)
  unfolding ◌>>=◌
  Keeps-bind m f km kf = record {
    at = λ w h. let (r, w') = m w in (Keeps-continue r f kf).at w' (km.at w h);
  }

  pub Keeps-on_result :
      (r : Result A) (f : A → Exec B) (g : Error → Exec B)
      → ((a : A) → Keeps P (f a))
      → ((e : Error) → Keeps P (g e))
      → Keeps P (on_result r f g)
  Keeps-on_result (ok a) f g kf kg = record { at = (kf a).at }
  Keeps-on_result (err e) f g kf kg = record { at = (kg e).at }

  pub Keeps-try_catch :
      (m : Exec A) (f : A → Exec B) (g : Error → Exec B)
      → Keeps P m
      → ((a : A) → Keeps P (f a))
      → ((e : Error) → Keeps P (g e))
      → Keeps P (try_catch m f g)
  unfolding try_catch
  Keeps-try_catch m f g km kf kg = record {
    at = λ w h. let (r, w') = m w in (Keeps-on_result r f g kf kg).at w' (km.at w h);
  }

module _ {A : Type 0} {P : World → Type 0} where
  pub Keeps-in_context : (s : String) (m : Exec A) → Keeps P m → Keeps P (in_context s m)
  unfolding in_context
  Keeps-in_context s m km = Keeps-try_catch m _ _ km Keeps-pure (λ e. Keeps-raise _)

  pub Keeps-ignore : (m : Exec A) → Keeps P m → Keeps P (ignore m)
  unfolding ignore
  Keeps-ignore m km = Keeps-try_catch m _ _ km (λ _. Keeps-pure tt) (λ _. Keeps-pure tt)

-- A fact that is not about the world stays.
pub Keeps-frame :
    {A : Type 0} {P : World → Type 0} (X : Type 0) (m : Exec A) → Keeps P m → Keeps (λ w. P w × X) m
Keeps-frame X m k = record { at = λ w p. (k.at w p.0, p.1) }

pub ruleset keeps_rules = (
  Keeps-pure, Keeps-raise, Keeps-lift, Keeps-gets, Keeps-attempt, Keeps-if, Keeps-bind,
  Keeps-try_catch, Keeps-in_context, Keeps-ignore,
)
