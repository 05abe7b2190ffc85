-- ===== src/Cluster/Exec/Meets.antt =====
-- What an action promises from a state where it is called properly: of its value and the state
-- after it, and of its error and that state.
pub mod More
use k8s_safed.Base.{◌≡◌, refl, subst, Bool, true, false, String, if◌then◌else◌}
use k8s_safed.Cluster.Env.{Error, Result, ok, err}
use k8s_safed.Cluster.Exec.{
  World, Exec, pure, raise, lift, continue, on_result, ◌>>=◌, try_catch, in_context,
}
use k8s_safed.Cluster.Exec.Keeps.{Keeps}

module _ {A : Type 0} where
  abbrev pub Post : (A → World → Type 0) → (Error → World → Type 0) → Result A × World → Type 0
  Post Q E (ok a, w) = Q a w
  Post Q E (err e, w) = E e w

  -- Started where `P` holds, the action returns a value with `Q` or fails with `E`.
  pub record Meets (P : World → Type 0) (Q : A → World → Type 0) (E : Error → World → Type 0)
      (m : Exec A) : Type 0 where
    pub at : (w : World) → P w → Post Q E (m w)

  pub Post-ok :
      (Q : A → World → Type 0) (E : Error → World → Type 0) {r : Result A × World} {a : A}
      {w : World}
      → r ≡ (ok a, w)
      → Post Q E r
      → Q a w
  Post-ok Q E e h = subst (Post Q E) e h

module _ {A : Type 0} {P : World → Type 0} {E : Error → World → Type 0} where
  pub Meets-pure :
      {Q : A → World → Type 0} (a : A) → ((w : World) → P w → Q a w) → Meets P Q E (pure a)
  unfolding pure
  Meets-pure a h = record { at = h }

  pub Meets-raise :
      {Q : A → World → Type 0} (e : Error) → ((w : World) → P w → E e w) → Meets P Q E (raise e)
  unfolding raise
  Meets-raise e h = record { at = h }

  pub Meets-if :
      {Q : A → World → Type 0} (b : Bool) (m n : Exec A)
      → (b ≡ true → Meets P Q E m)
      → (b ≡ false → Meets P Q E n)
      → Meets P Q E (if b then m else n)
  Meets-if true m n hm hn = hm refl
  Meets-if false m n hm hn = hn refl

module _ {A B : Type 0} {Q : B → World → Type 0} {E : Error → World → Type 0} where
  Meets-continue :
      (R : A → World → Type 0) (f : A → Exec B) (r : Result A) (w : World)
      → ((a : A) → Meets (R a) Q E (f a))
      → Post R E (r, w)
      → Post Q E (continue r f w)
  Meets-continue R f (ok a) w hf h = (hf a).at w h
  Meets-continue R f (err e) w hf h = h

  Meets-on_result :
      (R : A → World → Type 0) (D : Error → World → Type 0) (f : A → Exec B) (g : Error → Exec B)
      (r : Result A) (w : World)
      → ((a : A) → Meets (R a) Q E (f a))
      → ((e : Error) → Meets (D e) Q E (g e))
      → Post R D (r, w)
      → Post Q E (on_result r f g w)
  Meets-on_result R D f g (ok a) w hf hg h = (hf a).at w h
  Meets-on_result R D f g (err e) w hf hg h = (hg e).at w h

module _ {A B : Type 0} {P : World → Type 0} {Q : B → World → Type 0}
    {E : Error → World → Type 0} where
  pub Meets-bind :
      (R : A → World → Type 0) (m : Exec A) (f : A → Exec B)
      → Meets P R E m
      → ((a : A) → Meets (R a) Q E (f a))
      → Meets P Q E (m >>= f)
  unfolding ◌>>=◌
  Meets-bind R m f hm hf = record {
    at = λ w p. let (r, w') = m w in Meets-continue R f r w' hf (hm.at w p);
  }

  pub Meets-try_catch :
      (R : A → World → Type 0) (D : Error → World → Type 0) (m : Exec A) (f : A → Exec B)
      (g : Error → Exec B)
      → Meets P R D m
      → ((a : A) → Meets (R a) Q E (f a))
      → ((e : Error) → Meets (D e) Q E (g e))
      → Meets P Q E (try_catch m f g)
  unfolding try_catch
  Meets-try_catch R D m f g hm hf hg = record {
    at = λ w p. let (r, w') = m w in Meets-on_result R D f g r w' hf hg (hm.at w p);
  }

module _ {A : Type 0} where
  pub Post-both :
      (P : World → Type 0) (r : Result A) (w : World) → P w → Post (λ _. P) (λ _. P) (r, w)
  Post-both P (ok a) w h = h
  Post-both P (err e) w h = h

  -- An action that keeps `P` promises at least that.
  pub Meets-Keeps : {P : World → Type 0} (m : Exec A) → Keeps P m → Meets P (λ _. P) (λ _. P) m
  Meets-Keeps {P} m k = record { at = λ w p. let (r, w') = m w in Post-both P r w' (k.at w p) }

  -- A promise about the value alone.
  abbrev pub Returns : (A → Type 0) → Exec A → Type 0
  Returns Q m = Meets (λ _. Unit {0}) (λ a _. Q a) (λ _ _. Unit {0}) m

  Post-any : (r : Result A) (w : World) → Post (λ _ _. Unit {0}) (λ _ _. Unit {0}) (r, w)
  Post-any (ok a) w = tt
  Post-any (err e) w = tt

  pub Returns-any : (m : Exec A) → Returns (λ _. Unit {0}) m
  Returns-any m = record { at = λ w p. let (r, w') = m w in Post-any r w' }

  pub Returns-pure : {Q : A → Type 0} (a : A) → Q a → Returns Q (pure a)
  Returns-pure a h = Meets-pure a (λ _ _. h)

  pub Returns-raise : {Q : A → Type 0} (e : Error) → Returns Q (raise e)
  Returns-raise e = Meets-raise e (λ _ _. tt)

  pub Returns-lift : (r : Result A) → Returns (λ a. r ≡ ok a) (lift r)
  unfolding lift
  Returns-lift (ok a) = record { at = λ w h. refl }
  Returns-lift (err e) = record { at = λ w h. tt }

  pub Returns-ok :
      (Q : A → Type 0) (m : Exec A) (w : World) {a : A} {w' : World}
      → Returns Q m
      → m w ≡ (ok a, w')
      → Q a
  Returns-ok Q m w h e = Post-ok (λ a _. Q a) (λ _ _. Unit {0}) e (h.at w tt)

module _ {A B : Type 0} where
  pub Returns-bind :
      {Q : B → Type 0} (R : A → Type 0) (m : Exec A) (f : A → Exec B)
      → Returns R m
      → ((a : A) → R a → Returns Q (f a))
      → Returns Q (m >>= f)
  Returns-bind R m f hm hf =
      Meets-bind (λ a _. R a) m f hm (λ a. record { at = λ w h. (hf a h).at w tt })

  pub Returns-try_catch :
      {Q : B → Type 0} (m : Exec A) (f : A → Exec B) (g : Error → Exec B)
      → ((a : A) → Returns Q (f a))
      → ((e : Error) → Returns Q (g e))
      → Returns Q (try_catch m f g)
  Returns-try_catch m f g hf hg =
      Meets-try_catch (λ _ _. Unit {0}) (λ _ _. Unit {0}) m f g (Returns-any m) hf hg

module _ {A : Type 0} where
  pub Returns-in_context :
      {Q : A → Type 0} (s : String) (m : Exec A) → Returns Q m → Returns Q (in_context s m)
  unfolding in_context
  Returns-in_context {Q} s m h =
      Meets-try_catch (λ a _. Q a) (λ _ _. Unit {0}) m _ _ h (λ a. record { at = λ w q. q })
        (λ e. Returns-raise (Error.wrap s e))
