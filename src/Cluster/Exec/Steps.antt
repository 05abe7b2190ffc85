-- ===== src/Cluster/Exec/Steps.antt =====
-- What a composed action does once its first part has returned.
use k8s_safed.Base.{◌≡◌, ap, String, ◌∷◌}
use k8s_safed.Cluster.Calls.{Call, History}
use k8s_safed.Cluster.Env.{Error, Result, ok, err, wrap}
use k8s_safed.Cluster.Exec.{World, Exec, ask, continue, on_result, ◌>>=◌, try_catch, in_context}

module _ {A B : Type 0} where
  pub bind-ok :
      (m : Exec A) (f : A → Exec B) (w : World) {a : A} {w' : World}
      → m w ≡ (ok a, w')
      → (m >>= f) w ≡ f a w'
  unfolding ◌>>=◌
  bind-ok m f w e = ap (λ (r : Result A × World). continue r.0 f r.1) e

  pub bind-err :
      (m : Exec A) (f : A → Exec B) (w : World) {e : Error} {w' : World}
      → m w ≡ (err e, w')
      → (m >>= f) w ≡ (err e, w')
  unfolding ◌>>=◌
  bind-err m f w h = ap (λ (r : Result A × World). continue r.0 f r.1) h

  pub try_catch-ok :
      (m : Exec A) (f : A → Exec B) (g : Error → Exec B) (w : World) {a : A} {w' : World}
      → m w ≡ (ok a, w')
      → try_catch m f g w ≡ f a w'
  unfolding try_catch
  try_catch-ok m f g w e = ap (λ (r : Result A × World). on_result r.0 f g r.1) e

  pub try_catch-err :
      (m : Exec A) (f : A → Exec B) (g : Error → Exec B) (w : World) {e : Error} {w' : World}
      → m w ≡ (err e, w')
      → try_catch m f g w ≡ g e w'
  unfolding try_catch
  try_catch-err m f g w h = ap (λ (r : Result A × World). on_result r.0 f g r.1) h

module _ {A : Type 0} where
  pub in_context-ok :
      (s : String) (m : Exec A) (w : World) {a : A} {w' : World}
      → m w ≡ (ok a, w')
      → in_context s m w ≡ (ok a, w')
  unfolding in_context
  in_context-ok s m w e = try_catch-ok m _ _ w e

  pub in_context-err :
      (s : String) (m : Exec A) (w : World) {e : Error} {w' : World}
      → m w ≡ (err e, w')
      → in_context s m w ≡ (err (wrap s e), w')
  unfolding in_context
  in_context-err s m w h = try_catch-err m _ _ w h

  pub ask_lem :
      (answer : History → Result A) (c : Call) (w : World) {r : Result A}
      → answer w.calls ≡ r
      → ask answer c w ≡ (r, record w { calls = c ∷ w.calls })
  unfolding ask
  ask_lem answer c w e = ap (λ (r : Result A). (r, record w { calls = c ∷ w.calls })) e
