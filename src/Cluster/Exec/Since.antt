-- ===== src/Cluster/Exec/Since.antt =====
-- What was answered during a run: an object that the outside returned since an earlier history.
use k8s_safed.Base.{◌≡◌, refl, Bool, true, false, ◌∷◌}
use k8s_safed.Cluster.Calls.{Call, History}
use k8s_safed.Cluster.Env.{Error, Result, ok, err}
use k8s_safed.Cluster.Exec.{World, ask}
use k8s_safed.Cluster.Exec.Meets.{Post, Meets}
use k8s_safed.Cluster.Poll.{Check}
use k8s_safed.Cluster.Poll.Rules.{Checked}

-- The second history continues the first.
pub data Grown (before : History) : History → Type 0 where
  same : {h : History} → h ≡ before → Grown before h
  grown : {h : History} (c : Call) → Grown before h → Grown before (c ∷ h)

pub Grown-trans : {h₀ h₁ h₂ : History} → Grown h₀ h₁ → Grown h₁ h₂ → Grown h₀ h₂
Grown-trans {h₀} g (same e) = rw e g
Grown-trans g (grown c later) = grown c (Grown-trans g later)

module _ {O : Type 0} where
  -- Since the history `before`, the call was made and answered by the object.
  pub data Since (answer : History → Result O) (call : Call) (o : O) (before : History)
      : History → Type 0 where
    here : {h : History} → answer h ≡ ok o → Grown before h → Since answer call o before (call ∷ h)
    later :
        {h : History} (c : Call) → Since answer call o before h → Since answer call o before (c ∷ h)

  pub Since-Grown :
      {answer : History → Result O} {call : Call} {o : O} {before h : History}
      → Since answer call o before h
      → Grown before h
  Since-Grown (here e g) = grown _ g
  Since-Grown (later c s) = grown c (Since-Grown s)

  module _ (answer : History → Result O) (call : Call) (before : History) where
    abbrev pub Got : O → World → Type 0
    Got o w = Since answer call o before w.calls

    Post-answered :
        (r : Result O) (w : World)
        → answer w.calls ≡ r
        → Grown before w.calls
        → Post Got (λ _ w'. Grown before w'.calls) (r, record w { calls = call ∷ w.calls })
    Post-answered (ok o) w e g = here e g
    Post-answered (err x) w e g = grown call g

    pub ask-Meets :
        Meets (λ w. Grown before w.calls) Got (λ _ w'. Grown before w'.calls) (ask answer call)
    unfolding ask
    ask-Meets = record { at = λ w g. Post-answered (answer w.calls) w refl g }

module _ {S : Type 0} (I : S → World → Type 0) (Q : World → Type 0)
    (E : Error → World → Type 0) where
  -- What a check promises by its last value: the goal where it is true, the invariant where not.
  abbrev pub Outcome : S × Bool → World → Type 0
  Outcome (s, true) = Q
  Outcome (s, false) = I s

  Outcome-Checked :
      (r : Result (S × Bool)) (w : World) → Post Outcome E (r, w) → Checked I Q E (r, w)
  Outcome-Checked (ok (s, true)) w h = h
  Outcome-Checked (ok (s, false)) w h = h
  Outcome-Checked (err e) w h = h

  pub Meets-Checked :
      (check : Check S) (s : S) (w : World)
      → Meets (I s) Outcome E (check s)
      → I s w
      → Checked I Q E (check s w)
  Meets-Checked check s w h i = let (r, w') = check s w in Outcome-Checked r w' (h.at w i)
