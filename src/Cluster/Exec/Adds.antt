-- ===== src/Cluster/Exec/Adds.antt =====
-- Which calls an action adds to the history.
use k8s_safed.Base.{◌≡◌, ◌∷◌}
use k8s_safed.Cluster.Calls.{Call, History}
use k8s_safed.Cluster.Env.{Result}
use k8s_safed.Cluster.Exec.{World, ask}
use k8s_safed.Cluster.Exec.Keeps.{Keeps, Keeps-ask}

-- The history grew from `before` by calls with the property only.
pub data Added (Ok : Call → Type 0) (before : History) : History → Type 0 where
  nothing : {h : History} → h ≡ before → Added Ok before h
  more : {h : History} (c : Call) → Ok c → Added Ok before h → Added Ok before (c ∷ h)

abbrev pub Adds : (Call → Type 0) → History → World → Type 0
Adds Ok before w = Added Ok before w.calls

module _ {Ok : Call → Type 0} {before : History} where
  pub Keeps-call :
      {A : Type 0} (answer : History → Result A) (c : Call)
      → Ok c
      → Keeps (Adds Ok before) (ask answer c)
  Keeps-call answer c fine = Keeps-ask answer c (λ w h. more c fine h)

pub Added-mono :
    {Ok Fine : Call → Type 0} {before h : History}
    → ((c : Call) → Ok c → Fine c)
    → Added Ok before h
    → Added Fine before h
Added-mono f (nothing e) = nothing e
Added-mono f (more c o a) = more c (f c o) (Added-mono f a)

pub Added-trans :
    {Ok : Call → Type 0} {h₀ h₁ : History} {h₂ : History}
    → Added Ok h₀ h₁
    → Added Ok h₁ h₂
    → Added Ok h₀ h₂
Added-trans {Ok} {h₀} a (nothing e) = rw e a
Added-trans a (more c o b) = more c o (Added-trans a b)
