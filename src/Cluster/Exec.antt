-- ===== src/Cluster/Exec.antt =====
-- Go functions with effects: actions on the world, that return a value or an error. What was done
-- before an error stays done.
pub mod Keeps
pub mod Meets
pub mod Adds
pub mod Steps
pub mod Since
use k8s_safed.Base.{Option, none, some, List, [], ◌∷◌, String, Bool, true, false}
use k8s_safed.Base.Maps.{Map}
use k8s_safed.Cluster.Calls.{Call, History}
use k8s_safed.Cluster.Env.{Error, Result, ok, err}
use k8s_safed.Cluster.Files.{Content}

pub record World : Type 0 where
  pub calls : History
  pub files : Map Content
  -- the `done` keys of the WorkloadCoordinator
  pub restarted : List String

abbrev pub Exec : Type 0 → Type 0
Exec A = World → Result A × World

abbrev pub Done : Type 0
Done = Unit {0}

module _ {A : Type 0} where
  unfoldable pub pure : A → Exec A
  pure a w = (ok a, w)

  unfoldable pub raise : Error → Exec A
  raise e w = (err e, w)

  unfoldable pub lift : Result A → Exec A
  lift r w = (r, w)

  -- A call: it is answered from the history before it, and recorded.
  unfoldable pub ask : (History → Result A) → Call → Exec A
  ask answer c w = (answer w.calls, record w { calls = c ∷ w.calls })

  unfoldable pub gets : (World → A) → Exec A
  gets f w = (ok (f w), w)

  -- Go's `x, err := m`: the error as a value.
  unfoldable pub attempt : Exec A → Exec (Result A)
  attempt m w = let (r, w') = m w in (ok r, w')

module _ {A B : Type 0} where
  abbrev pub continue : Result A → (A → Exec B) → Exec B
  continue (ok a) f w = f a w
  continue (err e) f w = (err e, w)

  infixl 10 ◌>>=◌ ◌>>◌
  unfoldable pub ◌>>=◌ : Exec A → (A → Exec B) → Exec B
  ◌>>=◌ m f w = let (r, w') = m w in continue r f w'

  abbrev pub ◌>>◌ : Exec A → Exec B → Exec B
  m >> n = m >>= λ _. n

  -- `if x, err := m; err != nil { … } else { … }`
  abbrev pub on_result : Result A → (A → Exec B) → (Error → Exec B) → Exec B
  on_result (ok a) f g w = f a w
  on_result (err e) f g w = g e w

  unfoldable pub try_catch : Exec A → (A → Exec B) → (Error → Exec B) → Exec B
  try_catch m f g w = let (r, w') = m w in on_result r f g w'

-- An error with more text: `fmt.Errorf("…: %w", err)`.
unfoldable pub in_context : {A : Type 0} → String → Exec A → Exec A
unfolding try_catch pure raise
in_context s m = try_catch m pure (λ e. raise (Error.wrap s e))

-- Best effort: the error is logged and dropped.
unfoldable pub ignore : {A : Type 0} → Exec A → Exec Done
unfolding try_catch pure
ignore m = try_catch m (λ _. pure tt) (λ _. pure tt)
