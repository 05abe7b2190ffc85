-- ===== src/Drain/Runner/Skipped.antt =====
-- Which workloads a resumed run leaves out, and what the runner promises of the others.
use k8s_safed.Base.{
  ◌≡◌, refl, ◌⊎◌, inl, inr, Bool, true, false, List, [], ◌∷◌, All, All-mono, Listed, arith, not,
  ◌&&◌, ◌==◌, if◌then◌else◌,
}
use k8s_safed.Cluster.Calls.{Context, Call, History}
use k8s_safed.Cluster.Env.{Env, Error, Result, ok, err}
use k8s_safed.Cluster.Exec.{World}
use k8s_safed.Cluster.Exec.Meets.{Post, Meets, Meets-pure, Meets-bind}
use k8s_safed.Cluster.Exec.Meets.More.{Meets-and, Meets-mono, Post-and, Post-mono}
use k8s_safed.Cluster.Exec.Since.{Grown, same, grown}
use k8s_safed.Cluster.Reads.{ReadClosed}
use k8s_safed.Workload.{Workload}
use k8s_safed.Drain.Options.{Options}
use k8s_safed.Drain.Work.{WorkClosed}
use k8s_safed.Drain.Checkpoint.{Checkpoint}
use k8s_safed.Drain.Checkpoint.Store.{load_checkpoint}
use k8s_safed.Drain.Checkpoint.Resume.{validate_checkpoint, checkpoint_can_skip}
use k8s_safed.Drain.Checkpoint.Reads.{checkpoint_can_skip-Keeps}
use k8s_safed.Drain.Rollout.Restart.Rolled.{Patched, Rolled}
use k8s_safed.Drain.Rollout.Restart.Finished.{Finished}
use k8s_safed.Drain.Runner.Resumed.{remaining_workloads}
use k8s_safed.Drain.Runner.Keeps.{remaining_workloads-Keeps}
use k8s_safed.Drain.Runner.Finished.{IsFinished}

module _ (env : Env) (opts : Options) (ctx : Context) (start : World) where
  -- What `checkpoint_can_skip` has answered between `start` and now.
  abbrev pub Asked : Checkpoint → Workload → Bool → History → Type 0
  Asked cp v skip now =
      (asked : World) × (answered : World) × Grown start.calls asked.calls
      × (checkpoint_can_skip env opts ctx cp v asked ≡ (ok skip, answered))
      × Grown answered.calls now

  -- The run resumes, the checkpoint that it loaded at its start is one of this drain, and it was
  -- then found to let the workload be skipped.
  pub record IsSkipped (now : History) (v : Workload) : Type 0 where
    pub resumed : opts.resume && not (opts.checkpoint_path == "") ≡ true
    pub cp : Checkpoint
    pub loaded : World
    pub load : load_checkpoint env opts.checkpoint_path start ≡ (ok cp, loaded)
    pub valid : validate_checkpoint opts cp ≡ ok tt
    pub skips : Asked cp v true now

  -- Each workload was skipped, or a rolling restart of it has finished.
  abbrev pub AllDone : List Workload → World → Type 0
  AllDone vs w = All (λ v. IsSkipped w.calls v ⊎ IsFinished env opts start.calls w.calls v) vs

  -- A rolling restart of the workload began after `start` and has finished, and it was this one
  -- that patched the workload.
  abbrev pub IsRestarted : History → Workload → Type 0
  IsRestarted now v =
      (c : Context) × (began : World) × Grown start.calls began.calls
      × (f : Finished env opts c v began now) × Patched env opts c v began f.restarted

  abbrev pub AllRestarted : List Workload → World → Type 0
  AllRestarted vs w = All (λ v. IsSkipped w.calls v ⊎ IsRestarted w.calls v) vs

  pub by_this_drain :
      opts.coordinated ≡ false → (vs : List Workload) (w : World) → AllDone vs w → AllRestarted vs w
  by_this_drain alone vs w all = All-mono _ _ vs (λ v d. this_one v d) all
    where
      patched :
          (c : Context) (v : Workload) (began : World) (f : Finished env opts c v began w.calls)
          → Rolled env opts c v began f.restarted
          → Patched env opts c v began f.restarted
      patched c v began f (inl h) = h
      patched c v began f (inr (shared, h)) = absurd (ground arith)

      this_one :
          (v : Workload)
          → IsSkipped w.calls v ⊎ IsFinished env opts start.calls w.calls v
          → IsSkipped w.calls v ⊎ IsRestarted w.calls v
      this_one v (inl skipped) = inl skipped
      this_one v (inr (c, began, g, f)) = inr (c, began, g, f, patched c v began f f.rolled)

  module _ (cp : Checkpoint) where
    abbrev Going : World → Type 0
    Going w = Grown start.calls w.calls

    abbrev Failed : Error → World → Type 0
    Failed e w = Unit

    abbrev pub Decided : List Workload → History → Workload → Type 0
    Decided remaining now v = Asked cp v true now ⊎ Listed v remaining

    answered_by :
        (v : Workload) (r : Result Bool) (w w' : World)
        → checkpoint_can_skip env opts ctx cp v w ≡ (r, w')
        → Going w
        → Post (λ skip u. Asked cp v skip u.calls) Failed (r, w')
    answered_by v (err e) w w' ran g = tt
    answered_by v (ok skip) w w' ran g = (w, w', g, ran, same refl)

    pub going : ReadClosed Going
    going = record { reads = λ c r w g. grown c g }

    Asked-ReadClosed : (v : Workload) (skip : Bool) → ReadClosed (λ w. Asked cp v skip w.calls)
    Asked-ReadClosed v skip = record {
      reads = λ c r w (a, b, g, ran, on). (a, b, g, ran, grown c on);
    }

    can_skip-Asked :
        (v : Workload)
        → Meets Going
            (λ skip w. Asked cp v skip w.calls × Going w)
            Failed
            (checkpoint_can_skip env opts ctx cp v)
    can_skip-Asked v = record {
      at = λ w g.
          let (r, w') = checkpoint_can_skip env opts ctx cp v w in
          Post-mono (λ skip u h. h) (λ e u h. tt) r w'
            (Post-and Going (λ skip u. Asked cp v skip u.calls) Failed r w'
              (answered_by v r w w' refl g)
              ((checkpoint_can_skip-Keeps going env opts ctx cp v).at w g));
    }

    decided :
        (v : Workload) (vs remaining : List Workload) (skip : Bool) (now : History)
        → Asked cp v skip now
        → All (Decided remaining now) vs
        → All (Decided (if skip then remaining else v ∷ remaining) now) (v ∷ vs)
    decided v vs remaining true now asked all = (inl asked, all)
    decided v vs remaining false now asked all =
        (inr (inl refl), All-mono _ _ vs (λ u d. one_more d) all)
      where
        one_more : {u : Workload} → Decided remaining now u → Decided (v ∷ remaining) now u
        one_more (inl skipped) = inl skipped
        one_more (inr listed) = inr (inr listed)

    pub remaining_workloads-Decided :
        (vs : List Workload)
        → Meets Going
            (λ remaining w. All (Decided remaining w.calls) vs × Going w)
            Failed
            (remaining_workloads env opts ctx cp vs)
    unfolding remaining_workloads
    remaining_workloads-Decided [] = Meets-pure [] (λ w g. (tt, g))
    remaining_workloads-Decided (v ∷ vs) =
        Meets-bind (λ skip w. Asked cp v skip w.calls × Going w) _ _ (can_skip-Asked v)
          (λ skip.
            Meets-bind
              (λ remaining w.
                (All (Decided remaining w.calls) vs × Going w) × Asked cp v skip w.calls)
              _ _
              (record {
                at = λ w h.
                    (Meets-mono (λ a u k. k) (λ e u k. tt)
                        (Meets-and _ (remaining_workloads-Decided vs) (
                          remaining_workloads-Keeps (Asked-ReadClosed v skip) env opts ctx cp
                            vs))).at
                      w (h.1, h.0);
              })
              (λ remaining.
                Meets-pure _ (λ w h. (decided v vs remaining skip w.calls h.1 h.0.0, h.0.1))))

    -- What was decided stays so during the restarts.
    pub Decided-stays :
        (vs remaining : List Workload) → WorkClosed (λ w. All (Decided remaining w.calls) vs)
    Decided-stays vs remaining = record {
      works = λ c k w all. All-mono _ _ vs (λ v d. later v c d) all;
      effects = λ w files restarted all. all;
    }
      where
        later :
            {h : History} (v : Workload) (c : Call)
            → Decided remaining h v
            → Decided remaining (c ∷ h) v
        later v c (inl (a, b, g, ran, on)) = inl (a, b, g, ran, grown c on)
        later v c (inr listed) = inr listed
