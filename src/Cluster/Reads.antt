-- ===== src/Cluster/Reads.antt =====
-- The calls that change nothing, and the actions that make no others.
use k8s_safed.Base.{String, ◌∷◌, Option, none, some}
use k8s_safed.Cluster.Objects.{Duration}
use k8s_safed.Cluster.Calls.{Context, Call, Request, FileOperation}
use k8s_safed.Cluster.Env.{Env, Error}
use k8s_safed.Cluster.Exec.{World}
use k8s_safed.Cluster.Exec.Keeps.{Keeps, Keeps-ask}
use k8s_safed.Cluster.Requests.{
  get_node, list_pods, get_pod, get_replica_set, list_replica_sets, get_deployment,
  get_stateful_set, list_budgets, wait_or_done, read_file, after_read, failing,
}
use k8s_safed.Cluster.Poll.{Check, Poller}
use k8s_safed.Cluster.Poll.Rules.{Keeps-poll}

-- Requests that read objects, waits, and the reading of a file.
abbrev pub IsRead : Call → Type 0
IsRead (Call.request ctx (Request.get_node name)) = Unit
IsRead (Call.request ctx (Request.list_nodes sel)) = Unit
IsRead (Call.request ctx (Request.list_pods ns sel fields)) = Unit
IsRead (Call.request ctx (Request.get_pod ns name)) = Unit
IsRead (Call.request ctx (Request.get_replica_set ns name)) = Unit
IsRead (Call.request ctx (Request.list_replica_sets ns sel)) = Unit
IsRead (Call.request ctx (Request.get_deployment ns name)) = Unit
IsRead (Call.request ctx (Request.get_stateful_set ns name)) = Unit
IsRead (Call.request ctx (Request.list_budgets ns)) = Unit
IsRead (Call.request ctx r) = ⊥
IsRead (Call.pause d) = Unit
IsRead (Call.file (FileOperation.read path)) = Unit
IsRead (Call.file op) = ⊥

-- A property of the world that no reading changes.
pub record ReadClosed (P : World → Type 0) : Type 0 where
  pub reads : (c : Call) → IsRead c → (w : World) → P w → P (record w { calls = c ∷ w.calls })

module _ {P : World → Type 0} (closed : ReadClosed P) (env : Env) where
  pub get_node-Keeps : (ctx : Context) (name : String) → Keeps P (get_node env ctx name)
  get_node-Keeps ctx name = Keeps-ask _ _ (closed.reads _ tt)

  pub list_pods-Keeps :
      (ctx : Context) (ns sel fields : String) → Keeps P (list_pods env ctx ns sel fields)
  list_pods-Keeps ctx ns sel fields = Keeps-ask _ _ (closed.reads _ tt)

  pub get_pod-Keeps : (ctx : Context) (ns name : String) → Keeps P (get_pod env ctx ns name)
  get_pod-Keeps ctx ns name = Keeps-ask _ _ (closed.reads _ tt)

  pub get_replica_set-Keeps :
      (ctx : Context) (ns name : String) → Keeps P (get_replica_set env ctx ns name)
  get_replica_set-Keeps ctx ns name = Keeps-ask _ _ (closed.reads _ tt)

  pub list_replica_sets-Keeps :
      (ctx : Context) (ns sel : String) → Keeps P (list_replica_sets env ctx ns sel)
  list_replica_sets-Keeps ctx ns sel = Keeps-ask _ _ (closed.reads _ tt)

  pub get_deployment-Keeps :
      (ctx : Context) (ns name : String) → Keeps P (get_deployment env ctx ns name)
  get_deployment-Keeps ctx ns name = Keeps-ask _ _ (closed.reads _ tt)

  pub get_stateful_set-Keeps :
      (ctx : Context) (ns name : String) → Keeps P (get_stateful_set env ctx ns name)
  get_stateful_set-Keeps ctx ns name = Keeps-ask _ _ (closed.reads _ tt)

  pub list_budgets-Keeps : (ctx : Context) (ns : String) → Keeps P (list_budgets env ctx ns)
  list_budgets-Keeps ctx ns = Keeps-ask _ _ (closed.reads _ tt)

  pub wait_or_done-Keeps : (ctx : Context) (d : Duration) → Keeps P (wait_or_done env ctx d)
  wait_or_done-Keeps ctx d = Keeps-ask _ _ (closed.reads _ tt)

  pub read_file-Keeps : (path : String) → Keeps P (read_file env path)
  unfolding read_file
  read_file-Keeps path = record {
    at = λ w h.
        after (env.file_error w.calls (FileOperation.read path))
          (record w { calls = Call.file (FileOperation.read path) ∷ w.calls })
          (closed.reads _ tt w h);
  }
    where
      after : (o : Option Error) (w : World) → P w → P (after_read path (failing env o) w).1
      after none w h = h
      after (some e) w h = h

module _ {P : World → Type 0} (closed : ReadClosed P) {S : Type 0} where
  -- A poll whose checks only read, or change what the property does not see.
  pub poll-Keeps :
      (poller : Poller) (ctx : Context) (d : Duration) (check : Check S) (s : S)
      → ((s : S) → Keeps P (check s))
      → Keeps P (poller.poll S ctx d check s)
  poll-Keeps poller ctx d check s k = Keeps-poll poller ctx d check s (closed.reads _ tt) k
