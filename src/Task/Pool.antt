-- ===== src/Task/Pool.antt =====
-- Many tasks on one database, in any order of their steps.
use mathlib.Core.Path.{subst}
use spritexai_pay_core.Prelude.{◌≡◌, List, ◌∷◌}
use spritexai_pay_core.Db.{Tables, Result, ok, err, World, M, All}
use spritexai_pay_core.Db.Triple.{Triple, Post, Triple-kept}
use spritexai_pay_core.Task.{
  Task, done, step, after, atomically, finally, and_then, run, map_err_task,
}

-- One step of one task of the pool.
pub data Step {E A : Type 0} : List (Task E A) → World → List (Task E A) → World → Type 0 where
  here :
      {s : World → World} {next : World → Task E A} {ts : List (Task E A)} {w : World}
      → Step (step s next ∷ ts) w (next w ∷ ts) (s w)
  there :
      {t : Task E A} {ts us : List (Task E A)} {w v : World}
      → Step ts w us v
      → Step (t ∷ ts) w (t ∷ us) v

-- What the pool and the rest of the server can come to, where the rest changes the tables as
-- `Other` says.
pub data Reach {E A : Type 0} (Other : Tables → Tables → Type 0) (ts : List (Task E A)) (w : World)
    : List (Task E A) → World → Type 0 where
  start : Reach Other ts w ts w
  moved :
      {us vs : List (Task E A)} {u v : World}
      → Reach Other ts w us u
      → Step us u vs v
      → Reach Other ts w vs v
  other :
      {us : List (Task E A)} {u : World} (v : World)
      → Reach Other ts w us u
      → Other u.db v.db
      → Reach Other ts w us v

-- Whatever happens between its steps, as long as it keeps `P`, each step of the task keeps `P`.
abbrev pub Safe : {E A : Type 0} → (Tables → Type 0) → Task E A → Type 0
Safe P (done r) = Unit {0}
Safe P (step s next) = (w : World) → P w.db → P (s w).db × Safe P (next w)

module _ (P : Tables → Type 0) where
  Safe-after :
      {E A B : Type 0} {F : A → Type 0} (r : Result E A) (db : Tables) (k : A → Task E B)
      → ((a : A) → F a → Safe P (k a))
      → Post (λ a db. P db × F a) P r db
      → P db × Safe P (after r k)
  Safe-after (ok a) db k rest h = (h.0, rest a h.1)
  Safe-after (err e) db k rest h = (h, tt)

  -- `F` is what the block has found out for good, whatever happens to the tables behind it.
  pub Safe-atomically :
      {E A B : Type 0} (F : A → Type 0) (m : M E A) (k : A → Task E B)
      → Triple P m (λ a db. P db × F a) P
      → ((a : A) → F a → Safe P (k a))
      → Safe P (atomically m k)
  unfolding atomically
  Safe-atomically F m k t rest = λ w p. Safe-after (m w).0 (m w).1.db k rest (t.at w p)

  pub Safe-finally : {E A : Type 0} (m : M E A) → Triple P m (λ _. P) P → Safe P (finally m)
  unfolding finally
  Safe-finally m t = λ w p. (Triple-kept w t p, tt)

  pub Safe-and_then :
      {E A B : Type 0} (t : Task E A) (k : A → Task E B)
      → Safe P t
      → ((a : A) → Safe P (k a))
      → Safe P (and_then t k)
  unfolding and_then
  Safe-and_then (done (ok a)) k safe rest = rest a
  Safe-and_then (done (err e)) k safe rest = tt
  Safe-and_then (step s next) k safe rest =
      λ w p. ((safe w p).0, Safe-and_then (next w) k (safe w p).1 rest)

  pub Safe-map_err_task :
      {E F A : Type 0} (g : E → F) (t : Task E A) → Safe P t → Safe P (map_err_task g t)
  unfolding map_err_task
  Safe-map_err_task g (done r) safe = tt
  Safe-map_err_task g (step s next) safe =
      λ w p. ((safe w p).0, Safe-map_err_task g (next w) (safe w p).1)

  Step-Safe :
      {E A : Type 0} {ts us : List (Task E A)} {w v : World}
      → Step ts w us v
      → All (Safe P) ts
      → P w.db
      → P v.db × All (Safe P) us
  Step-Safe (here {w}) safe p = ((safe.0 w p).0, ((safe.0 w p).1, safe.1))
  Step-Safe (there st) safe p =
      let rest : P _ × All (Safe P) _ = Step-Safe st safe.1 p in (rest.0, (safe.0, rest.1))

  -- A pool of safe tasks keeps the predicate, in whatever order their steps come.
  pub Reach-Safe :
      {E A : Type 0} {Other : Tables → Tables → Type 0} {ts : List (Task E A)} {w : World}
      {us : List (Task E A)} {v : World}
      → ((a b : Tables) → Other a b → P a → P b)
      → Reach Other ts w us v
      → All (Safe P) ts
      → P w.db
      → P v.db × All (Safe P) us
  Reach-Safe others start safe p = (p, safe)
  Reach-Safe others (moved r st) safe p =
      let before : P _ × All (Safe P) _ = Reach-Safe others r safe p in
      Step-Safe st before.1 before.0
  Reach-Safe others (other v r o) safe p =
      let before : P _ × All (Safe P) _ = Reach-Safe others r safe p in
      (others _ _ o before.0, before.1)

-- Each step of the task keeps `P` where it holds, whatever happens between its steps.
abbrev pub Steady : {E A : Type 0} → (Tables → Type 0) → Task E A → Type 0
Steady P (done r) = Unit {0}
Steady P (step s more) = (w : World) → (P w.db → P (s w).db) × Steady P (more w)

module _ (P : Tables → Type 0) where
  Steady-after :
      {E A B : Type 0} (r : Result E A) (k : A → Task E B)
      → ((a : A) → Steady P (k a))
      → Steady P (after r k)
  Steady-after (ok a) k rest = rest a
  Steady-after (err e) k rest = tt

  pub Steady-atomically :
      {E A B : Type 0} (m : M E A) (k : A → Task E B)
      → Triple P m (λ _. P) P
      → ((a : A) → Steady P (k a))
      → Steady P (atomically m k)
  unfolding atomically
  Steady-atomically m k t rest = λ w. (Triple-kept w t, Steady-after (m w).0 k rest)

  pub Steady-finally : {E A : Type 0} (m : M E A) → Triple P m (λ _. P) P → Steady P (finally m)
  unfolding finally
  Steady-finally m t = λ w. (Triple-kept w t, tt)

  pub Steady-and_then :
      {E A B : Type 0} (t : Task E A) (k : A → Task E B)
      → Steady P t
      → ((a : A) → Steady P (k a))
      → Steady P (and_then t k)
  unfolding and_then
  Steady-and_then (done r) k steady rest = Steady-after r k rest
  Steady-and_then (step s more) k steady rest =
      λ w. ((steady w).0, Steady-and_then (more w) k (steady w).1 rest)

  pub Steady-map_err_task :
      {E F A : Type 0} (g : E → F) (t : Task E A) → Steady P t → Steady P (map_err_task g t)
  unfolding map_err_task
  Steady-map_err_task g (done r) steady = tt
  Steady-map_err_task g (step s more) steady =
      λ w. ((steady w).0, Steady-map_err_task g (more w) (steady w).1)

module _ {E A : Type 0} {Other : Tables → Tables → Type 0} where
  -- A block of a task that returns, as one step: of the first task, and of the second.
  pub Reach-took :
      {B : Type 0} {start_tasks : List (Task E A)} {start_world : World} (m : M E B)
      (k : B → Task E A) (ts : List (Task E A)) (w : World) (b : B)
      → (m w).0 ≡ ok b
      → Reach Other start_tasks start_world (atomically m k ∷ ts) w
      → Reach Other start_tasks start_world (k b ∷ ts) (m w).1
  unfolding atomically
  Reach-took {start_tasks} {start_world} m k ts w b e reached =
      subst (λ r. Reach Other start_tasks start_world (after r k ∷ ts) (m w).1) e
        (moved reached here)

  pub Reach-took_second :
      {B : Type 0} {start_tasks : List (Task E A)} {start_world : World} (a : Task E A) (m : M E B)
      (k : B → Task E A) (ts : List (Task E A)) (w : World) (b : B)
      → (m w).0 ≡ ok b
      → Reach Other start_tasks start_world (a ∷ atomically m k ∷ ts) w
      → Reach Other start_tasks start_world (a ∷ k b ∷ ts) (m w).1
  unfolding atomically
  Reach-took_second {start_tasks} {start_world} a m k ts w b e reached =
      subst (λ r. Reach Other start_tasks start_world (a ∷ after r k ∷ ts) (m w).1) e
        (moved reached (there here))

  -- A task may go on to its end while the others wait.
  Reach-run :
      {start_tasks : List (Task E A)} {start_world : World} (t : Task E A) (ts : List (Task E A))
      (w : World)
      → Reach Other start_tasks start_world (t ∷ ts) w
      → Reach Other start_tasks start_world (done (run t w).0 ∷ ts) (run t w).1
  unfolding run
  Reach-run (done r) ts w reached = reached
  Reach-run (step s more) ts w reached = Reach-run (more w) ts (s w) (moved reached here)

  Reach-run_second :
      {start_tasks : List (Task E A)} {start_world : World} (a t : Task E A) (ts : List (Task E A))
      (w : World)
      → Reach Other start_tasks start_world (a ∷ t ∷ ts) w
      → Reach Other start_tasks start_world (a ∷ done (run t w).0 ∷ ts) (run t w).1
  unfolding run
  Reach-run_second a (done r) ts w reached = reached
  Reach-run_second a (step s more) ts w reached =
      Reach-run_second a (more w) ts (s w) (moved reached (there here))

  -- A task that is a block of the code when it runs alone, and that returns.
  pub Reach-ended :
      {start_tasks : List (Task E A)} {start_world : World} (t : Task E A) (m : M E A)
      (ts : List (Task E A)) (w : World) (a : A)
      → run t ≡ m
      → (m w).0 ≡ ok a
      → Reach Other start_tasks start_world (t ∷ ts) w
      → Reach Other start_tasks start_world (done (ok a) ∷ ts) (m w).1
  Reach-ended {start_tasks} {start_world} t m ts w a alone e reached =
      subst (λ r. Reach Other start_tasks start_world (done r ∷ ts) (m w).1) e
        (subst (λ n. Reach Other start_tasks start_world (done (n w).0 ∷ ts) (n w).1) alone
          (Reach-run t ts w reached))

  pub Reach-ended_second :
      {start_tasks : List (Task E A)} {start_world : World} (b t : Task E A) (m : M E A)
      (ts : List (Task E A)) (w : World) (a : A)
      → run t ≡ m
      → (m w).0 ≡ ok a
      → Reach Other start_tasks start_world (b ∷ t ∷ ts) w
      → Reach Other start_tasks start_world (b ∷ done (ok a) ∷ ts) (m w).1
  Reach-ended_second {start_tasks} {start_world} b t m ts w a alone e reached =
      subst (λ r. Reach Other start_tasks start_world (b ∷ done r ∷ ts) (m w).1) e
        (subst (λ n. Reach Other start_tasks start_world (b ∷ done (n w).0 ∷ ts) (n w).1) alone
          (Reach-run_second b t ts w reached))
