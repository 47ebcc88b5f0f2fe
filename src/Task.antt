-- ===== src/Task.antt =====
-- A handler of the server as the runtime sees it: at each `await` it may be set aside for another one.
-- A task is the steps between its awaits; Task.Pool has the runs of many tasks on one database.
pub mod Pool
use mathlib.Core.Path.{fun_ext}
use spritexai_pay_core.Prelude.{◌≡◌, refl}
use spritexai_pay_core.Db.{Result, ok, err, World, M, lift, ◌>>=◌, map_err}

-- A step changes the world, and what it has read there decides how the task goes on.
pub data Task (E A : Type 0) : Type 0 where
  done : Result E A → Task E A
  step : (World → World) → (World → Task E A) → Task E A

abbrev pub after : {E A B : Type 0} → Result E A → (A → Task E B) → Task E B
after (ok a) k = k a
after (err e) k = done (err e)

-- `m.await?`, with nothing else between what `m` does, and then the rest.
unfoldable pub atomically : {E A B : Type 0} → M E A → (A → Task E B) → Task E B
atomically m k = step (λ w. (m w).1) (λ w. after (m w).0 k)

-- `m.await` as the end of a task.
unfoldable pub finally : {E A : Type 0} → M E A → Task E A
finally m = step (λ w. (m w).1) (λ w. done (m w).0)

-- One task after another.
unfoldable pub and_then : {E A B : Type 0} → Task E A → (A → Task E B) → Task E B
and_then (done r) k = after r k
and_then (step s next) k = step s (λ w. and_then (next w) k)

abbrev pub map_err_result : {E F A : Type 0} → (E → F) → Result E A → Result F A
map_err_result g (ok a) = ok a
map_err_result g (err e) = err (g e)

unfoldable pub map_err_task : {E F A : Type 0} → (E → F) → Task E A → Task F A
map_err_task g (done r) = done (map_err_result g r)
map_err_task g (step s next) = step s (λ w. map_err_task g (next w))

-- A task that is never set aside.
unfoldable pub run : {E A : Type 0} → Task E A → M E A
run (done r) w = (r, w)
run (step s next) w = run (next w) (s w)

pub run-done : {E A : Type 0} (r : Result E A) → run (done r) ≡ lift r
unfolding run
run-done r = refl

run-after :
    {E A B : Type 0} (r : Result E A) (k : A → Task E B) (w : World)
    → run (after r k) w ≡ ◌>>=◌ {E = E} (λ v. (r, v)) (λ a. run (k a)) w
unfolding run
run-after (ok a) k w = refl
run-after (err e) k w = refl

pub run-atomically :
    {E A B : Type 0} (m : M E A) (k : A → Task E B) → run (atomically m k) ≡ (m >>= λ a. run (k a))
unfolding run atomically
run-atomically m k = fun_ext (λ w. run-after (m w).0 k (m w).1)

pub run-finally : {E A : Type 0} (m : M E A) → run (finally m) ≡ m
unfolding run finally
run-finally m = refl

run-and_then_at :
    {E A B : Type 0} (t : Task E A) (k : A → Task E B) (w : World)
    → run (and_then t k) w ≡ (run t >>= λ a. run (k a)) w
unfolding run and_then
run-and_then_at (done r) k w = run-after r k w
run-and_then_at (step s next) k w = run-and_then_at (next w) k (s w)

pub run-and_then :
    {E A B : Type 0} (t : Task E A) (k : A → Task E B)
    → run (and_then t k) ≡ (run t >>= λ a. run (k a))
run-and_then t k = fun_ext (run-and_then_at t k)

run-map_err_task_at :
    {E F A : Type 0} (g : E → F) (t : Task E A) (w : World)
    → run (map_err_task g t) w ≡ map_err g (run t) w
unfolding run map_err_task
run-map_err_task_at g (done (ok a)) w = refl
run-map_err_task_at g (done (err e)) w = refl
run-map_err_task_at g (step s next) w = run-map_err_task_at g (next w) (s w)

pub run-map_err_task :
    {E F A : Type 0} (g : E → F) (t : Task E A) → run (map_err_task g t) ≡ map_err g (run t)
run-map_err_task g t = fun_ext (run-map_err_task_at g t)
