-- ===== src/Db/Total.antt =====
-- Blocks that return: where no statement fails, a block is followed step by step to its value.
use spritexai_pay_core.Prelude.{suc, String, ◌≡◌, refl, ap, ◌∙◌}
use spritexai_pay_core.Db.Rows.{Tables}
use spritexai_pay_core.Db.Monad.{
  ok, DbError, Env, World, M, ◌>>=◌, ◌>>◌, map_err, Stmt, exec, new_v4, pure, Quiet, transaction,
  no_op, rollback,
}
use spritexai_pay_core.Db.Exec.{exec-Quiet, bind_ok, map_err_ok}

-- The block returns in a world, with a value and a world of which something holds.
pub record Returns {E A : Type 0} (m : M E A) (w : World) (Q : A → World → Type 0) : Type 0 where
  pub value : A
  pub after : World
  pub runs : m w ≡ (ok value, after)
  pub holds : Q value after

module _ {E A : Type 0} {Q : A → World → Type 0} where
  pub Returns-pure : (a : A) (w : World) → Q a w → Returns {E = E} (pure a) w Q
  Returns-pure a w h = record { value = a; after = w; runs = refl; holds = h }

  pub Returns-weaken :
      {R : A → World → Type 0} {m : M E A} {w : World}
      → ((a : A) (v : World) → Q a v → R a v)
      → Returns m w Q
      → Returns m w R
  Returns-weaken weaker r = record {
    value = r.value;
    after = r.after;
    runs = r.runs;
    holds = weaker r.value r.after r.holds;
  }

  pub Returns-bind :
      {B : Type 0} {R : B → World → Type 0} {m : M E A} {f : A → M E B} (w : World)
      → Returns m w Q
      → ((a : A) (v : World) → Q a v → Returns (f a) v R)
      → Returns (m >>= f) w R
  Returns-bind {m} {f} w first rest =
      let next = rest first.value first.after first.holds in
      record {
        value = next.value;
        after = next.after;
        runs = bind_ok f m w first.runs ∙ next.runs;
        holds = next.holds;
      }

  pub Returns-map_err :
      {F : Type 0} (g : E → F) {m : M E A} (w : World) → Returns m w Q → Returns (map_err g m) w Q
  Returns-map_err g {m} w r = record {
    value = r.value;
    after = r.after;
    runs = map_err_ok g m w r.runs;
    holds = r.holds;
  }

module _ (env : Env) (quiet : Quiet env) {A : Type 0} where
  pub Returns-exec :
      {Q : A → World → Type 0} (s : Stmt A) (w : World) (a : A) (db : Tables)
      → s (env.now w.statements) w.db ≡ ok (a, db)
      → Q a (record w { db = db; statements = suc w.statements })
      → Returns (exec env s) w Q
  Returns-exec s w a db ran h = record {
    value = a;
    after = record w { db = db; statements = suc w.statements };
    runs = exec-Quiet env quiet s w ∙ rw ran refl;
    holds = h;
  }

module _ (env : Env) where
  pub Returns-new_v4 :
      {E : Type 0} {Q : String → World → Type 0} (w : World)
      → Q (env.uuid w.drawn) (record w { drawn = suc w.drawn })
      → Returns {E = E} (new_v4 env) w Q
  Returns-new_v4 w h = record {
    value = env.uuid w.drawn;
    after = record w { drawn = suc w.drawn };
    runs = refl;
    holds = h;
  }

  -- A transaction whose body returns between its BEGIN and its COMMIT.
  pub Returns-transaction :
      {A : Type 0} {Q : A → World → Type 0} (body : M DbError A) (w : World)
      → Returns (do exec env no_op; a ← body; exec env no_op; pure a) w Q
      → Returns (transaction env body) w Q
  unfolding transaction
  Returns-transaction body w r = record {
    value = r.value;
    after = r.after;
    runs = ap (rollback w.db) r.runs;
    holds = r.holds;
  }
