-- ===== src/Sms/InFlight/Racing.antt =====
-- Two ingestions of which at most one can return, in a pool with others.
use spritexai_pay_core.Prelude.{List, [], ◌∷◌, ◌≡◌, ◌≢◌, ◌⊎◌, refl, inl, inr}
use spritexai_pay_core.Db.{Tables, Result, ok, err, World, M, All}
use spritexai_pay_core.Sms.{IngestError, Ingested}
use spritexai_pay_core.Task.{Task, done, step, after, atomically}
use spritexai_pay_core.Task.Pool.{Step, here, there, Reach, start, moved, other, Steady}

abbrev pub NotOk : {A : Type 0} → Result IngestError A → Type 0
NotOk {A} r = (a : A) → r ≢ ok a

-- With `R` on record, the task ends in an error.
abbrev pub Doomed : (Tables → Type 0) → Task IngestError Ingested → Type 0
Doomed R (done r) = NotOk r
Doomed R (step s more) = (w : World) → R w.db → Doomed R (more w)

-- A task that has not put `R` on record: it fails, or is about to do so, and it is doomed as soon as
-- `R` is on record.
abbrev pub Racing : (Tables → Type 0) → Task IngestError Ingested → Type 0
Racing R (done r) = NotOk r
Racing R (step s more) = Doomed R (step s more) × ((w : World) → Racing R (more w) ⊎ R (s w).db)

Doomed-of : (R : Tables → Type 0) (t : Task IngestError Ingested) → Racing R t → Doomed R t
Doomed-of R (done r) h = h
Doomed-of R (step s more) h = h.0

module _ (R : Tables → Type 0) where
  -- Of two tasks and the rest of the pool: none of the two has put `R` on record, or it is there and
  -- one of the two is doomed.
  abbrev pub OneAtMost : List (Task IngestError Ingested) → World → Type 0
  OneAtMost (a ∷ b ∷ ts) w =
      All (Steady R) (a ∷ b ∷ ts)
      × ((Racing R a × Racing R b) ⊎ (R w.db × (Doomed R a ⊎ Doomed R b)))
  OneAtMost _ w = ⊥

  Step-others :
      {ts us : List (Task IngestError Ingested)} {w v : World}
      → Step ts w us v
      → All (Steady R) ts
      → (R w.db → R v.db) × All (Steady R) us
  Step-others (here {w}) steady = ((steady.0 w).0, ((steady.0 w).1, steady.1))
  Step-others (there st) steady =
      let rest : (R _ → R _) × All (Steady R) _ = Step-others st steady.1 in
      (rest.0, (steady.0, rest.1))

  Step-OneAtMost :
      {ts us : List (Task IngestError Ingested)} {w v : World}
      → Step ts w us v
      → OneAtMost ts w
      → OneAtMost us v
  Step-OneAtMost (here {ts = []} {w}) h = absurd h
  Step-OneAtMost (here {ts = b ∷ ts} {w}) ((sa, rest), inl (ra, rb)) = (
    ((sa w).1, rest),
    elim (ra.1 w) [
      | inl racing ↦ inl (racing, rb)
      | inr on_record ↦ inr (on_record, inr (Doomed-of R b rb))
    ],
  )
  Step-OneAtMost (here {ts = b ∷ ts} {w}) ((sa, rest), inr (on_record, inl da)) =
      (((sa w).1, rest), inr ((sa w).0 on_record, inl (da w on_record)))
  Step-OneAtMost (here {ts = b ∷ ts} {w}) ((sa, rest), inr (on_record, inr db)) =
      (((sa w).1, rest), inr ((sa w).0 on_record, inr db))
  Step-OneAtMost (there {t = a} (here {w})) ((sa, (sb, rest)), inl (ra, rb)) = (
    (sa, ((sb w).1, rest)),
    elim (rb.1 w) [
      | inl racing ↦ inl (ra, racing)
      | inr on_record ↦ inr (on_record, inl (Doomed-of R a ra))
    ],
  )
  Step-OneAtMost (there (here {w})) ((sa, (sb, rest)), inr (on_record, inl da)) =
      ((sa, ((sb w).1, rest)), inr ((sb w).0 on_record, inl da))
  Step-OneAtMost (there (here {w})) ((sa, (sb, rest)), inr (on_record, inr db)) =
      ((sa, ((sb w).1, rest)), inr ((sb w).0 on_record, inr (db w on_record)))
  Step-OneAtMost (there (there st)) ((sa, (sb, rest)), inl racing) =
      ((sa, (sb, (Step-others st rest).1)), inl racing)
  Step-OneAtMost (there (there st)) ((sa, (sb, rest)), inr (on_record, doomed)) =
      let more : (R _ → R _) × All (Steady R) _ = Step-others st rest in
      ((sa, (sb, more.1)), inr (more.0 on_record, doomed))

  others-OneAtMost :
      (ts : List (Task IngestError Ingested)) (w v : World)
      → (R w.db → R v.db)
      → OneAtMost ts w
      → OneAtMost ts v
  others-OneAtMost (a ∷ b ∷ ts) w v kept (steady, inl racing) = (steady, inl racing)
  others-OneAtMost (a ∷ b ∷ ts) w v kept (steady, inr (on_record, doomed)) =
      (steady, inr (kept on_record, doomed))
  others-OneAtMost (a ∷ []) w v kept h = h
  others-OneAtMost [] w v kept h = h

  pub Reach-OneAtMost :
      {Other : Tables → Tables → Type 0} {ts : List (Task IngestError Ingested)} {w : World}
      {us : List (Task IngestError Ingested)} {v : World}
      → ((a b : Tables) → Other a b → R a → R b)
      → Reach Other ts w us v
      → OneAtMost ts w
      → OneAtMost us v
  Reach-OneAtMost kept start h = h
  Reach-OneAtMost kept (moved r st) h = Step-OneAtMost st (Reach-OneAtMost kept r h)
  Reach-OneAtMost kept (other {us} {u} v r o) h =
      others-OneAtMost us u v (kept _ _ o) (Reach-OneAtMost kept r h)

  -- What follows a part that may fail.
  pub Doomed-after :
      {A : Type 0} (r : Result IngestError A) (k : A → Task IngestError Ingested)
      → ((a : A) → r ≡ ok a → Doomed R (k a))
      → Doomed R (after r k)
  Doomed-after (ok a) k rest = rest a refl
  Doomed-after (err e) k rest = λ a. cc

  pub Racing-after :
      {A : Type 0} (r : Result IngestError A) (k : A → Task IngestError Ingested)
      → ((a : A) → r ≡ ok a → Racing R (k a))
      → Racing R (after r k)
  Racing-after (ok a) k rest = rest a refl
  Racing-after (err e) k rest = λ a. cc

  pub Racing-atomically :
      {A : Type 0} (m : M IngestError A) (k : A → Task IngestError Ingested)
      → ((a : A) → Racing R (k a))
      → Racing R (atomically m k)
  unfolding atomically
  Racing-atomically m k rest = (
    λ w h. Doomed-after (m w).0 k (λ a e. Doomed-of R (k a) (rest a)),
    λ w. inl (Racing-after (m w).0 k (λ a e. rest a)),
  )
