-- ===== src/Steps.antt =====
-- Sequences of steps on a state that can fail, as the set-up code of src/mlx5.c and src/vfio.c
-- strings its calls together: `if (rc != 0) goto out;` after each of them, and a clean-up that
-- goes on after a failure.
use mlx_nic_driver.Base.{Bool, true, false, ◌&&◌, List, [], ◌∷◌, if◌then◌else◌, All}

-- True is the return of 0.
abbrev pub Step : Type 0 → Type 0
Step S = S → Bool × S

abbrev pub after_step : {S : Type 0} → Step S → Bool × S → Bool × S
after_step t (true, s) = t s
after_step t (false, s) = (false, s)

infixr 4 ◌then◌
-- The second step, if the first one succeeds.
abbrev pub ◌then◌ : {S : Type 0} → Step S → Step S → Step S
(f then g) s = after_step g (f s)

abbrev pub run : {S : Type 0} → List (Step S) → Step S
run [] s = (true, s)
run (f ∷ fs) s = after_step (run fs) (f s)

abbrev pub when : {S : Type 0} → Bool → Step S → Step S
when true f s = f s
when false f s = (true, s)

abbrev pub guard : {S : Type 0} → Bool → Step S
guard ok s = (ok, s)

-- All steps, whatever they return.
abbrev pub sweep : {S : Type 0} → List (Step S) → Step S
sweep [] s = (true, s)
sweep (f ∷ fs) s = let (done, s') = f s in let (rest, s'') = sweep fs s' in (done && rest, s'')

module _ {S : Type 0} where
  -- A step keeps a predicate on every outcome.
  abbrev pub Keeps : (S → Type 0) → Step S → Type 0
  Keeps P f = (s : S) → P s → P (f s).1

  -- A step leads from a predicate to another one, whatever it returns.
  abbrev pub Moves : (S → Type 0) → (S → Type 0) → Step S → Type 0
  Moves P Q f = (s : S) → P s → Q (f s).1

  after_step-Moves :
      (Q R : S → Type 0) (g : Step S)
      → Moves Q R g
      → ((s : S) → Q s → R s)
      → (t : Bool × S) → Q t.1
      → R (after_step g t).1
  after_step-Moves Q R g moves weaker (true, s) q = moves s q
  after_step-Moves Q R g moves weaker (false, s) q = weaker s q

  pub then-Moves :
      (P Q R : S → Type 0) (f g : Step S)
      → Moves P Q f
      → Moves Q R g
      → ((s : S) → Q s → R s)
      → Moves P R (f then g)
  then-Moves P Q R f g first second weaker s p =
      after_step-Moves Q R g second weaker (f s) (first s p)

  pub when-Moves :
      (P Q : S → Type 0) (b : Bool) (f : Step S)
      → Moves P Q f
      → ((s : S) → P s → Q s)
      → Moves P Q (when b f)
  when-Moves P Q true f moves weaker s p = moves s p
  when-Moves P Q false f moves weaker s p = weaker s p

  after_step-Keeps :
      (P : S → Type 0) (g : Step S) → Keeps P g → (t : Bool × S) → P t.1 → P (after_step g t).1
  after_step-Keeps P g keeps (true, s) p = keeps s p
  after_step-Keeps P g keeps (false, s) p = p

  pub run-Keeps : (P : S → Type 0) (fs : List (Step S)) → All (Keeps P) fs → Keeps P (run fs)
  run-Keeps P [] all s p = p
  run-Keeps P (f ∷ fs) all s p =
      after_step-Keeps P (run fs) (run-Keeps P fs all.1) (f s) (all.0 s p)

  pub when-Keeps : (P : S → Type 0) (b : Bool) (f : Step S) → Keeps P f → Keeps P (when b f)
  when-Keeps P true f keeps s p = keeps s p
  when-Keeps P false f keeps s p = p

  pub sweep-Keeps : (P : S → Type 0) (fs : List (Step S)) → All (Keeps P) fs → Keeps P (sweep fs)
  sweep-Keeps P [] all s p = p
  sweep-Keeps P (f ∷ fs) all s p = sweep-Keeps P fs all.1 (f s).1 (all.0 s p)

  -- What holds after a success, and what after a failure.
  abbrev pub Outcome : (S → Type 0) → (S → Type 0) → Bool × S → Type 0
  Outcome Q R (true, s) = Q s
  Outcome Q R (false, s) = R s

  abbrev pub Leads : (S → Type 0) → (S → Type 0) → (S → Type 0) → Step S → Type 0
  Leads P Q R f = (s : S) → P s → Outcome Q R (f s)

  after_step-Outcome :
      (Q Q' R : S → Type 0) (g : Step S)
      → Leads Q Q' R g
      → (t : Bool × S) → Outcome Q R t
      → Outcome Q' R (after_step g t)
  after_step-Outcome Q Q' R g leads (true, s) q = leads s q
  after_step-Outcome Q Q' R g leads (false, s) r = r

  pub then-Leads :
      (P Q Q' R : S → Type 0) (f g : Step S)
      → Leads P Q R f
      → Leads Q Q' R g
      → Leads P Q' R (f then g)
  then-Leads P Q Q' R f g first second s p = after_step-Outcome Q Q' R g second (f s) (first s p)

  pub run-Leads :
      (P Q Q' R : S → Type 0) (f : Step S) (fs : List (Step S))
      → Leads P Q R f
      → Leads Q Q' R (run fs)
      → Leads P Q' R (run (f ∷ fs))
  run-Leads P Q Q' R f fs first rest s p = after_step-Outcome Q Q' R (run fs) rest (f s) (first s p)
