-- ===== src/Pipeline/Order.antt =====
-- The order of the processes of a pipeline, by `exec_position`.
use aloe.Base.{
  arith, ltb, ltb→lt, ℕ, suc, ◌+◌, ◌-◌, ◌≤◌, ◌<◌, ◌≡◌, refl, sym, ap, inl, inr, Bool-cases, Bool,
  true, false, List, [], ◌∷◌, ◌++◌, All, length, length-append, add32, int_limit, if◌then◌else◌,
}
use mathlib.Core.Path.{subst}
use aloe.Pipeline.{Process, Pipeline, place, insert, pipeline_add}

-- The position of a process, in the order of `int`.
abbrev pub position : Process → ℕ
position p = add32 (Process.exec_position p) int_limit

-- Every process is at the position of those behind it or before.
abbrev pub InOrder : List Process → Type 0
InOrder [] = Unit
InOrder (p ∷ ps) = All (λ r. position p ≤ position r) ps × InOrder ps

-- `new` is `old` with `q` behind the processes that are not after it, and before the others; there
-- are `n` processes before it.
abbrev pub Inserted : Process → List Process → List Process → ℕ → Type 0
Inserted q old new n =
    (xs ys : List Process) × (old ≡ xs ++ ys)
    × (new ≡ xs ++ q ∷ ys)
    × All (λ r. position r ≤ position q) xs
    × All (λ r. position q < position r) ys
    × (length xs ≡ n)

not_lt : (a b : ℕ) → ltb a b ≡ false → b ≤ a
not_lt a b h = ground arith

after_first :
    (q p : Process) (ps : List Process)
    → position q < position p
    → All (λ r. position p ≤ position r) ps
    → All (λ r. position q < position r) ps
after_first q p [] lt h = tt
after_first q p (r ∷ ps) lt (le, h) = (omega arith, after_first q p ps lt h)

place_last : (q p : Process) (i : ℕ) → place q p [] i ≡ (p ∷ q ∷ [], i)
unfolding place
place_last q p i = refl

place_before :
    (q p r : Process) (rs : List Process) (i : ℕ)
    → ltb (position q) (position r) ≡ true
    → place q p (r ∷ rs) i ≡ (p ∷ q ∷ r ∷ rs, i)
unfolding place
place_before q p r rs i h = rw h refl

place_behind :
    (q p r : Process) (rs : List Process) (i : ℕ)
    → ltb (position q) (position r) ≡ false
    → place q p (r ∷ rs) i ≡ (p ∷ (place q r rs (i + 1)).0, (place q r rs (i + 1)).1)
unfolding place
place_behind q p r rs i h = rw h refl

-- What `place` counts from `i` on is one less than the processes before `q`.
abbrev Placed : Process → List Process → List Process × ℕ → ℕ → Type 0
Placed q old r i = (n : ℕ) × Inserted q old r.0 n × (r.1 + 1 ≡ n + i)

extend :
    (q p : Process) (old : List Process) (r : List Process × ℕ) (i : ℕ)
    → position p ≤ position q
    → Placed q old r (i + 1)
    → Placed q (p ∷ old) (p ∷ r.0, r.1) i
extend q p old r i le (n, (xs, ys, e, f, before, behind, size), count) = (
  suc n,
  (p ∷ xs, ys, ap (λ l. p ∷ l) e, ap (λ l. p ∷ l) f, (le, before), behind, ap suc size),
  omega arith,
)

place-Placed :
    (q p : Process) (ps : List Process) (i : ℕ)
    → InOrder (p ∷ ps)
    → position p ≤ position q
    → Placed q (p ∷ ps) (place q p ps i) i
place-Placed q p [] i order le =
    subst (λ x. Placed q (p ∷ []) x i) (sym (place_last q p i))
      (1, (p ∷ [], [], refl, refl, (le, tt), tt, refl), omega arith)
place-Placed q p (r ∷ rs) i (_, order) le = elim (Bool-cases (ltb (position q) (position r))) [
  | inl before ↦
      subst (λ x. Placed q (p ∷ r ∷ rs) x i) (sym (place_before q p r rs i before))
        (
          1,
          (
            p ∷ [],
            r ∷ rs,
            refl,
            refl,
            (le, tt),
            (ltb→lt _ _ before, after_first q r rs (ltb→lt _ _ before) order.0),
            refl,
          ),
          omega arith,
        )
  | inr behind ↦
      subst (λ x. Placed q (p ∷ r ∷ rs) x i) (sym (place_behind q p r rs i behind))
        (extend q p (r ∷ rs) (place q r rs (i + 1)) i le
          (place-Placed q r rs (i + 1) order (not_lt (position q) (position r) behind)))
]

-- A new process keeps the order.
Inserted-InOrder :
    (q : Process) (xs ys : List Process)
    → InOrder (xs ++ ys)
    → All (λ r. position r ≤ position q) xs
    → All (λ r. position q < position r) ys
    → InOrder (xs ++ q ∷ ys)
Inserted-InOrder q [] ys order before behind = (weaken ys behind, order)
  where
    weaken :
        (zs : List Process)
        → All (λ r. position q < position r) zs
        → All (λ r. position q ≤ position r) zs
    weaken [] h = tt
    weaken (z ∷ zs) (lt, h) = (omega arith, weaken zs h)
Inserted-InOrder q (x ∷ xs) ys (first, order) (le, before) behind =
    (among xs first, Inserted-InOrder q xs ys order before behind)
  where
    among :
        (zs : List Process)
        → All (λ r. position x ≤ position r) (zs ++ ys)
        → All (λ r. position x ≤ position r) (zs ++ q ∷ ys)
    among [] h = (le, h)
    among (z ∷ zs) (zle, h) = (zle, among zs h)

abbrev AtPlace : Process → List Process → List Process × ℕ → Type 0
AtPlace q old r = (n : ℕ) × Inserted q old r.0 n × (r.1 ≡ n - 1)

insert_lem : (q : Process) (ps : List Process) → InOrder ps → AtPlace q ps (insert q ps)
unfolding insert
insert_lem q [] order = (0, ([], [], refl, refl, tt, tt, refl), refl)
insert_lem q (p ∷ ps) order = go (ltb (position q) (position p)) refl
  where
    go :
        (b : Bool)
        → ltb (position q) (position p) ≡ b
        → AtPlace q (p ∷ ps) (if b then (q ∷ p ∷ ps, 0) else place q p ps 0)
    go true h = (
      0,
      ([], p ∷ ps, refl, refl, tt, (ltb→lt _ _ h, after_first q p ps (ltb→lt _ _ h) order.0), refl),
      refl,
    )
    go false h =
        let (n, at, count) = place-Placed q p ps 0 order (not_lt (position q) (position p) h) in
        (n, at, omega arith)

-- On a pipeline whose processes are in the order of their `exec_position` and counted by
-- `nof_processes`, `pipeline_add` puts the process behind all those at its position or before it, and
-- before all others, so that the order and the count hold again. It returns 0 for the head, and
-- else one less than the number of processes before it.
pub pipeline_add_lem :
    (obj : Pipeline) (q : Process)
    → InOrder (Pipeline.processes obj)
    → Pipeline.nof_processes obj ≡ length (Pipeline.processes obj)
    → (n : ℕ) × Inserted q (Pipeline.processes obj) (Pipeline.processes (pipeline_add obj q).0) n
      × ((pipeline_add obj q).1 ≡ n - 1)
      × InOrder (Pipeline.processes (pipeline_add obj q).0)
      × (Pipeline.nof_processes (pipeline_add obj q).0
          ≡ length (Pipeline.processes (pipeline_add obj q).0))
unfolding pipeline_add
pipeline_add_lem obj q order counted =
    let (n, (xs, ys, e, f, before, behind, size), count) =
      insert_lem q (Pipeline.processes obj) order in
    (
      n,
      (xs, ys, e, f, before, behind, size),
      count,
      subst InOrder (sym f) (Inserted-InOrder q xs ys (subst InOrder e order) before behind),
      omega (arith, ap length e, ap length f, length-append xs ys, length-append xs (q ∷ ys)),
    )
