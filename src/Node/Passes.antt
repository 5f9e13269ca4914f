-- ===== src/Node/Passes.antt =====
-- What the passes of `nod_waveform_status_init_thread` come to.
use aloe.Base.{
  ℕ, zero, suc, ◌+◌, ◌==◌, ◌≤◌, ◌<◌, ◌≡◌, ◌≢◌, ◌∙◌, ap, refl, sym, some, List, [], ◌∷◌, ◌++◌,
  length, set, get_elem?, if◌then◌else◌, arith, map, length-append, All,
}
use aloe.Node.{NodModule, status_init}
use aloe.Node.Init.{Init, again, done, all_done, gave_up, init_loop, init_fuel, status_init_thread}

get_elem?-middle :
    {A : Type 0} (xs : List A) (y : A) (ys : List A) (i : ℕ)
    → i ≡ length xs
    → get_elem? (xs ++ (y ∷ ys)) i ≡ some y
get_elem?-middle [] y ys zero e = refl
get_elem?-middle [] y ys (suc i) e = absurd (omega arith)
get_elem?-middle (x ∷ xs) y ys zero e = absurd (omega arith)
get_elem?-middle (x ∷ xs) y ys (suc i) e = get_elem?-middle xs y ys i (omega arith)

set-middle :
    {A : Type 0} (xs : List A) (y z : A) (ys : List A) (i : ℕ)
    → i ≡ length xs
    → set (xs ++ (y ∷ ys)) i z ≡ xs ++ (z ∷ ys)
set-middle [] y z ys zero e = refl
set-middle [] y z ys (suc i) e = absurd (omega arith)
set-middle (x ∷ xs) y z ys zero e = absurd (omega arith)
set-middle (x ∷ xs) y z ys (suc i) e = ap (λ l. x ∷ l) (set-middle xs y z ys i (omega arith))

shift : {A : Type 0} (xs : List A) (y : A) (ys : List A) → (xs ++ (y ∷ [])) ++ ys ≡ xs ++ (y ∷ ys)
shift [] y ys = refl
shift (x ∷ xs) y ys = ap (λ l. x ∷ l) (shift xs y ys)

if_true : {A : Type 0} (x y : A) (a b : ℕ) → a ≡ b → (if a == b then x else y) ≡ x
if_true x y a b e = ground arith

if_false : {A : Type 0} (x y : A) (a b : ℕ) → a ≢ b → (if a == b then x else y) ≡ y
if_false x y a b ne = ground arith

module _ (initialise : NodModule → Init × NodModule) where
  -- A module that is not in INIT and whose `init` returns a positive number.
  pub record IsReady (m : NodModule) : Type 0 where
    pub fresh : m.parent.status ≢ status_init
    pub prompt : (initialise m).0 ≡ done

  abbrev pub initialised : NodModule → NodModule
  initialised m = (initialise m).1

  -- The modules before are initialised, and those from `m` on are not yet.
  one_round :
      (fuel nof i : ℕ) (before : List NodModule) (m : NodModule) (ms : List NodModule)
      → IsReady m
      → i ≡ length before
      → length (before ++ (m ∷ ms)) ≡ nof
      → init_loop initialise (suc fuel) nof i 0 i (before ++ (m ∷ ms)) ≡ (
          if i + 1 == nof
          then init_loop initialise fuel nof 0 1 (i + 1) (before ++ (initialised m ∷ ms))
          else init_loop initialise fuel nof (i + 1) 0 (i + 1) (before ++ (initialised m ∷ ms)))
  unfolding init_loop
  one_round fuel nof i before m ms ready e total = ground (
    arith,
    get_elem?-middle before m ms i e,
    set-middle before m (initialised m) ms i e,
    length-append before (m ∷ ms),
    ready.fresh,
    ready.prompt,
  )

  finished :
      (fuel nof i trials initiated : ℕ) (ms : List NodModule)
      → nof ≤ initiated
      → init_loop initialise (suc fuel) nof i trials initiated ms ≡ some (all_done, ms)
  unfolding init_loop
  finished fuel nof i trials initiated ms h = ground arith

  pass_ready :
      (fuel nof i : ℕ) (before rest : List NodModule)
      → All IsReady rest
      → i ≡ length before
      → length (before ++ rest) ≡ nof
      → length rest < fuel
      → init_loop initialise fuel nof i 0 i (before ++ rest)
        ≡ some (all_done, before ++ map initialised rest)
  pass_ready zero nof i before rest ready e total hf = absurd (omega arith)
  pass_ready (suc fuel) nof i before [] ready e total hf =
      finished fuel nof i 0 i (before ++ []) (omega (arith, length-append before []))
  pass_ready (suc zero) nof i before (m ∷ ms) ready e total hf = absurd (omega arith)
  pass_ready (suc (suc fuel)) nof i before (m ∷ []) (r, rs) e total hf =
      one_round (suc fuel) nof i before m [] r e total
      ∙ if_true _ _ (i + 1) nof (omega (arith, length-append before (m ∷ [])))
      ∙ finished fuel nof 0 1 (i + 1) (before ++ (initialised m ∷ []))
          (omega (arith, length-append before (m ∷ [])))
  pass_ready (suc (suc fuel)) nof i before (m ∷ n ∷ ms) (r, rs) e total hf =
      one_round (suc fuel) nof i before m (n ∷ ms) r e total
      ∙ if_false _ _ (i + 1) nof (omega (arith, length-append before (m ∷ n ∷ ms)))
      ∙ ap (init_loop initialise (suc fuel) nof (i + 1) 0 (i + 1))
          (sym (shift before (initialised m) (n ∷ ms)))
      ∙ pass_ready (suc fuel) nof (i + 1) (before ++ (initialised m ∷ [])) (n ∷ ms) rs
          (omega (arith, length-append before (initialised m ∷ [])))
          (omega (
            arith,
            length-append before (m ∷ n ∷ ms),
            length-append before (initialised m ∷ []),
            length-append (before ++ (initialised m ∷ [])) (n ∷ ms),
          ))
          (omega arith)
      ∙ ap some (ap (λ l. (all_done, l)) (shift before (initialised m) (map initialised (n ∷ ms))))

  -- When every module is ready, the thread returns 1 with each module initialised once.
  pub status_init_thread_ready :
      (ms : List NodModule)
      → All IsReady ms
      → status_init_thread initialise ms ≡ some (all_done, map initialised ms)
  unfolding status_init_thread
  status_init_thread_ready ms ready =
      pass_ready (init_fuel initialise (length ms)) (length ms) 0 [] ms ready refl refl
        (omega arith)

  -- A module that asks twice to be called again and then is initialised.
  pub record IsLate (m : NodModule) : Type 0 where
    pub fresh : m.parent.status ≢ status_init
    pub first : (initialise m).0 ≡ again
    pub still_fresh : (initialised m).parent.status ≢ status_init
    pub second : (initialise (initialised m)).0 ≡ again
    pub again_fresh : (initialised (initialised m)).parent.status ≢ status_init
    pub third : (initialise (initialised (initialised m))).0 ≡ done

  -- On a waveform of one module the thread returns NULL when that module is initialised at its third
  -- call: the number of passes is tested before the number of initialised modules.
  pub status_init_thread_late :
      (m : NodModule)
      → IsLate m
      → status_init_thread initialise (m ∷ [])
        ≡ some (gave_up, initialised (initialised (initialised m)) ∷ [])
  unfolding status_init_thread init_loop
  status_init_thread_late m late =
      ground
        (arith, late.fresh, late.first, late.still_fresh, late.second, late.again_fresh, late.third)
