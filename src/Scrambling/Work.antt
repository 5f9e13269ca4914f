-- ===== src/Scrambling/Work.antt =====
-- modrep_osld/lte_scrambling/src/lte_scrambling.c: the test of the parameters; and the placeholder bits
-- of the uplink, of scrambling.c.
pub mod Verified
mod Tests
use aloe.Base.{
  ℕ, zero, suc, ◌+◌, ◌-◌, ◌*◌, ◌==◌, Bool, true, false, ◌&&◌, ◌||◌, ltb, leb, if◌then◌else◌, List,
  [], ◌∷◌, ◌++◌, length, get_or, set, take, Option, none, some, Outcome, ok, err, fault, Call,
  is_negative, lt_int,
}
use aloe.Scrambling.Sequence.{Params, nof_subframes}

-- Not a number from 0 to `last`, at `int`.
abbrev pub outside : ℕ → ℕ → Bool
outside a last = is_negative a || lt_int last a

-- The flags `pbch` and `direct`, which was the latter before.
pub verify_params : Params → Bool → Outcome (Bool × Bool)
verify_params ps direct =
    if outside (Params.q ps) 1
    then err
    else if outside (Params.nrnti ps) 65535
    then err
    else if outside (Params.cell_gr ps) 167
    then err
    else if outside (Params.cell_sec ps) 2
    then err
    else if outside (Params.channel ps) 5
    then err
    else if Params.channel ps == 3
    then ok (true, true)
    else ok (false, direct)

-- struct ul_params: the places of the placeholder bits, in order.
pub record UlParams : Type 0 where
  pub x : List ℕ
  pub y : List ℕ

-- MAX_X_SIZE and MAX_Y_SIZE
abbrev pub max_x_size : ℕ
max_x_size = 100

-- `in[i]` after the round, for the characters 'x' and 'y'.
abbrev pub cleared : ℕ → ℕ
cleared a = if a == 120 || a == 121 then 0 else a

-- The input after identify_xy, and the places found, from `i` on. A fault is a place too many.
pub identify_from : ℕ → List ℕ → UlParams → Outcome (List ℕ × UlParams)
identify_from i [] u = ok ([], u)
identify_from i (a ∷ input) u =
    let xs = if a == 120 then UlParams.x u ++ i ∷ [] else UlParams.x u in
    let ys = if a == 121 then UlParams.y u ++ i ∷ [] else UlParams.y u in
    let rest = identify_from (i + 1) input record { x = xs; y = ys } in
    if ltb max_x_size (length xs) || ltb max_x_size (length ys)
    then fault
    else elim rest [ ok (bits, v) ↦ ok (cleared a ∷ bits, v) | err ↦ err | fault ↦ fault ]

pub identify_xy : List ℕ → Outcome (List ℕ × UlParams)
unfolding identify_from
identify_xy input = identify_from 0 input record { x = []; y = [] }

-- The loops of set_xy.
pub set_x : List ℕ → List ℕ → List ℕ
set_x [] out = out
set_x (i ∷ is) out = set_x is (set out i 1)

pub set_y : List ℕ → List ℕ → Outcome (List ℕ)
set_y [] out = ok out
set_y (i ∷ is) out =
    let rest = set_y is (set out i (get_or out (i - 1) 0)) in if i == 0 then fault else rest

pub set_xy : List ℕ → UlParams → Outcome (List ℕ)
unfolding set_x set_y
set_xy out u = set_y (UlParams.y u) (set_x (UlParams.x u) out)
