-- ===== src/Pipeline/Linked.antt =====
-- rtdal_lnx/src/pipeline.c: a list of processes as its `next` pointers link it.
use aloe.Base.{==_iff, ≢→==, ◌≡◌, ◌≢◌, refl, sym, List, [], ◌∷◌, All}
use aloe.Pipeline.{Process, behind}

-- No two processes have the same pid.
abbrev pub Distinct : List Process → Type 0
Distinct [] = Unit
Distinct (p ∷ ps) = All (λ q. Process.pid q ≢ Process.pid p) ps × Distinct ps

-- Each process of the list stands in `l` before the rest of the list.
abbrev pub Linked : List Process → List Process → Type 0
Linked [] l = Unit
Linked (p ∷ ps) l = (behind (Process.pid p) l ≡ ps) × Linked ps l

Linked-cons :
    (ps l : List Process) (x : Process)
    → All (λ q. Process.pid q ≢ Process.pid x) ps
    → Linked ps l
    → Linked ps (x ∷ l)
unfolding behind
Linked-cons [] l x h k = tt
Linked-cons (p ∷ ps) l x (ne, h) (e, k) =
    (rw (≢→== (Process.pid x) (Process.pid p) λ e. ne (sym e)) e, Linked-cons ps l x h k)

pub Distinct-Linked : (ps : List Process) → Distinct ps → Linked ps ps
unfolding behind
Distinct-Linked [] h = tt
Distinct-Linked (p ∷ ps) (ne, h) = (
  rw ((==_iff (Process.pid p) (Process.pid p)).1 refl) refl,
  Linked-cons ps ps p ne (Distinct-Linked ps h),
)

-- The processes that are passed, the last one first.
abbrev pub passed : List Process → List Process → List Process
passed before [] = before
passed before (p ∷ ps) = passed (p ∷ before) ps
