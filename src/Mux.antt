-- ===== src/Mux.antt =====
-- modrep_default/gen_libs/utils/mux.c and the modules gen_mux and gen_demux, which join the samples of
-- several interfaces and part them again.
--
-- Samples are of any type, with the one whose bytes are 0; lengths are not negative, and sums of them
-- fit an `int`. A fault is an access out of a buffer or an array, or a division by 0.
pub mod Roundtrip
pub mod Guards
mod Tests
use aloe.Base.{
  ℕ, zero, suc, ◌+◌, ◌-◌, ◌*◌, ◌/◌, ◌%◌, ◌==◌, Bool, true, false, not, ◌&&◌, ◌||◌, ltb, leb,
  if◌then◌else◌, List, [], ◌∷◌, map, length, replicate, Option, none, some, Outcome, ok, err, fault,
  Call, return, crash, ◌>>◌, write, copy,
}

-- `sum_i`
pub sum : List ℕ → ℕ
sum [] = 0
sum (n ∷ ns) = n + sum ns

module _ {A : Type 0} where
  -- The loop of `mux`, `n` inputs left, behind `r` samples.
  pub mux : ℕ → List (List A) → List ℕ → List ℕ → ℕ → Call (List A) (Unit {0})
  mux zero ins lens pres r = return tt
  mux (suc n) (input ∷ ins) (len ∷ lens) (pre ∷ pres) r =
      copy r input pre len >> mux n ins lens pres (r + len)
  mux (suc n) _ _ _ r = crash

  pub filled : Outcome (Unit {0}) × List A → Outcome (List (List A)) → Outcome (List (List A))
  filled (ok u, out) (ok outs) = ok (out ∷ outs)
  filled (ok u, out) err = err
  filled (ok u, out) fault = fault
  filled (err, out) more = err
  filled (fault, out) more = fault

module _ {A : Type 0} (zero_sample : A) where
  -- A round of `demux`, on the output.
  pub demux_one : List A → ℕ → ℕ → ℕ → ℕ → Call (List A) (Unit {0})
  demux_one input r len pre post =
      write 0 (replicate pre zero_sample)
      >> copy pre input r len
      >> write (pre + len) (replicate post zero_sample)

  -- The loop of `demux`, `n` outputs left, from the sample `r` on.
  pub demux : ℕ → List A → List (List A) → List ℕ → List ℕ → List ℕ → ℕ → Outcome (List (List A))
  unfolding demux_one filled
  demux zero input outs lens pres posts r = ok outs
  demux (suc n) input (out ∷ outs) (len ∷ lens) (pre ∷ pres) (post ∷ posts) r =
      filled (demux_one input r len pre post out)
        (demux n input outs lens pres posts (r + len + post))
  demux (suc n) input _ _ _ _ r = fault

-- The parameters of gen_mux.
pub record Muxing : Type 0 where
  nof_inputs : ℕ
  exclusive : Bool
  check_all : Bool

-- `nof_active_inputs` after the loop, which counts every input.
pub count_active : List ℕ → ℕ → ℕ
count_active lengths zero = 0
count_active lengths (suc n) = count_active lengths n + 1

module _ {A : Type 0} where
  -- The multiplexing, and what `work` returns.
  pub mux_all : Muxing → List ℕ → List (List A) → List A → Outcome ℕ × List A
  unfolding mux sum
  mux_all ps lengths inp out =
      let out_len = sum lengths in
      let n = Muxing.nof_inputs ps in
      if out_len == 0
      then (ok 0, out)
      else (mux n inp lengths (replicate n 0) 0 >> return out_len) out

  pub mux_output : Muxing → List ℕ → List (List A) → Option (List A) → Outcome ℕ × Option (List A)
  unfolding mux_all
  mux_output ps lengths inp none = (err, none)
  mux_output ps lengths inp (some out) = let r = mux_all ps lengths inp out in (r.0, some r.1)

  -- `work` of gen_mux, for what the inputs received: `lengths` has an entry for each input.
  pub mux_work : Muxing → List ℕ → List (List A) → Option (List A) → Outcome ℕ × Option (List A)
  unfolding count_active mux_output
  mux_work ps lengths inp out =
      let nof_active_inputs = count_active lengths (Muxing.nof_inputs ps) in
      if Muxing.exclusive ps && ltb 1 nof_active_inputs
      then (err, out)
      else if Muxing.check_all ps && ltb nof_active_inputs (Muxing.nof_inputs ps)
      then (err, out)
      else mux_output ps lengths inp out

-- The parameters of gen_demux: the lengths given for outputs, 0 where none is, and their number.
pub record Demuxing : Type 0 where
  nof_outputs : ℕ
  special_output_length : List ℕ
  nof_special_outputs : ℕ

-- `output_lengths`
pub output_lengths : List ℕ → ℕ → List ℕ
output_lengths [] out_len = []
output_lengths (special ∷ specials) out_len =
    (if special == 0 then out_len else special) ∷ output_lengths specials out_len

-- `if (!out[i]) return -1;`
pub all_ready {ℓ} : {A : Type ℓ} → List (Option A) → Option (List A)
all_ready [] = some []
all_ready (none ∷ outs) = none
all_ready (some out ∷ outs) = elim (all_ready outs) [ none ↦ none | some rest ↦ some (out ∷ rest) ]

module _ {A : Type 0} (zero_sample : A) where
  pub demux_ready : Demuxing → List A → ℕ → Option (List (List A)) → Outcome (List (List A))
  unfolding demux output_lengths
  demux_ready ps input out_len none = err
  demux_ready ps input out_len (some outs) =
      let n = Demuxing.nof_outputs ps in
      demux zero_sample n input outs (output_lengths (Demuxing.special_output_length ps) out_len)
        (replicate n 0) (replicate n 0) 0

  -- Fewer samples than the given lengths: the other outputs would get a negative number.
  pub demux_short : Option (List (List A)) → Outcome (List (List A))
  demux_short none = err
  demux_short (some outs) = fault

  -- `work` of gen_demux, for `rcv_len` samples; `none` is a return of 0 with nothing sent.
  pub demux_work : Demuxing → List A → List (Option (List A)) → ℕ → Option (Outcome (List (List A)))
  unfolding sum all_ready demux_ready demux_short
  demux_work ps input outs rcv_len =
      let special = sum (Demuxing.special_output_length ps) in
      let shares = Demuxing.nof_outputs ps - Demuxing.nof_special_outputs ps in
      let too_short = ltb rcv_len special in
      let shared = if too_short then special - rcv_len else rcv_len - special in
      if rcv_len == 0
      then none
      else if leb (Demuxing.nof_outputs ps) (Demuxing.nof_special_outputs ps)
      then some fault
      else if not (shared % shares == 0)
      then none
      else if too_short
      then some (demux_short (all_ready outs))
      else some (demux_ready ps input (shared / shares) (all_ready outs))
