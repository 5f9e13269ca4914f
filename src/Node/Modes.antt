-- ===== src/Node/Modes.antt =====
-- `nod_waveform_unserializeTo` of oesr/src/node/nod_waveform.c: what a node does with a packet for
-- one of its waveforms. `nod_waveform_status_new` and `nod_waveform_status_stop`, which wait for
-- tasks of the run-time, are parameters, and so is whether `oesr_context_init` succeeds.
use aloe.Base.{
  ℕ, zero, suc, ◌+◌, ◌==◌, Bool, true, false, none, some, List, take, drop, set, get_elem?,
  if◌then◌else◌, ok, err, fault, Call, ◌>>=◌, ◌>>◌, return, int_of_bytes,
}
use aloe.Packet.Stream.{get_int}
use aloe.Waveform.{Layout, rounds, str_len, zeros}
use aloe.Serializable.{get_bytes, waveform_mode_unserialize_to, array, CopyData}
use aloe.Serializable.Modules.{module_unserialize_to}
use aloe.Node.{
  NodModule, NodWaveform, Handling, on_pkt, on_dest, change, nod_waveform_alloc, nod_find_module_id,
  with_status, status_loaded, div_int, copy_data_of,
}

-- The two fields that a received `module_mode_t` sets.
abbrev pub plan : List ℕ → NodModule → NodModule
plan mode m = record m {
  parent = record (m.parent) {
    mode = record (m.parent.mode) {
      next_mode = int_of_bytes (take 4 (drop 4 mode));
      next_tslot = int_of_bytes (take 4 (drop 8 mode));
    };
  };
}

abbrev pub put_module : ℕ → NodModule → NodWaveform → NodWaveform
put_module i m w = record w { modules = some (set (array w.modules) i m) }

-- The loop over the modules of a WAVEFORM_MODE packet, `n` of them left.
pub get_modes : ℕ → Call Handling (Unit {0})
get_modes zero = return tt
get_modes (suc n) = on_pkt get_int >>= λ module_id. λ h.
    elim (nod_find_module_id (array h.dest.modules) module_id) [
      | none ↦ (err, h)
      | some j ↦ elim (get_elem? (array h.dest.modules) j) [
        | none ↦ (fault, h)
        | some m ↦
            (on_pkt (get_bytes 12) >>= λ mode. change (put_module j (plan mode m)) >> get_modes n) h
      ]
    ]

-- The loop over the modes of a WAVEFORM_LOAD packet, from index `i`, `n` of them left.
pub get_waveform_modes : ℕ → ℕ → Call Handling (Unit {0})
get_waveform_modes zero i = return tt
get_waveform_modes (suc n) i = λ h. elim (get_elem? h.dest.modes i) [
  | none ↦ (fault, h)
  | some _ ↦
      (on_pkt waveform_mode_unserialize_to >>= λ mode.
      change (λ w. record w { modes = set w.modes i mode }) >> get_waveform_modes n (i + 1))
        h
]

module _ (layout : Layout) (calloc : ℕ → ℕ → Bool) (module_size oesr_size : ℕ)
    (context_init : Bool) where
  -- `nod_module_alloc`
  pub nod_module_alloc : Call NodModule (Unit {0})
  nod_module_alloc m =
      if calloc 1 oesr_size
      then (if context_init
          then (
            ok tt,
            record m {
              context = true;
              parent = record (m.parent) { execinfo = zeros layout.execinfo_size };
            },
          )
          else (err, record m { context = true }))
      else (err, record m { context = false })

  -- The loop over the modules of a WAVEFORM_LOAD packet; a module that fails to be read is left as
  -- it was.
  pub get_modules : ℕ → ℕ → CopyData → Call Handling (Unit {0})
  unfolding nod_module_alloc
  get_modules zero i copy_data = return tt
  get_modules (suc n) i copy_data = λ h. elim (get_elem? (array h.dest.modules) i) [
    | none ↦ (fault, h)
    | some m ↦
        let r = nod_module_alloc m in
        elim r.0 [
          | ok _ ↦
              (on_pkt (module_unserialize_to layout calloc (r.1).parent copy_data) >>= λ parent.
              change (put_module i (record (r.1) { parent = parent }))
              >> get_modules n (i + 1) copy_data)
                h
          | err ↦ (err, record h { dest = put_module i r.1 h.dest })
          | fault ↦ (fault, h)
        ]
  ]

  module _ (ts_len_ns : ℕ) (status_new : List ℕ → Call NodWaveform (Unit {0}))
      (status_stop : Call NodWaveform (Unit {0})) where
    get_load : Call Handling (Unit {0})
    unfolding get_waveform_modes get_modules
    get_load = do
      copy ← on_pkt get_int
      id ← on_pkt get_int
      change (λ w. record w { id = id })
      granularity_us ← on_pkt get_int
      change (λ w. record w {
        tslot_multiplicity =
            if granularity_us == 0 then 1 else div_int (div_int ts_len_ns 1000) granularity_us;
      })
      precach_pipeline ← on_pkt get_int
      change (λ w. record w { precach_pipeline = precach_pipeline })
      name ← on_pkt (get_bytes str_len)
      change (λ w. record w { name = name })
      nof_modes ← on_pkt get_int
      change (λ w. record w { nof_modes = nof_modes })
      get_waveform_modes (rounds nof_modes) 0
      nof_modules ← on_pkt get_int
      on_dest (nod_waveform_alloc layout calloc module_size nof_modules)
      get_modules (rounds nof_modules) 0 (copy_data_of copy)
      change (with_status status_loaded)

    -- A change of status that fails stops the waveform, whatever that comes to.
    unfoldable pub get_status : Call Handling (Unit {0})
    get_status = on_pkt (get_bytes 8) >>= λ new_status. λ h.
        let r = status_new new_status h.dest in
        elim r.0 [
          | ok _ ↦ (ok tt, record h { dest = r.1 })
          | err ↦ (err, record h { dest = (status_stop r.1).1 })
          | fault ↦ (fault, record h { dest = r.1 })
        ]

    unfoldable pub nod_waveform_unserialize_to : Call Handling (Unit {0})
    unfolding get_load get_status get_modes
    nod_waveform_unserialize_to = on_pkt get_int >>= λ action.
        if action == 0
        then get_load
        else if action == 1
        then get_status
        else if action == 2
        then (on_pkt get_int >>= λ nof_modules. get_modes (rounds nof_modules))
        else return tt
