-- ===== src/Dispatcher/Commands.antt =====
-- `nod_anode_dispatch`: which waveforms a command may change.
use aloe.Base.{
  length, ◌<◌, ℕ, zero, suc, ◌==◌, ◌≡◌, ◌≢◌, refl, Bool, true, false, Option, none, some, List, [],
  ◌∷◌, ap, arith, Outcome, ok, err, fault, Call, ◌>>=◌, ◌>>◌, if◌then◌else◌, set, get_elem?,
  proceed, map,
}
use aloe.Packet.{
  Packet, Command, cmd_load, cmd_set, cmd_get, cmd_connect, cmd_disconnect, cmd_hwinfo,
}
use aloe.Waveform.{Layout, Variable}
use aloe.Serializable.{cp_value, variable_serialize, variable_unserialize_to, array, no_data}
use aloe.Serializable.Wave.{nod_waveform_serialize}
use aloe.Node.{NodWaveform, Handling}
use aloe.Dispatcher.{
  Anode, Found, find_stopped, find_waveform, find_variable, put_variable, is_whole, on_waveform,
  on_packet, execute, with_found, with_variable, with_waveform, load_or_remove, set_variable,
  get_variable, nod_dispatcher_load, nod_dispatcher_set, nod_dispatcher_get, nod_anode_dispatch,
}
use aloe.Dispatcher.Target.{IsTarget, find_stopped-IsFirst, find_waveform-IsFirst}

get_elem?-set_ne :
    {A : Type 0} (xs : List A) (i j : ℕ) (v : A)
    → (i < length xs → i ≢ j)
    → get_elem? (set xs j v) i ≡ get_elem? xs i
get_elem?-set_ne [] i j v ne = refl
get_elem?-set_ne (x ∷ xs) zero zero v ne = absurd (ne (omega arith) refl)
get_elem?-set_ne (x ∷ xs) zero (suc j) v ne = refl
get_elem?-set_ne (x ∷ xs) (suc i) zero v ne = refl
get_elem?-set_ne (x ∷ xs) (suc i) (suc j) v ne =
    get_elem?-set_ne xs i j v λ h e. ne (omega arith) (ap suc e)

-- Place `i` is not the place `found`, or past the end.
abbrev Elsewhere : ℕ → Anode → ℕ → Type 0
Elsewhere i a found = i < length a.loaded_waveforms → i ≢ found

-- Place `i` is as it was.
abbrev Keeps : ℕ → Anode → Outcome (Unit {0}) × Anode → Type 0
Keeps i a r = get_elem? (r.1).loaded_waveforms i ≡ get_elem? a.loaded_waveforms i

module _ (layout : Layout) (calloc : ℕ → ℕ → Bool) (unserialize load : Call Handling (Unit {0}))
    (remove : NodWaveform → NodWaveform) (i : ℕ) where
  on_waveform-Keeps :
      (wi : ℕ) (w : NodWaveform) (c : Call Handling (Unit {0})) (a : Anode)
      → Elsewhere i a wi
      → Keeps i a (on_waveform wi w c a)
  on_waveform-Keeps wi w c a ne = get_elem?-set_ne a.loaded_waveforms i wi _ ne

  with_found-Keeps :
      (k : NodWaveform → Call Anode (Unit {0})) (a : Anode)
      → ((w : NodWaveform) → Keeps i a (k w a))
      → (g : Option NodWaveform) → Keeps i a (with_found k g a)
  with_found-Keeps k a h none = refl
  with_found-Keeps k a h (some w) = h w

  with_variable-Keeps :
      (k : Found → Call Anode (Unit {0})) (a : Anode)
      → ((f : Found) → Keeps i a (k f a))
      → (o : Outcome Found) → Keeps i a (with_variable k o a)
  with_variable-Keeps k a h (ok f) = h f
  with_variable-Keeps k a h err = refl
  with_variable-Keeps k a h fault = refl

  if_Keeps :
      (b : Bool) (a : Anode) (r s : Outcome (Unit {0}) × Anode)
      → Keeps i a r
      → Keeps i a s
      → Keeps i a (if b then r else s)
  if_Keeps true a r s hr hs = hr
  if_Keeps false a r s hr hs = hs

  nod_dispatcher_load-Keeps :
      (a : Anode)
      → Elsewhere i a (find_stopped a.loaded_waveforms)
      → Keeps i a (nod_dispatcher_load layout calloc unserialize load remove a)
  unfolding nod_dispatcher_load
  nod_dispatcher_load-Keeps a ne =
      with_found-Keeps
        (λ w.
          on_waveform (find_stopped a.loaded_waveforms) w
            (unserialize >> load_or_remove load remove))
        a
        (λ w.
          on_waveform-Keeps (find_stopped a.loaded_waveforms) w
            (unserialize >> load_or_remove load remove) a ne)
        (get_elem? a.loaded_waveforms (find_stopped a.loaded_waveforms))

  -- What is done with the variable that has been read from the packet.
  abbrev put : ℕ → NodWaveform → Found → Variable → Call Anode (Unit {0})
  put wi w f v b =
      (ok tt, record b { loaded_waveforms = set b.loaded_waveforms wi (put_variable wi w f v) })

  put-Keeps :
      (wi : ℕ) (w : NodWaveform) (f : Found) (a : Anode) (o : Outcome Variable) (p : Packet)
      → Elsewhere i a wi
      → Keeps i a (proceed (put wi w f) (o, record a { packet = p }))
  put-Keeps wi w f a (ok v) p ne =
      get_elem?-set_ne a.loaded_waveforms i wi (put_variable wi w f v) ne
  put-Keeps wi w f a err p ne = refl
  put-Keeps wi w f a fault p ne = refl

  set_variable-Keeps :
      (wi : ℕ) (w : NodWaveform) (a : Anode)
      → Elsewhere i a wi
      → Keeps i a (set_variable layout calloc unserialize load remove wi w a)
  unfolding set_variable
  set_variable-Keeps wi w a ne =
      with_variable-Keeps
        (λ f.
          on_packet (variable_unserialize_to calloc f.variable cp_value f.nof_modes) >>= put wi w f)
        a
        (λ f.
          let r = variable_unserialize_to calloc f.variable cp_value f.nof_modes a.packet in
          put-Keeps wi w f a r.0 r.1 ne)
        (find_variable a.loaded_waveforms wi w a.packet.dest)

  with_waveform-Keeps :
      (k : ℕ → NodWaveform → Call Anode (Unit {0})) (a : Anode)
      → ((w : NodWaveform)
          → Keeps i a (k (find_waveform a.loaded_waveforms a.packet.dest.waveform_id) w a))
      → Keeps i a (with_waveform k a)
  with_waveform-Keeps k a h =
      let wi = find_waveform a.loaded_waveforms a.packet.dest.waveform_id in
      if_Keeps (a.packet.dest.waveform_id == 0) a (err, a)
        (with_found (k wi) (get_elem? a.loaded_waveforms wi) a) refl
        (with_found-Keeps (k wi) a h (get_elem? a.loaded_waveforms wi))

  -- The answer to GET for a whole waveform.
  abbrev report : NodWaveform → Call Anode (Unit {0})
  report w = on_packet (
      nod_waveform_serialize layout (map (λ m. m.parent) (array w.modules)) w.nof_modules 0 no_data)

  nod_dispatcher_set-Keeps :
      (a : Anode)
      → Elsewhere i a (find_waveform a.loaded_waveforms a.packet.dest.waveform_id)
      → Keeps i a (nod_dispatcher_set layout calloc unserialize load remove a)
  unfolding nod_dispatcher_set
  nod_dispatcher_set-Keeps a ne =
      let wi = find_waveform a.loaded_waveforms a.packet.dest.waveform_id in
      with_waveform-Keeps
        (λ wi w a'.
          if is_whole a'.packet.dest
          then on_waveform wi w unserialize a'
          else set_variable layout calloc unserialize load remove wi w a')
        a
        (λ w.
          if_Keeps (is_whole a.packet.dest) a (on_waveform wi w unserialize a)
            (set_variable layout calloc unserialize load remove wi w a)
            (on_waveform-Keeps wi w unserialize a ne) (set_variable-Keeps wi w a ne))

  get_variable-Keeps :
      (wi : ℕ) (w : NodWaveform) (a : Anode)
      → Keeps i a (get_variable layout calloc unserialize load remove wi w a)
  unfolding get_variable
  get_variable-Keeps wi w a =
      with_variable-Keeps (λ f. on_packet (variable_serialize f.variable cp_value f.nof_modes)) a
        (λ f. refl) (find_variable a.loaded_waveforms wi w a.packet.dest)

  nod_dispatcher_get-Keeps :
      (a : Anode) → Keeps i a (nod_dispatcher_get layout calloc unserialize load remove a)
  unfolding nod_dispatcher_get
  nod_dispatcher_get-Keeps a =
      let wi = find_waveform a.loaded_waveforms a.packet.dest.waveform_id in
      with_waveform-Keeps
        (λ wi w a'.
          if is_whole a'.packet.dest
          then report w a'
          else get_variable layout calloc unserialize load remove wi w a')
        a
        (λ w.
          if_Keeps (is_whole a.packet.dest) a (report w a)
            (get_variable layout calloc unserialize load remove wi w a) refl
            (get_variable-Keeps wi w a))

  execute-Keeps :
      (c : Command) (a : Anode)
      → ¬ IsTarget c a i
      → Keeps i a (execute layout calloc unserialize load remove c a)
  unfolding execute IsTarget
  execute-Keeps cmd_load a other =
      nod_dispatcher_load-Keeps a λ h e. other (find_stopped-IsFirst a.loaded_waveforms i e h)
  execute-Keeps cmd_set a other =
      nod_dispatcher_set-Keeps a
        λ h e. other (find_waveform-IsFirst a.packet.dest.waveform_id a.loaded_waveforms i e h)
  execute-Keeps cmd_get a other = nod_dispatcher_get-Keeps a
  execute-Keeps cmd_connect a other = refl
  execute-Keeps cmd_disconnect a other = refl
  execute-Keeps cmd_hwinfo a other = refl

  -- A command changes no waveform but the one it is for: LOAD none but the first that is stopped, SET
  -- none but the first with the identifier in the packet's destination, the others none at all.
  pub nod_anode_dispatch_elsewhere :
      (a : Anode)
      → ¬ IsTarget a.packet.cmd a i
      → get_elem? (nod_anode_dispatch layout calloc unserialize load remove a).1.loaded_waveforms i
        ≡ get_elem? a.loaded_waveforms i
  unfolding nod_anode_dispatch
  nod_anode_dispatch_elsewhere a other = execute-Keeps a.packet.cmd a other
