-- ===== src/Serializable/Wave/Send.antt =====
-- What `waveform_serialize` puts into a packet for a node: the header, the number of modules that
-- follow, and just the modules that are on that node, in order.
use mathlib.Core.Path.{subst}
use aloe.Base.{
  ℕ, ◌≤◌, ◌≡◌, ap, refl, Bool-cases, inl, inr, some, List, [], ◌∷◌, ◌++◌, map, length, All, arith,
  bytes_of_int, if◌then◌else◌, ◌==◌, append-nil,
}
use aloe.Packet.Inv.{max_size}
use aloe.Packet.Stream.{Writes, Writes-add_int, Writes->>, Writes-return, Writes-add_sized, add_int}
use aloe.Waveform.{Layout, Module, Waveform, rounds, str_len}
use aloe.Serializable.{
  cp_init, for_each, waveform_load, code_of_action, code_of_copy, waveform_mode_serialize,
  waveform_mode_size,
}
use aloe.Serializable.Arrays.{encode_all, Writes-for_each, All-map, rounds_small}
use aloe.Serializable.Modules.Wire.{Valued, IsSendableModule, encode_module}
use aloe.Serializable.Modules.Send.{module_serialize-Writes}
use aloe.Serializable.Wave.{count_on_node, add_count, add_if_on_node, waveform_serialize}

-- A module beside its variables and interfaces.
pub record Loaded : Type 0 where
  pub object : Module
  pub vars : List Valued
  pub ins : List (List ℕ)
  pub outs : List (List ℕ)

abbrev pub IsSendableLoaded : Layout → Loaded → Type 0
IsSendableLoaded layout x = IsSendableModule layout x.object x.vars x.ins x.outs

abbrev pub encode_loaded : Loaded → List ℕ
encode_loaded x = encode_module x.object x.vars x.ins x.outs

-- The modules that are on a node, in order.
abbrev pub modules_on : ℕ → List Loaded → List Loaded
modules_on node_id [] = []
modules_on node_id (x ∷ xs) =
    if node_id == x.object.node_id then x ∷ modules_on node_id xs else modules_on node_id xs

length-modules_on-le : (node_id : ℕ) (xs : List Loaded) → length (modules_on node_id xs) ≤ length xs
length-modules_on-le node_id [] = omega arith
length-modules_on-le node_id (x ∷ xs) = elim (Bool-cases (node_id == x.object.node_id)) [
  | inl here ↦ rw here (omega (arith, length-modules_on-le node_id xs))
  | inr away ↦ rw away (omega (arith, length-modules_on-le node_id xs))
]

-- The counting loop counts those.
pub count_on_node_lem :
    (node_id : ℕ) (xs : List Loaded)
    → count_on_node node_id (length xs) (map (λ x. x.object) xs)
      ≡ some (length (modules_on node_id xs))
unfolding count_on_node
count_on_node_lem node_id [] = refl
count_on_node_lem node_id (x ∷ xs) = elim (Bool-cases (node_id == x.object.node_id)) [
  | inl here ↦ rw (count_on_node_lem node_id xs, here, count_on_node) (ap some (omega arith))
  | inr away ↦ rw (count_on_node_lem node_id xs, away, count_on_node)
]

abbrev encode_if_on : ℕ → Loaded → List ℕ
encode_if_on node_id x = if node_id == x.object.node_id then encode_loaded x else []

encode_all-modules_on :
    (node_id : ℕ) (xs : List Loaded)
    → encode_all (encode_if_on node_id) xs ≡ encode_all encode_loaded (modules_on node_id xs)
encode_all-modules_on node_id [] = refl
encode_all-modules_on node_id (x ∷ xs) = elim (Bool-cases (node_id == x.object.node_id)) [
  | inl here ↦ rw (here, encode_all-modules_on node_id xs)
  | inr away ↦ rw (away, encode_all-modules_on node_id xs)
]

add_if_on_node-Writes :
    (layout : Layout) (node_id : ℕ) (x : Loaded)
    → IsSendableLoaded layout x
    → Writes (add_if_on_node layout node_id cp_init x.object) (encode_if_on node_id x)
unfolding add_if_on_node
add_if_on_node-Writes layout node_id x s = elim (Bool-cases (node_id == x.object.node_id)) [
  | inl here ↦ rw here (module_serialize-Writes layout x.object x.vars x.ins x.outs s)
  | inr away ↦ rw away Writes-return
]

-- A waveform as the manager holds it, with the modules `xs`.
pub record IsSendableWaveform (layout : Layout) (src : Waveform) (xs : List Loaded)
    (modes : List (List ℕ)) : Type 0 where
  pub modules_at : src.modules ≡ some (map (λ x. x.object) xs ++ [])
  pub modules_counted : src.nof_modules ≡ length xs
  pub spare_modes : List (List ℕ)
  pub modes_at : src.modes ≡ map (λ b. b) modes ++ spare_modes
  pub modes_counted : src.nof_modes ≡ length modes
  pub counts_small : (length xs ≤ max_size) × (length modes ≤ max_size)
  pub name_full : length src.name ≡ str_len
  pub modes_full : All (λ b. length b ≡ waveform_mode_size) modes
  pub modules_ok : All (IsSendableLoaded layout) xs

abbrev pub encode_waveform : Waveform → ℕ → List Loaded → List (List ℕ) → List ℕ
encode_waveform src node_id xs modes =
    bytes_of_int (code_of_action waveform_load)
    ++ (bytes_of_int (code_of_copy cp_init)
        ++ (bytes_of_int src.id
            ++ (bytes_of_int src.granularity_us
                ++ (bytes_of_int src.precach_pipeline
                    ++ (src.name
                        ++ (bytes_of_int (length modes)
                            ++ (encode_all (λ b. b) modes
                                ++ (bytes_of_int (length (modules_on node_id xs))
                                    ++ encode_all encode_loaded (modules_on node_id xs)))))))))

module _ (layout : Layout) (src : Waveform) (xs : List Loaded) (modes : List (List ℕ)) (node_id : ℕ)
    (s : IsSendableWaveform layout src xs modes) where
  modes-Writes :
      Writes
        (for_each waveform_mode_serialize (rounds src.nof_modes) src.modes)
        (encode_all (λ b. b) modes)
  unfolding waveform_mode_serialize
  modes-Writes =
      rw (s.modes_at, s.modes_counted, rounds_small (length modes) s.counts_small.1)
        (Writes-for_each waveform_mode_serialize (List ℕ) (λ b. b) (λ b. b) modes s.spare_modes
          (All-map (λ b. length b ≡ waveform_mode_size) (λ b. Writes (waveform_mode_serialize b) b)
            (λ b e. Writes-add_sized b waveform_mode_size e (omega arith)) modes s.modes_full))

  modules-Writes :
      Writes
        (for_each
          (add_if_on_node layout node_id cp_init)
          (length xs)
          (map (λ x. x.object) xs ++ []))
        (encode_all encode_loaded (modules_on node_id xs))
  modules-Writes =
      subst
        (Writes (
          for_each (add_if_on_node layout node_id cp_init) (length xs)
            (map (λ x. x.object) xs ++ [])))
        (encode_all-modules_on node_id xs)
        (Writes-for_each (add_if_on_node layout node_id cp_init) Loaded (λ x. x.object)
          (encode_if_on node_id) xs []
          (All-map (IsSendableLoaded layout)
            (λ x. Writes (add_if_on_node layout node_id cp_init x.object) (encode_if_on node_id x))
            (add_if_on_node-Writes layout node_id) xs s.modules_ok))

  count-Writes :
      Writes
        (add_count (count_on_node node_id (length xs) (map (λ x. x.object) xs ++ [])))
        (bytes_of_int (length (modules_on node_id xs)))
  unfolding add_count
  count-Writes =
      rw (append-nil (map (λ (x : Loaded). x.object) xs), count_on_node_lem node_id xs)
        (Writes-add_int (length (modules_on node_id xs)))

  -- To load a well-formed waveform on a node, `waveform_serialize` writes its header and modes, then
  -- how many modules are on that node, and then just those modules in order, if the packet has room
  -- for all of it; otherwise it returns -1.
  pub waveform_serialize-Writes :
      Writes
        (waveform_serialize layout src node_id waveform_load cp_init)
        (encode_waveform src node_id xs modes)
  unfolding waveform_serialize
  waveform_serialize-Writes = Writes->> (Writes-add_int 0) (
      Writes->> (Writes-add_int 2) (
        Writes->> (Writes-add_int src.id) (
          Writes->> (Writes-add_int src.granularity_us) (
            Writes->> (Writes-add_int src.precach_pipeline) (
              Writes->> (Writes-add_sized src.name str_len s.name_full (omega arith)) (
                Writes->> count_modes (
                  Writes->> modes-Writes (
                    rw (s.modules_at, s.modules_counted, rounds_small (length xs) s.counts_small.0)
                      (Writes->> count-Writes modules-Writes)))))))))
    where
      count_modes : Writes (add_int src.nof_modes) (bytes_of_int (length modes))
      count_modes = rw s.modes_counted (Writes-add_int (length modes))
