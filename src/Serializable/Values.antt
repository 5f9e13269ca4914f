-- ===== src/Serializable/Values.antt =====
-- What `variable_serialize` puts into a packet and `variable_unserialize_to` makes of it.
use mathlib.Core.Path.{subst}
use aloe.Base.{
  ℕ, ◌+◌, ◌≤◌, ◌<◌, ◌≡◌, ◌∙◌, Bool, true, Option, some, List, [], ◌∷◌, ◌++◌, length,
  get_elem?-set_ne, set, All, arith, word_mod, bytes_of_int,
}
use aloe.Packet.{packet_get_data}
use aloe.Packet.Inv.{max_size}
use aloe.Packet.Stream.{
  Writes, Reads, Writes-add_int, Writes->>, Writes-return, Reads-get_int, Reads->>=, Reads-return,
  Reads-map, Writes-add_sized, Reads-get_sized,
}
use aloe.Waveform.{Variable, rounds, str_len, modes_max}
use aloe.Waveform.Alloc.{PointsTo, HasRoom, store, blanks, variable_alloc_lem, HasRoom-store-blanks}
use aloe.Serializable.{cp_init, add_values, get_values, variable_serialize, variable_unserialize_to}

-- One after the other.
abbrev pub concat : List (List ℕ) → List ℕ
concat [] = []
concat (b ∷ bs) = b ++ concat bs

-- Blocks that are all `size` bytes long, and fit a packet.
abbrev pub AreBlocks : ℕ → List (List ℕ) → Type 0
AreBlocks size = All (λ b. length b ≡ size)

pub Writes-add_values :
    (vs : List (List ℕ)) (i size : ℕ) (ptrs : List (Option (List ℕ)))
    → size ≤ max_size
    → AreBlocks size vs
    → PointsTo ptrs i vs
    → Writes (add_values (length vs) i ptrs size) (concat vs)
unfolding add_values
Writes-add_values [] i size ptrs small blocks points = Writes-return
Writes-add_values (v ∷ vs) i size ptrs small blocks points =
    rw (points.0, add_values)
      (Writes->> (Writes-add_sized v size blocks.0 small)
        (Writes-add_values vs (i + 1) size ptrs small blocks.1 points.1))

pub Reads-get_values :
    (vs : List (List ℕ)) (i size : ℕ) (ptrs : List (Option (List ℕ)))
    → 0 < size
    → AreBlocks size vs
    → HasRoom ptrs i size (length vs)
    → Reads (get_values (length vs) i ptrs size) (concat vs) (store ptrs i vs)
unfolding get_values
Reads-get_values [] i size ptrs pos blocks has_room = Reads-return ptrs
Reads-get_values (v ∷ vs) i size ptrs pos blocks has_room =
    let (b, e, l) = has_room i (omega arith) (omega arith) in
    let first : Reads (packet_get_data (some (length b)) size) v v =
      Reads-get_sized v (length b) size blocks.0 pos (omega arith) in
    let room : HasRoom (set ptrs i (some v)) (i + 1) size (length vs) = λ j p q.
      let (c, e', l') = has_room j (omega arith) (omega arith) in
      (c, get_elem?-set_ne ptrs i j (some v) (omega arith) ∙ e', l') in
    rw (e, get_values)
      (Reads->>= _ first (Reads-get_values vs (i + 1) size (set ptrs i (some v)) pos blocks.1 room))

-- A variable as the manager holds it: `vs` are its initial values, one for each mode.
pub record IsSendable (src : Variable) (vs : List (List ℕ)) (nof_modes : ℕ) : Type 0 where
  pub id_word : src.id < word_mod
  pub type_word : src.type < word_mod
  pub size_pos : 0 < src.size
  pub size_small : src.size ≤ max_size
  pub name_full : length src.name ≡ str_len
  pub modes_few : rounds nof_modes ≤ modes_max
  pub one_each : length vs ≡ rounds nof_modes
  pub blocks : AreBlocks src.size vs
  pub points : PointsTo src.init_value 0 vs

abbrev pub encode_variable : Variable → List (List ℕ) → List ℕ
encode_variable src vs =
    bytes_of_int src.id
    ++ (bytes_of_int src.size ++ (bytes_of_int src.type ++ (src.name ++ concat vs)))

-- What `variable_unserialize_to` makes of `dest`.
abbrev pub receive_variable : Variable → Variable → List (List ℕ) → ℕ → Variable
receive_variable dest src vs nof_modes = record dest {
  id = src.id;
  size = src.size;
  type = src.type;
  nof_modes = nof_modes;
  name = src.name;
  init_value = store (store dest.init_value 0 (blanks (rounds nof_modes) src.size)) 0 vs;
}

-- `variable_serialize` appends the three numbers, the name and the initial values, as long as the
-- packet has room for all of them, and fails otherwise.
pub variable_serialize-Writes :
    (src : Variable) (vs : List (List ℕ)) (nof_modes : ℕ)
    → IsSendable src vs nof_modes
    → Writes (variable_serialize src cp_init nof_modes) (encode_variable src vs)
unfolding variable_serialize
variable_serialize-Writes src vs nof_modes s = Writes->> (Writes-add_int src.id) (
    Writes->> (Writes-add_int src.size) (
      Writes->> (Writes-add_int src.type)
        (Writes->> (Writes-add_sized src.name str_len s.name_full (omega arith)) values)))
  where
    values : Writes (add_values (rounds nof_modes) 0 src.init_value src.size) (concat vs)
    values =
        subst (λ (n : ℕ). Writes (add_values n 0 src.init_value src.size) (concat vs)) s.one_each
          (Writes-add_values vs 0 src.size src.init_value s.size_small s.blocks s.points)

module _ (calloc : ℕ → ℕ → Bool) (memory : (n size : ℕ) → calloc n size ≡ true) where
  -- A null variable, or any with its array of pointers, takes on what the packet holds.
  pub variable_unserialize_to-Reads :
      (dest src : Variable) (vs : List (List ℕ)) (nof_modes : ℕ)
      → length dest.init_value ≡ modes_max
      → IsSendable src vs nof_modes
      → Reads
          (variable_unserialize_to calloc dest cp_init nof_modes)
          (encode_variable src vs)
          (receive_variable dest src vs nof_modes)
  unfolding variable_unserialize_to
  variable_unserialize_to-Reads dest src vs nof_modes full s =
      Reads->>= _ (Reads-get_int src.id s.id_word) (
        Reads->>= _ (Reads-get_int src.size (omega (arith, s.size_small))) (
          Reads->>= _ (Reads-get_int src.type s.type_word) (
            rw (variable_alloc_lem calloc memory nof_modes start (omega (arith, s.modes_few, full)))
              (Reads->>= _
                (Reads-get_sized src.name str_len str_len s.name_full (omega arith) (omega arith))
                (Reads-map
                  (λ values. record (receive_variable dest src vs nof_modes) {
                    init_value = values;
                  })
                  values)))))
    where
      start : Variable
      start = record dest { id = src.id; size = src.size; type = src.type; nof_modes = nof_modes }

      made : List (Option (List ℕ))
      made = store dest.init_value 0 (blanks (rounds nof_modes) src.size)

      values : Reads (get_values (rounds nof_modes) 0 made src.size) (concat vs) (store made 0 vs)
      values =
          subst (λ (n : ℕ). Reads (get_values n 0 made src.size) (concat vs) (store made 0 vs))
            s.one_each
            (Reads-get_values vs 0 src.size made s.size_pos s.blocks (
              rw s.one_each (
                HasRoom-store-blanks dest.init_value 0 src.size (rounds nof_modes)
                  (omega (arith, s.modes_few, full)))))
