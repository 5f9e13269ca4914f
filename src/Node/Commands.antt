-- ===== src/Node/Commands.antt =====
-- A change of status as it travels: written by `waveform_serialize` on the manager's side, read by
-- `nod_waveform_unserializeTo` on the node's.
use mathlib.Core.Path.{subst}
use aloe.Base.{
  ℕ, ◌+◌, ◌≡◌, ◌≤◌, ◌∙◌, ap, refl, sym, Bool, List, [], ◌++◌, length, drop, arith, bytes_of_int, ok,
  err, fault, Outcome, Call, ◌>>=◌, proceed, length-append, append-nil, drop-append_le,
  append_assoc,
}
use aloe.Packet.{Packet}
use aloe.Packet.Inv.{IsValid, Appended, written, unread, length-written}
use aloe.Packet.Stream.{
  Writes, Writes->>, Writes-add_int, Writes-add_sized, Reads-get_int, Reads-get_sized, get_int,
}
use aloe.Waveform.{Layout, Waveform}
use aloe.Serializable.{waveform_status, cp_init, get_bytes}
use aloe.Serializable.Wave.{waveform_serialize}
use aloe.Node.{NodWaveform, Handling, on_pkt}
use aloe.Node.Modes.{nod_waveform_unserialize_to, get_status}

-- A packet with nothing left to read holds just what is appended to it.
unread-Appended :
    {p q : Packet} {bs : List ℕ} → IsValid p → unread p ≡ [] → Appended p bs q → unread q ≡ bs ++ []
unread-Appended {p} {q} {bs} v empty s =
    ap (drop q.r_ptr) s.stored
    ∙ ap (λ i. drop i (written p ++ bs)) s.kept
    ∙ drop-append_le p.r_ptr (written p) bs (omega (arith, length-written p v, v.read_in))
    ∙ ap (λ l. l ++ bs) empty
    ∙ sym (append-nil bs)

-- A read of the packet, within the handling of a command.
on_pkt_ok :
    {A B : Type 0} (c : Call Packet A) (f : A → Call Handling B) (h : Handling) {a : A}
    {p' : Packet}
    → c h.pkt ≡ (ok a, p')
    → (on_pkt c >>= f) h ≡ f a (record h { pkt = p' })
on_pkt_ok c f h e = ap (λ (r : Outcome _ × Packet). proceed f (r.0, record h { pkt = r.1 })) e

-- What a node's waveform is after a change of status, by what `nod_waveform_status_new` returned.
abbrev pub after_status :
    Call NodWaveform (Unit {0})
    → Outcome (Unit {0}) × NodWaveform
    → Outcome (Unit {0}) × NodWaveform
after_status stop (ok u, w) = (ok tt, w)
after_status stop (err, w) = (err, (stop w).1)
after_status stop (fault, w) = (fault, w)

status-Writes :
    (layout : Layout) (src : Waveform) (node_id : ℕ)
    → length src.status ≡ 8
    → Writes
        (waveform_serialize layout src node_id waveform_status cp_init)
        (bytes_of_int 1 ++ src.status)
unfolding waveform_serialize
status-Writes layout src node_id e =
    Writes->> (Writes-add_int 1) (Writes-add_sized src.status 8 e (omega arith))

module _ (layout : Layout) (calloc : ℕ → ℕ → Bool) (module_size oesr_size : ℕ) (context_init : Bool)
    (ts_len_ns : ℕ) (status_new : List ℕ → Call NodWaveform (Unit {0}))
    (status_stop : Call NodWaveform (Unit {0})) where
  abbrev pub handle : Call Handling (Unit {0})
  handle =
      nod_waveform_unserialize_to layout calloc module_size oesr_size context_init ts_len_ns
        status_new status_stop

  -- The last step of `get_status`.
  abbrev finish : Packet → Outcome (Unit {0}) → NodWaveform → Outcome (Unit {0}) × Handling
  finish p o w = elim o [
    | ok _ ↦ (ok tt, record { pkt = p; dest = w })
    | err ↦ (err, record { pkt = p; dest = (status_stop w).1 })
    | fault ↦ (fault, record { pkt = p; dest = w })
  ]

  -- What is left of the command: its result, the waveform, and a packet that is read.
  pub record IsHandled (x : Outcome (Unit {0}) × NodWaveform) (r : Outcome (Unit {0}) × Handling)
      : Type 0 where
    pub same_result : r.0 ≡ x.0
    pub same_waveform : (r.1).dest ≡ x.1
    pub all_read : unread (r.1).pkt ≡ []

  finish-IsHandled :
      (p : Packet) (o : Outcome (Unit {0})) (w : NodWaveform)
      → unread p ≡ []
      → IsHandled (after_status status_stop (o, w)) (finish p o w)
  finish-IsHandled p (ok u) w e = record { same_result = refl; same_waveform = refl; all_read = e }
  finish-IsHandled p err w e = record { same_result = refl; same_waveform = refl; all_read = e }
  finish-IsHandled p fault w e = record { same_result = refl; same_waveform = refl; all_read = e }

  status_read :
      (h : Handling) (status : List ℕ)
      → length status ≡ 8
      → IsValid h.pkt
      → unread h.pkt ≡ (bytes_of_int 1 ++ status) ++ []
      → IsHandled (after_status status_stop (status_new status h.dest)) (handle h)
  unfolding nod_waveform_unserialize_to get_status
  status_read h status e v u =
      let (p, e₁, c₁) =
        (Reads-get_int 1 (omega arith)).run h.pkt (status ++ []) v
          (u ∙ append_assoc (bytes_of_int 1) status []) in
      let (q, e₂, c₂) =
        (Reads-get_sized status 8 8 e (omega arith) (omega arith)).run p [] c₁.valid c₁.left in
      subst (IsHandled (after_status status_stop (status_new status h.dest)))
        (sym (on_pkt_ok get_int _ h e₁ ∙ on_pkt_ok (get_bytes 8) _ (record h { pkt = p }) e₂))
        (finish-IsHandled q (status_new status h.dest).0 (status_new status h.dest).1 c₂.left)

  -- When the manager has written a change of status into a packet with nothing left to read and room
  -- for it, the node that reads the packet hands the same status to `nod_waveform_status_new`,
  -- returns what that returned, and stops the waveform if it failed.
  pub nod_waveform_unserialize_to-waveform_serialize :
      (src : Waveform) (node_id : ℕ) (p : Packet) (w : NodWaveform)
      → length src.status ≡ 8
      → IsValid p
      → unread p ≡ []
      → p.w_ptr + 12 ≤ p.size
      → IsHandled (after_status status_stop (status_new src.status w)) (
          handle (record {
            pkt = (waveform_serialize layout src node_id waveform_status cp_init p).1;
            dest = w;
          }))
  unfolding bytes_of_int
  nod_waveform_unserialize_to-waveform_serialize src node_id p w e v empty room =
      let (q, written_to, s) =
        (status-Writes layout src node_id e).fits p v
          (omega (arith, length-append (bytes_of_int 1) src.status)) in
      subst
        (λ (r : Outcome (Unit {0}) × Packet).
          IsHandled (after_status status_stop (status_new src.status w))
            (handle (record { pkt = r.1; dest = w })))
        (sym written_to)
        (status_read (record { pkt = q; dest = w }) src.status e s.valid
          (unread-Appended v empty s))
