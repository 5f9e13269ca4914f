-- ===== src/Packet/Stream.antt =====
-- Sequences of packet operations, as the serializers make them: what one writes, what one reads,
-- and that these compose.
use mathlib.Core.Path.{subst}
use aloe.Base.{
  ℕ, ◌+◌, ◌≤◌, ◌<◌, ◌≡◌, ◌∙◌, ap, sym, List, [], ◌++◌, some, length, take, drop, arith, refl,
  Outcome, ok, err, Call, >>=_ok, >>=_err, ◌>>=◌, ◌>>◌, return, length-append, append_assoc,
  append-nil, take-append_left, drop-append_left, drop-append_le, drop-drop, length-drop, dec_le,
  inl, inr, ◌⊎◌, bytes_of_int, int_of_bytes, int_of_bytes-bytes_of_int, word_mod,
}
use aloe.Packet.{Packet, packet_add_data, packet_get_data}
use aloe.Packet.Inv.{
  IsValid, Appended, written, unread, max_size, length-written, packet_add_data-fits,
  packet_add_data-full, packet_get_data-some, packet_get_data-short, extend, extend-Appended,
}

-- `m` appends `bs` where there is room for all of it, and returns -1 where there is not.
pub record Writes (m : Call Packet (Unit {0})) (bs : List ℕ) : Type 0 where
  pub fits :
      (p : Packet)
      → IsValid p
      → p.w_ptr + length bs ≤ p.size
      → (p' : Packet) × (m p ≡ (ok tt, p')) × Appended p bs p'
  pub full : (p : Packet) → IsValid p → p.size < p.w_ptr + length bs → (m p).0 ≡ err

-- `p'` is `p` with `rest` left to read.
pub record Consumed (p : Packet) (rest : List ℕ) (p' : Packet) : Type 0 where
  pub valid : IsValid p'
  pub same_size : p'.size ≡ p.size
  pub same_writes : p'.w_ptr ≡ p.w_ptr
  pub left : unread p' ≡ rest

-- Where `bs` comes next, `m` reads it off and returns `a`.
pub record Reads {A : Type 0} (m : Call Packet A) (bs : List ℕ) (a : A) : Type 0 where
  pub run :
      (p : Packet) (rest : List ℕ)
      → IsValid p
      → unread p ≡ bs ++ rest
      → (p' : Packet) × (m p ≡ (ok a, p')) × Consumed p rest p'

pub Writes-return : Writes (return tt) []
Writes-return = record {
  fits = λ p v h. (
    p,
    refl,
    record {
      valid = v;
      same_size = refl;
      moved = omega arith;
      kept = refl;
      stored = sym (append-nil (written p));
    },
  );
  full = λ p v h. absurd (omega (arith, v.write_in));
}

pub Writes-add :
    (bs : List ℕ) → length bs ≤ max_size → Writes (packet_add_data (some bs) (length bs)) bs
Writes-add bs small = record {
  fits = λ p v h. (extend p bs, packet_add_data-fits bs p v h, extend-Appended bs p v h);
  full =
      λ p v h. ap (λ (r : Outcome (Unit {0}) × Packet). r.0) (packet_add_data-full bs p v small h);
}

Appended-trans :
    {p q r : Packet} {bs cs : List ℕ} → Appended p bs q → Appended q cs r → Appended p (bs ++ cs) r
Appended-trans {p} {q} {r} {bs} {cs} a b = record {
  valid = b.valid;
  same_size = b.same_size ∙ a.same_size;
  moved = omega (arith, a.moved, b.moved, length-append bs cs);
  kept = b.kept ∙ a.kept;
  stored = b.stored ∙ ap (λ l. l ++ cs) a.stored ∙ append_assoc (written p) bs cs;
}

pub Writes->> :
    {m k : Call Packet (Unit {0})} {bs cs : List ℕ}
    → Writes m bs
    → Writes k cs
    → Writes (m >> k) (bs ++ cs)
Writes->> {m} {k} {bs} {cs} w x = record { fits = both; full = short }
  where
    both :
        (p : Packet)
        → IsValid p
        → p.w_ptr + length (bs ++ cs) ≤ p.size
        → (p' : Packet) × ((m >> k) p ≡ (ok tt, p')) × Appended p (bs ++ cs) p'
    both p v h =
        let len = length-append bs cs in
        let (q, e, a) = w.fits p v (omega arith) in
        let (r, e', b) = x.fits q a.valid (omega (arith, a.moved, a.same_size)) in
        (r, >>=_ok m (λ _. k) p e e', Appended-trans a b)

    short : (p : Packet) → IsValid p → p.size < p.w_ptr + length (bs ++ cs) → ((m >> k) p).0 ≡ err
    short p v h = elim (dec_le (p.w_ptr + length bs) p.size) [
      | yes l ↦
          let (q, e, a) = w.fits p v l in
          ap (λ (o : Outcome (Unit {0}) × Packet). o.0) (>>=_ok m (λ _. k) p e refl)
          ∙ x.full q a.valid (omega (arith, a.moved, a.same_size, length-append bs cs))
      | no l ↦ >>=_err m (λ _. k) p (w.full p v (omega arith))
    ]

-- Reading.
pub Reads-return : {A : Type 0} (a : A) → Reads (return a) [] a
Reads-return a = record {
  run =
      λ p rest v e. (p, refl, record { valid = v; same_size = refl; same_writes = refl; left = e });
}

pub Reads->>= :
    {A B : Type 0} {m : Call Packet A} (f : A → Call Packet B) {bs cs : List ℕ} {a : A} {b : B}
    → Reads m bs a
    → Reads (f a) cs b
    → Reads (m >>= f) (bs ++ cs) b
Reads->>= {m = m} f {bs = bs} {cs = cs} x y = record {
  run = λ p rest v e.
      let (q, h, c) = x.run p (cs ++ rest) v (e ∙ append_assoc bs cs rest) in
      let (r, h', d) = y.run q rest c.valid c.left in
      (
        r,
        >>=_ok m f p h h',
        record {
          valid = d.valid;
          same_size = d.same_size ∙ c.same_size;
          same_writes = d.same_writes ∙ c.same_writes;
          left = d.left;
        },
      );
}

pub Reads-map :
    {A B : Type 0} {m : Call Packet A} (g : A → B) {bs : List ℕ} {a : A}
    → Reads m bs a
    → Reads (m >>= λ x. return (g x)) bs (g a)
Reads-map {m = m} g {bs = bs} {a = a} x =
    subst (λ l. Reads (m >>= λ y. return (g y)) l (g a)) (append-nil bs)
      (Reads->>= (λ y. return (g y)) x (Reads-return (g a)))

length-unread : (p : Packet) → IsValid p → length (unread p) + p.r_ptr ≡ p.w_ptr
length-unread p v = omega (arith, length-drop p.r_ptr (written p), length-written p v, v.read_in)

module _ (bs : List ℕ) (p : Packet) (rest : List ℕ) (v : IsValid p)
    (e : unread p ≡ bs ++ rest) where
  abbrev advance : Packet
  advance = record p { r_ptr = p.r_ptr + length bs }

  enough : p.r_ptr + length bs ≤ p.w_ptr
  enough = omega (arith, length-unread p v, ap (length {A = ℕ}) e, length-append bs rest)

  remaining : drop (p.r_ptr + length bs) (written p) ≡ rest
  remaining =
      sym (drop-drop (length bs) p.r_ptr (p.r_ptr + length bs) (written p) (omega arith))
      ∙ ap (drop (length bs)) e
      ∙ drop-append_left (length bs) bs rest refl

  advance-Consumed : Consumed p rest advance
  advance-Consumed = record {
    valid = record {
      allocated = v.allocated;
      storage = v.storage;
      small = v.small;
      write_in = v.write_in;
      read_in = enough;
    };
    same_size = refl;
    same_writes = refl;
    left = remaining;
  }

  get_next :
      (room : ℕ)
      → 0 < length bs
      → length bs ≤ room
      → packet_get_data (some room) (length bs) p ≡ (ok bs, advance)
  get_next room pos fits =
      packet_get_data-some room (length bs) p v pos fits enough
      ∙ ap (λ (l : List ℕ). (ok l, advance))
          (ap (take (length bs)) e ∙ take-append_left (length bs) bs rest refl)

pub Reads-get :
    (bs : List ℕ) (room : ℕ)
    → 0 < length bs
    → length bs ≤ room
    → Reads (packet_get_data (some room) (length bs)) bs bs
Reads-get bs room pos fits = record {
  run = λ p rest v e.
      (advance bs p rest v e, get_next bs p rest v e room pos fits, advance-Consumed bs p rest v e);
}

-- The same for an item whose size is given apart.
pub Writes-add_sized :
    (bs : List ℕ) (size : ℕ)
    → length bs ≡ size
    → size ≤ max_size
    → Writes (packet_add_data (some bs) size) bs
Writes-add_sized bs size e small =
    subst (λ (n : ℕ). Writes (packet_add_data (some bs) n) bs) e (Writes-add bs (omega arith))

pub Reads-get_sized :
    (bs : List ℕ) (room size : ℕ)
    → length bs ≡ size
    → 0 < size
    → size ≤ room
    → Reads (packet_get_data (some room) size) bs bs
Reads-get_sized bs room size e pos fits =
    subst (λ (n : ℕ). Reads (packet_get_data (some room) n) bs bs) e
      (Reads-get bs room (omega arith) (omega arith))

-- The macros `add_i` and `get_i`: the four bytes of an `int`.
unfoldable pub add_int : ℕ → Call Packet (Unit {0})
add_int w = packet_add_data (some (bytes_of_int w)) 4

unfoldable pub get_int : Call Packet ℕ
get_int = packet_get_data (some 4) 4 >>= λ bs. return (int_of_bytes bs)

pub Writes-add_int : (w : ℕ) → Writes (add_int w) (bytes_of_int w)
unfolding add_int bytes_of_int
Writes-add_int w = Writes-add (bytes_of_int w) (omega arith)

pub Reads-get_int : (w : ℕ) → w < word_mod → Reads get_int (bytes_of_int w) w
unfolding get_int bytes_of_int
Reads-get_int w h =
    subst (Reads get_int (bytes_of_int w)) (int_of_bytes-bytes_of_int w h)
      (Reads-map int_of_bytes (Reads-get (bytes_of_int w) 4 (omega arith) (omega arith)))

-- A packet with nothing left to read, filled by `m` and then read by `k`: `k` returns what was
-- meant, and has read all of it.
pub Writes-Reads :
    {A : Type 0} {m : Call Packet (Unit {0})} {k : Call Packet A} {bs : List ℕ} {a : A}
    → Writes m bs
    → Reads k bs a
    → (p : Packet) → IsValid p
    → unread p ≡ []
    → p.w_ptr + length bs ≤ p.size
    → (((m >> k) p).0 ≡ ok a) × (unread ((m >> k) p).1 ≡ []) × IsValid ((m >> k) p).1
Writes-Reads {A} {m = m} {k = k} {bs = bs} {a = a} w r p v empty fits =
    let (q, e, s) = w.fits p v fits in
    let next : unread q ≡ bs ++ [] =
      ap (drop q.r_ptr) s.stored
      ∙ ap (λ i. drop i (written p ++ bs)) s.kept
      ∙ drop-append_le p.r_ptr (written p) bs (omega (arith, length-written p v, v.read_in))
      ∙ ap (λ l. l ++ bs) empty
      ∙ sym (append-nil bs) in
    let (t, e', c) = r.run q [] s.valid next in
    let done : (m >> k) p ≡ (ok a, t) = >>=_ok m (λ _. k) p e e' in
    (
      ap (λ (o : Outcome A × Packet). o.0) done,
      (subst (λ (o : Outcome A × Packet). (unread o.1 ≡ []) × IsValid o.1) (sym done)
          (c.left, c.valid)).0,
      (subst (λ (o : Outcome A × Packet). (unread o.1 ≡ []) × IsValid o.1) (sym done)
          (c.left, c.valid)).1,
    )

-- Reading `len` bytes from a valid packet, `0 < len`, succeeds exactly when that many are left to
-- read. It then returns the next `len` unread bytes, which are gone from the unread ones, and leaves
-- the written ones; otherwise it returns -1 and changes nothing.
pub packet_get_data_lem :
    (len room : ℕ) (p : Packet)
    → IsValid p
    → 0 < len
    → len ≤ room
    → len ≤ max_size
    → let r = packet_get_data (some room) len p in
      ((len ≤ length (unread p))
        × (r.0 ≡ ok (take len (unread p)))
        × Consumed p (drop len (unread p)) r.1
        × (written r.1 ≡ written p))
      ⊎ ((length (unread p) < len) × (r ≡ (err, p)))
packet_get_data_lem len room p v pos fits small = elim (dec_le len (length (unread p))) [
  | yes h ↦
      let some_left : p.r_ptr + len ≤ p.w_ptr = omega (arith, length-unread p v) in
      rw (packet_get_data-some room len p v pos fits some_left) (
        inl (
          h,
          refl,
          record {
            valid = record {
              allocated = v.allocated;
              storage = v.storage;
              small = v.small;
              write_in = v.write_in;
              read_in = some_left;
            };
            same_size = refl;
            same_writes = refl;
            left = sym (drop-drop len p.r_ptr (p.r_ptr + len) (written p) (omega arith));
          },
          refl,
        ))
  | no h ↦
      inr (omega arith, packet_get_data-short room len p v small (omega (arith, length-unread p v)))
]
