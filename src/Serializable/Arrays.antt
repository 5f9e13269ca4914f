-- ===== src/Serializable/Arrays.antt =====
-- The loops of the serializers over arrays: what they write, and how they fill an array.
use aloe.Base.{
  ℕ, zero, suc, ◌+◌, ◌≤◌, ◌^◌, ◌≡◌, List, [], ◌∷◌, ◌++◌, map, length, replicate, All, arith, Call,
  lt→leb,
}
use aloe.Packet.{Packet}
use aloe.Packet.Inv.{max_size}
use aloe.Packet.Stream.{Writes, Reads, Writes->>, Writes-return, Reads->>=, Reads-return, Reads-map}
use aloe.Waveform.{rounds}
use aloe.Serializable.{for_each, map_each}

pub rounds_small : (n : ℕ) → n ≤ max_size → rounds n ≡ n
rounds_small n h = rw (lt→leb (2 ^ 31) n (omega arith))

-- One item after the other.
abbrev pub encode_all {ℓ} : {A : Type ℓ} → (A → List ℕ) → List A → List ℕ
encode_all encode [] = []
encode_all encode (x ∷ xs) = encode x ++ encode_all encode xs

-- `for_each` over the first elements of an array writes them one after the other.
pub Writes-for_each :
    {A : Type 0} (body : A → Call Packet (Unit {0})) (B : Type 0) (item : B → A)
    (encode : B → List ℕ) (xs : List B) (spare : List A)
    → All (λ x. Writes (body (item x)) (encode x)) xs
    → Writes (for_each body (length xs) (map item xs ++ spare)) (encode_all encode xs)
unfolding for_each
Writes-for_each body B item encode [] spare w = Writes-return
Writes-for_each body B item encode (x ∷ xs) spare w =
    Writes->> w.0 (Writes-for_each body B item encode xs spare w.1)

-- How an array is filled from a packet: the first `n` elements `xs` become what `body` reads.
pub data Filled {A : Type 0} (body : A → Call Packet A)
    : ℕ → List A → List ℕ → List A → Type 0 where
  stop : {xs : List A} → Filled body zero xs [] xs
  more :
      {n : ℕ} {x y : A} {xs ys : List A} {bs cs : List ℕ}
      → Reads (body x) bs y
      → Filled body n xs cs ys
      → Filled body (suc n) (x ∷ xs) (bs ++ cs) (y ∷ ys)

pub Reads-map_each :
    {A : Type 0} {body : A → Call Packet A} {n : ℕ} {xs ys : List A} {bs : List ℕ}
    → Filled body n xs bs ys
    → Reads (map_each body n xs) bs ys
unfolding map_each
Reads-map_each (stop {xs}) = Reads-return xs
Reads-map_each {body = body} (more {y = y} r f) =
    Reads->>= _ r (Reads-map (λ ys. y ∷ ys) (Reads-map_each f))

-- Elements that all read their items in the same way, behind which `spare` more stay.
pub Filled-replicate :
    {A : Type 0} (body : A → Call Packet A) (B : Type 0) (encode : B → List ℕ) (result : B → A)
    (blank : A) (items : List B) (total spare : ℕ)
    → total ≡ length items + spare
    → All (λ b. Reads (body blank) (encode b) (result b)) items
    → Filled body
        (length items)
        (replicate total blank)
        (encode_all encode items)
        (map result items ++ replicate spare blank)
Filled-replicate body B encode result blank [] total spare e r =
    let e' : total ≡ spare = omega arith in rw e' stop
Filled-replicate body B encode result blank (b ∷ items) zero spare e r = absurd (omega arith)
Filled-replicate body B encode result blank (b ∷ items) (suc total) spare e r =
    more r.0 (Filled-replicate body B encode result blank items total spare (omega arith) r.1)

-- Every item of a list, one by one.
pub All-map {ℓ κ μ} :
    {A : Type ℓ} (P : A → Type κ) (Q : A → Type μ)
    → ((a : A) → P a → Q a)
    → (xs : List A) → All P xs
    → All Q xs
All-map P Q f [] h = tt
All-map P Q f (x ∷ xs) h = (f x h.0, All-map P Q f xs h.1)
