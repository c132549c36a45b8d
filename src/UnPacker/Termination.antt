-- ===== src/UnPacker/Termination.antt =====
-- `Get` returns: with keys of one byte each, no loop of `FindKey` wraps round its bound, and every round
-- of a mode moves on.
use nebula_toolkit.Prelude.{
  ℕ, zero, suc, ◌+◌, ◌-◌, ◌≤◌, ◌<◌, ◌≡◌, ◌≢◌, ◌∙◌, ◌⊎◌, refl, inl, inr, Bool, true, false, Option,
  none, some, List, [], ◌∷◌, Bytes, ◌++◌, take, drop, length, arith, ltb, ◌==◌, if◌then◌else◌,
  ◌>>=◌, Bool-cases, add_size, sub_size, mod-below_double,
}
use nebula_toolkit.RingBuffer.Contents.{IsValid, contents}
use nebula_toolkit.RingBuffer.Linear.{commit_read-Holds}
use nebula_toolkit.RingBuffer.Reading.{consumed}
use nebula_toolkit.RingBuffer.{RingBuffer, capacity}
use nebula_toolkit.UnPacker.Packets.{copy_packet_lem}
use nebula_toolkit.UnPacker.Search.{
  occurs, first_at-bounds, part1_size, places, either_place, find_key_lem,
}
use nebula_toolkit.UnPacker.{
  UnPacker, Progress, UnpackerModel, find_key, copy_packet, deliver, head_only_round,
  head_tail_round, loop, process, run_mode, get_pack, get, k_none, head_only, head_tail,
  head_tail_cb,
}

-- not found, or a place of a readable byte from `start` on
abbrev Lands : RingBuffer → ℕ → ℕ → Type 0
Lands r start o = (o ≡ capacity r) ⊎ ((start ≤ o) × (o < r.len))

either-Lands :
    (r : RingBuffer) (start : ℕ) (a b : Option ℕ)
    → ((i : ℕ) → a ≡ some i → (start ≤ i) × (i < r.len))
    → ((i : ℕ) → b ≡ some i → (start ≤ i) × (i < r.len))
    → Lands r start (either_place a b (capacity r))
either-Lands r start (some i) b h k = inr (h i refl)
either-Lands r start none (some i) h k = inr (k i refl)
either-Lands r start none none h k = inl refl

landed :
    (r : RingBuffer) (start o : ℕ)
    → Lands r start o
    → (o == capacity r) ≡ false
    → (start ≤ o) × (o < r.len)
landed r start o (inl e) other = ground arith
landed r start o (inr b) other = b

-- A key of one byte is always looked for to the end.
find_key-Lands :
    (fuel : ℕ) (r : RingBuffer) (key : Bytes) (start : ℕ)
    → IsValid r
    → length key ≡ 1
    → capacity r < fuel
    → (o : ℕ) × (find_key fuel r key start ≡ some o) × Lands r start o
find_key-Lands fuel r key start v one enough = elim (Bool-cases (ltb start r.len)) [
  | inr behind ↦ (capacity r, unfold find_key in ground arith, inl refl)
  | inl inside ↦
      let turn = mod-below_double (r.read_index + start) (capacity r) in
      let part = part1_size r start in
      let some_part : 1 ≤ part = ground (arith, turn) in
      let (a, b) = places r key start in
      (
        either_place a b (capacity r),
        find_key_lem fuel r key start v (omega arith) (ground arith) enough (omega arith),
        either-Lands r start a b
            (λ i e.
              let k =
                first_at-bounds (part + 1 - length key) (λ j. occurs (contents r) j key) start i
                  e in
              ground arith)
            (λ i e.
              let k =
                first_at-bounds (r.len - start - part + 1 - length key)
                  (λ j. occurs (contents r) j key) (start + part) i e in
              ground arith),
      )
]

-- A round that ends the loop, or goes on at a later position with `P`.
data Advances (P : Progress → Type 0) (pos : ℕ) : Option (Option Progress) → Type 0 where
  stops : Advances P pos (some none)
  moves : {s : Progress} → P s → pos < s.current_pos → Advances P pos (some (some s))

unless-Advances :
    (P : Progress → Type 0) (pos : ℕ) (b : Bool) (m : Option (Option Progress))
    → (b ≡ false → Advances P pos m)
    → Advances P pos (if b then some none else m)
unless-Advances P pos true m h = stops
unless-Advances P pos false m h = h refl

step_ends :
    (P : Progress → Type 0) (b : Bool) {m : Option (Option Progress)} (s : Progress)
    (rest : Progress → Option Progress)
    → Advances P s.current_pos m
    → ((t : Progress) → P t → s.current_pos < t.current_pos → (s' : Progress) × (rest t ≡ some s'))
    → (s' : Progress) × ((elim b [
      | false ↦ some s
      | true ↦ elim m [ none ↦ none | some none ↦ some s | some (some t) ↦ rest t ]
    ])
        ≡ some s')
step_ends P false s rest a k = (s, refl)
step_ends P true s rest stops k = (s, refl)
step_ends P true s rest (moves {s = t} p q) k = k t p q

-- A loop whose rounds advance ends within as many rounds as there are positions, and one.
loop_ends :
    (P : Progress → Type 0) (round : Progress → Option (Option Progress)) (total : ℕ)
    → ((s : Progress) → P s → Advances P s.current_pos (round s))
    → (n : ℕ) (s : Progress) → P s
    → total ≤ n + s.current_pos
    → (s' : Progress) × (loop round (suc n) total s ≡ some s')
unfolding loop
loop_ends P round total adv zero s p q = (s, ground arith)
loop_ends P round total adv (suc n) s p q =
    step_ends P (ltb s.current_pos total) s (loop round (suc n) total) (adv s p)
      λ t h further. loop_ends P round total adv n t h (omega arith)

-- The rounds keep the buffer in order, and its capacity.
abbrev Fine : ℕ → Progress → Type 0
Fine cap s = IsValid s.ring × (capacity s.ring ≡ cap)

deliver-Advances :
    (s : Progress) (cap pos size : ℕ) (packet : Bytes)
    → Fine cap s
    → size ≤ s.ring.len
    → s.current_pos < pos
    → Advances (Fine cap) s.current_pos (deliver s packet pos size)
deliver-Advances s cap pos size packet (v, same) fits further =
    let (runs, h) = commit_read-Holds size v fits in
    rw runs (
      moves
        {s = record {
          ring = consumed s.ring size;
          current_pos = pos;
          packs = s.packs ++ packet ∷ [];
        }}
        (h.valid, h.same_capacity ∙ same) further)

module _ (fuel : ℕ) (u : UnPacker) (s : Progress) (cap : ℕ) (f : Fine cap s)
    (enough : cap < fuel) where
  -- the packet from the place of the head key to a later place
  packet-Advances :
      (h end : ℕ)
      → s.current_pos ≤ h
      → h < s.ring.len
      → h < end
      → end ≤ s.ring.len
      → Advances
          (Fine cap)
          s.current_pos
          (do packet ← copy_packet s.ring h (sub_size end h); deliver s packet end (sub_size end h))
  packet-Advances h end p q r e =
      let v = f.0 in
      let size : sub_size end h ≡ end - h = omega arith in
      rw (size, copy_packet_lem s.ring h (end - h) f.0 q (omega arith))
        (deliver-Advances s cap end (end - h) (take (end - h) (drop h (contents s.ring))) f
          (omega arith) (omega arith))

  -- a search that ends the round where it finds nothing
  find-Advances :
      (key : Bytes) (start : ℕ) (k : ℕ → Option (Option Progress))
      → length key ≡ 1
      → ((o : ℕ) → start ≤ o → o < s.ring.len → Advances (Fine cap) s.current_pos (k o))
      → Advances
          (Fine cap)
          s.current_pos
          (do o ← find_key fuel s.ring key start; if o == capacity s.ring then some none else k o)
  find-Advances key start k one goes_on =
      let (o, found, lands) = find_key-Lands fuel s.ring key start f.0 one (omega (arith, f.1)) in
      rw found (
        unless-Advances (Fine cap) s.current_pos (o == capacity s.ring) (k o)
          λ other. let b = landed s.ring start o lands other in goes_on o b.0 b.1)

  head_tail-Advances :
      length u.head_key ≡ 1
      → length u.tail_key ≡ 1
      → Advances (Fine cap) s.current_pos (head_tail_round fuel u s)
  unfolding head_tail_round
  head_tail-Advances one one' = find-Advances u.head_key s.current_pos _ one λ h p q.
      find-Advances u.tail_key (add_size h (length u.head_key)) _ one' λ t p' q'.
        let v = f.0 in
        packet-Advances h (add_size t (length u.tail_key)) p q (omega arith) (omega arith)

  head_only-Advances :
      length u.head_key ≡ 1 → Advances (Fine cap) s.current_pos (head_only_round fuel u s)
  unfolding head_only_round
  head_only-Advances one = find-Advances u.head_key s.current_pos _ one λ h p q.
      find-Advances u.head_key (add_size h (length u.head_key)) _ one λ n p' q'.
        let v = f.0 in
        let at : add_size h (sub_size n h) ≡ n = omega arith in
        rw at (packet-Advances h n p q (omega arith) (omega arith))

process_ends :
    (round : Progress → Option (Option Progress)) (n : ℕ) (u : UnPacker)
    → IsValid u.ring
    → ((s : Progress)
        → Fine (capacity u.ring) s
        → Advances (Fine (capacity u.ring)) s.current_pos (round s))
    → (code : ℕ) × (packs : List Bytes) × (u' : UnPacker) × (process round
          (suc (capacity u.ring + n))
          u
          []
        ≡ some (code, packs, u'))
process_ends round n u v adv =
    let start : Progress = record { ring = u.ring; current_pos = 0; packs = [] } in
    let (s, ends) =
      loop_ends (Fine (capacity u.ring)) round u.ring.len adv (capacity u.ring + n) start (v, refl)
        (omega arith) in
    (0, s.packs, record u { ring = s.ring }, rw ends)

-- With keys of one byte, and in any mode but the one with callbacks, `Get` on a valid buffer returns: a
-- scan has fuel enough with one step more than the capacity, the mode's loop with one round more.
pub get_returns :
    (fuel n : ℕ) (u : UnPacker)
    → IsValid u.ring
    → length u.head_key ≡ 1
    → (u.model ≡ head_tail → length u.tail_key ≡ 1)
    → u.model ≢ head_tail_cb
    → capacity u.ring < fuel
    → (code : ℕ) × (packs : List Bytes) × (u' : UnPacker) × (get fuel (suc (capacity u.ring + n)) u
        ≡ some (code, packs, u'))
unfolding get get_pack run_mode
get_returns fuel n u v one one' plain enough = by_mode u.model refl
  where
    by_mode :
        (m : UnpackerModel)
        → u.model ≡ m
        → (code : ℕ) × (packs : List Bytes) × (u' : UnPacker) × (run_mode fuel
              (suc (capacity u.ring + n))
              m
              u.data_sz_cb
              u
              []
            ≡ some (code, packs, u'))
    by_mode k_none e = (_, _, _, refl)
    by_mode head_only e =
        process_ends (head_only_round fuel u) n u v
          λ s f. head_only-Advances fuel u s (capacity u.ring) f enough one
    by_mode head_tail e =
        process_ends (head_tail_round fuel u) n u v
          λ s f. head_tail-Advances fuel u s (capacity u.ring) f enough one (one' e)
    by_mode head_tail_cb e = absurd (plain e)
