-- ===== src/UnPacker/EverySecond.antt =====
-- `ProcessHeadTailMode` on packets of one size, one behind the other.
use mathlib.Core.List.{append-nil, append_assoc}
use mathlib.Core.Path.{subst}
use nebula_toolkit.Prelude.{
  ℕ, zero, suc, ◌+◌, ◌-◌, ◌*◌, ◌≤◌, ◌<◌, ◌≡◌, ◌∙◌, refl, sym, ap, Option, some, List, [], ◌∷◌, ◌++◌,
  Bytes, length, drop, arith, ltb, Bool-cases, inl, inr, lt→ltb, ==_refl, length-append,
  length-drop, drop-drop, mod-below_double,
}
use nebula_toolkit.RingBuffer.Contents.{IsValid, contents, length-contents, Holds}
use nebula_toolkit.RingBuffer.Reading.{consumed, consumed-Holds}
use nebula_toolkit.RingBuffer.{RingBuffer, capacity}
use nebula_toolkit.UnPacker.Contiguous.{IsContiguous, IsPacket}
use nebula_toolkit.UnPacker.HeadTail.{find_key_behind}
use nebula_toolkit.UnPacker.Skipping.{Facing, Facing-len, one_round}
use nebula_toolkit.UnPacker.Streams.{drop-front}
use nebula_toolkit.UnPacker.{UnPacker, Progress, head_tail, head_tail_round, loop, get_pack, get}

-- packets one behind the other
abbrev pub joined : List Bytes → Bytes
joined [] = []
joined (p ∷ ps) = p ++ joined ps

-- the first, the third, and so on
abbrev pub every_second : List Bytes → List Bytes
every_second [] = []
every_second (p ∷ []) = p ∷ []
every_second (p ∷ q ∷ ps) = p ∷ every_second ps

-- All are packets of `size` bytes.
abbrev pub ArePackets : Bytes → Bytes → ℕ → List Bytes → Type 0
ArePackets head_key tail_key size [] = Unit {0}
ArePackets head_key tail_key size (p ∷ ps) =
    (length p ≡ size)
    × IsPacket head_key tail_key p (size - length tail_key)
    × ArePackets head_key tail_key size ps

module _ (fuel : ℕ) (u : UnPacker) where
  -- What the loop makes of `packets` in front of the search, from the buffer `r` and the packets delivered before.
  record Skips (size : ℕ) (r : RingBuffer) (packs packets : List Bytes) (m : Option Progress)
      : Type 0 where
    last : Progress
    runs : m ≡ some last
    delivered : last.packs ≡ packs ++ every_second packets
    left : Holds r last.ring (drop (length (every_second packets) * size) (contents r))

  stops :
      (n total_size : ℕ) (s : Progress)
      → s.ring.len ≤ s.current_pos
      → loop (head_tail_round fuel u) (suc n) total_size s ≡ some s
  unfolding loop head_tail_round
  stops n total_size s behind = elim (Bool-cases (ltb s.current_pos total_size)) [
    | inl more ↦ rw (
      loop,
      more,
      find_key_behind fuel s.ring u.head_key s.current_pos behind,
      ==_refl (capacity s.ring),
    )
    | inr done ↦ rw (loop, done)
  ]

  consumed-IsContiguous :
      (r : RingBuffer) (n : ℕ)
      → IsValid r
      → n ≤ r.len
      → IsContiguous r
      → IsContiguous (consumed r n)
  consumed-IsContiguous r n v inside flat =
      ground (arith, v, mod-below_double (r.read_index + n) (capacity r))

  round_then :
      {r : RingBuffer} {a p b : Bytes} (n total_size pos : ℕ) (packs : List Bytes)
      (f : Facing fuel u r a p b)
      → pos ≡ length a
      → r.len ≤ total_size
      → loop
          (head_tail_round fuel u)
          (suc n)
          total_size
          (record { ring = r; current_pos = pos; packs = packs })
        ≡ loop (head_tail_round fuel u) n total_size (record {
          ring = consumed r (length p);
          current_pos = pos + length p;
          packs = packs ++ p ∷ [];
        })
  unfolding loop
  round_then {r} {a} {p} {b} n total_size pos packs f e within =
      let q = f.packet in
      let more : pos < total_size = omega (arith, Facing-len fuel u f, q.tail_fits, q.tail_pos) in
      let goes =
        subst
          (λ x.
            head_tail_round fuel u (record { ring = r; current_pos = x; packs = packs })
            ≡ some (
                some (record {
                  ring = consumed r (length p);
                  current_pos = x + length p;
                  packs = packs ++ p ∷ [];
                })))
          (sym e) (one_round fuel u packs f) in
      rw (loop, lt→ltb pos total_size more, goes) refl

  loop-Skips :
      (packets : List Bytes) (n size total_size pos : ℕ) (r : RingBuffer) (a : Bytes)
      (packs : List Bytes)
      → IsValid r
      → IsContiguous r
      → capacity r < fuel
      → contents r ≡ a ++ joined packets
      → ArePackets u.head_key u.tail_key size packets
      → pos ≡ length a
      → r.len ≤ total_size
      → length packets < n
      → Skips size r packs packets (
          loop
            (head_tail_round fuel u)
            n
            total_size
            (record { ring = r; current_pos = pos; packs = packs }))
  loop-Skips packets zero size total_size pos r a packs v flat enough holds ok e within fuel_left =
      absurd (omega arith)
  loop-Skips [] (suc n) size total_size pos r a packs v flat enough holds ok e within fuel_left =
      let no_bytes : 0 * size ≡ 0 = omega arith in
      record {
        last = record { ring = r; current_pos = pos; packs = packs };
        runs =
            stops n total_size (record { ring = r; current_pos = pos; packs = packs })
              (omega (arith, length-contents r, ap length holds, length-append a []));
        delivered = sym (append-nil packs);
        left = rw no_bytes (record { valid = v; same_capacity = refl; holds = refl });
      }
  loop-Skips (p ∷ []) (suc zero) size total_size pos r a packs v flat enough holds ok e within
        fuel_left =
      absurd (omega arith)
  loop-Skips (p ∷ []) (suc (suc n)) size total_size pos r a packs v flat enough holds (l, ok, rest)
        e within fuel_left =
      let f : Facing fuel u r a p [] = record {
        valid = v;
        flat = flat;
        enough = enough;
        holds = holds;
        packet = rw (← l) at ok;
      } in
      let len = Facing-len fuel u f in
      let one : 1 * size ≡ length p = omega arith in
      record {
        last = record {
          ring = consumed r (length p);
          current_pos = pos + length p;
          packs = packs ++ p ∷ [];
        };
        runs =
            round_then (suc n) total_size pos packs f e within ∙ stops n total_size _ (omega arith);
        delivered = refl;
        left = rw one (consumed-Holds (length p) v (omega arith));
      }
  loop-Skips (p ∷ q ∷ ps) (suc n) size total_size pos r a packs v flat enough holds
        (l, ok, (l', ok', rest)) e within fuel_left =
      let f : Facing fuel u r a p (q ++ joined ps) = record {
        valid = v;
        flat = flat;
        enough = enough;
        holds = holds;
        packet = rw (← l) at ok;
      } in
      let len = Facing-len fuel u f in
      let h = consumed-Holds (length p) v (omega arith) in
      let skipped = drop (length p) (a ++ (p ++ q)) in
      let m = length (every_second ps) in
      let front : contents r ≡ (a ++ (p ++ q)) ++ joined ps =
        holds
        ∙ ap (λ x. a ++ x) (sym (append_assoc p q (joined ps)))
        ∙ sym (append_assoc a (p ++ q) (joined ps)) in
      let sizes = length-append a (p ++ q) in
      let sizes' = length-append p q in
      let behind : contents (consumed r (length p)) ≡ skipped ++ joined ps =
        h.holds
        ∙ ap (drop (length p)) front
        ∙ drop-front (length p) (a ++ (p ++ q)) (joined ps) (omega arith) in
      let t =
        loop-Skips ps n size total_size (pos + length p) (consumed r (length p)) skipped
          (packs ++ p ∷ []) h.valid (consumed-IsContiguous r (length p) v (omega arith) flat)
          (omega (arith, h.same_capacity)) behind rest
          (omega (arith, length-drop (length p) (a ++ (p ++ q)))) (omega arith) (omega arith) in
      let taken : length p + m * size ≡ suc m * size = omega arith in
      record {
        last = t.last;
        runs = round_then n total_size pos packs f e within ∙ t.runs;
        delivered = t.delivered ∙ append_assoc packs (p ∷ []) (every_second ps);
        left = record {
          valid = t.left.valid;
          same_capacity = t.left.same_capacity ∙ h.same_capacity;
          holds =
              t.left.holds
              ∙ ap (drop (m * size)) h.holds
              ∙ drop-drop (m * size) (length p) (contents r)
              ∙ ap (λ k. drop k (contents r)) taken;
        };
      }

  -- On packets of one size, one behind the other, that are all of the readable bytes and lie in one piece,
  -- one call of `Get` in head-and-tail mode, with more rounds than packets, returns the first packet, the
  -- third and so on, and takes as many packets off the front of the buffer as it returns.
  pub get-every_second :
      (packets : List Bytes) (n size : ℕ)
      → IsValid u.ring
      → IsContiguous u.ring
      → capacity u.ring < fuel
      → contents u.ring ≡ joined packets
      → ArePackets u.head_key u.tail_key size packets
      → length packets < n
      → u.model ≡ head_tail
      → (u' : UnPacker) × (get fuel n u ≡ some (0, every_second packets, u'))
        × Holds u.ring u'.ring (drop (length (every_second packets) * size) (contents u.ring))
  unfolding get get_pack
  get-every_second packets n size v flat enough holds ok fuel_left mode =
      let s =
        loop-Skips packets n size u.ring.len 0 u.ring [] [] v flat enough holds ok refl
          (omega arith) fuel_left in
      (record u { ring = s.last.ring }, ground (arith, mode, s.runs, s.delivered), s.left)
