-- ===== src/UnPacker/Skipping.antt =====
-- A round of `ProcessHeadTailMode` at the front of a packet, with bytes in front of it and behind it.
use nebula_toolkit.Prelude.{
  ℕ, ◌+◌, ◌-◌, ◌≤◌, ◌<◌, ◌≡◌, ◌∙◌, refl, ap, some, List, [], ◌∷◌, ◌++◌, Bytes, length, take, drop,
  arith, length-append,
}
use nebula_toolkit.RingBuffer.Contents.{IsValid, contents, length-contents}
use nebula_toolkit.RingBuffer.Linear.{commit_read-Holds}
use nebula_toolkit.RingBuffer.Reading.{consumed}
use nebula_toolkit.RingBuffer.{RingBuffer, capacity}
use nebula_toolkit.UnPacker.Contiguous.{IsContiguous, IsPacket, first_place, find_key-first_place}
use nebula_toolkit.UnPacker.Packets.{copy_packet_lem}
use nebula_toolkit.UnPacker.Streams.{first_place-inside, take-inside}
use nebula_toolkit.UnPacker.{UnPacker, find_key, head_tail_round}

module _ (fuel : ℕ) (u : UnPacker) where
  -- `p` behind `a` in the readable bytes, and the search about to begin at its front
  pub record Facing (r : RingBuffer) (a p b : Bytes) : Type 0 where
    pub valid : IsValid r
    pub flat : IsContiguous r
    pub enough : capacity r < fuel
    pub holds : contents r ≡ a ++ (p ++ b)
    pub packet : IsPacket u.head_key u.tail_key p (length p - length u.tail_key)

  pub Facing-len :
      {r : RingBuffer} {a p b : Bytes} → Facing r a p b → r.len ≡ length a + (length p + length b)
  Facing-len {r} {a} {p} {b} f =
      omega
        (arith, length-contents r, ap length f.holds, length-append a (p ++ b), length-append p b)

  place :
      {r : RingBuffer} {a p b : Bytes} (f : Facing r a p b) (key : Bytes) (i k : ℕ)
      → 0 < length key
      → i + length key ≤ length p
      → first_place p key i ≡ some k
      → find_key fuel r key (length a + i) ≡ some (length a + k)
  place {r} {a} {p} {b} f key i k pos room e =
      find_key-first_place fuel r key (length a + i) f.valid f.flat pos
        (omega (arith, Facing-len f)) f.enough
      ∙ (rw (f.holds, first_place-inside a p b key i k room e) refl)

  pub one_round :
      {r : RingBuffer} {a p b : Bytes} (packs : List Bytes) (f : Facing r a p b)
      → head_tail_round fuel u (record { ring = r; current_pos = length a; packs = packs })
        ≡ some (
            some (record {
              ring = consumed r (length p);
              current_pos = length a + length p;
              packs = packs ++ p ∷ [];
            }))
  unfolding head_tail_round
  one_round {r} {a} {p} {b} packs f =
      let q = f.packet in
      let head = place f u.head_key 0 0 q.head_pos (omega (arith, q.tail_fits)) q.head_at in
      let tail =
        place f u.tail_key (length u.head_key) (length p - length u.tail_key) q.tail_pos q.tail_fits
          q.tail_at in
      let zero_on : length a + 0 ≡ length a = omega arith in
      let copied : take (length p) (drop (length a) (contents r)) ≡ p =
        rw f.holds (take-inside a p b) in
      ground (
        arith,
        f.valid,
        q.tail_fits,
        q.tail_pos,
        q.head_pos,
        q.at_end,
        Facing-len f,
        head,
        tail,
        zero_on,
        copied,
        copy_packet_lem r (length a) (length p) f.valid,
        commit_read-Holds (length p) f.valid,
      )
