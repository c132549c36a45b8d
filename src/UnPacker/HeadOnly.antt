-- ===== src/UnPacker/HeadOnly.antt =====
-- `ProcessHeadOnlyMode` on readable bytes in one piece.
use nebula_toolkit.Prelude.{
  ℕ, suc, ◌+◌, ◌-◌, ◌≤◌, ◌<◌, ◌≡◌, ◌∙◌, none, some, [], ◌∷◌, length, take, drop, arith, ==_refl,
}
use nebula_toolkit.RingBuffer.Contents.{IsValid, contents, length-contents, Holds}
use nebula_toolkit.RingBuffer.Linear.{commit_read-Holds}
use nebula_toolkit.RingBuffer.Reading.{consumed, consumed-Holds}
use nebula_toolkit.RingBuffer.{capacity}
use nebula_toolkit.UnPacker.Contiguous.{IsContiguous, first_place, find_key-first_place}
use nebula_toolkit.UnPacker.HeadTail.{find_key_behind}
use nebula_toolkit.UnPacker.Packets.{copy_packet_lem, loop_once}
use nebula_toolkit.UnPacker.Search.{occurs, first_at-bounds}
use nebula_toolkit.UnPacker.{
  UnPacker, Progress, find_key, head_only, head_only_round, loop, get_pack, get,
}

-- The first head key in the readable bytes stands at `h`, and the next one behind it at `n`.
pub record TwoHeads (u : UnPacker) (h n : ℕ) : Type 0 where
  pub valid : IsValid u.ring
  pub flat : IsContiguous u.ring
  pub head_pos : 0 < length u.head_key
  pub next_fits : h + length u.head_key + length u.head_key ≤ u.ring.len
  pub head_at : first_place (contents u.ring) u.head_key 0 ≡ some h
  pub next_at : first_place (contents u.ring) u.head_key (h + length u.head_key) ≡ some n

module _ (fuel : ℕ) (u : UnPacker) (h n : ℕ) (f : TwoHeads u h n)
    (enough : capacity u.ring < fuel) where
  next_bounds : (h + length u.head_key ≤ n) × (n + length u.head_key ≤ u.ring.len)
  next_bounds =
      let b =
        first_at-bounds (length (contents u.ring) + 1 - length u.head_key - (h + length u.head_key))
          (λ i. occurs (contents u.ring) i u.head_key) (h + length u.head_key) n f.next_at in
      omega (arith, length-contents u.ring)

  finds_head : find_key fuel u.ring u.head_key 0 ≡ some h
  finds_head =
      find_key-first_place fuel u.ring u.head_key 0 f.valid f.flat f.head_pos
        (omega (arith, f.next_fits)) enough
      ∙ (rw f.head_at)

  finds_next : find_key fuel u.ring u.head_key (h + length u.head_key) ≡ some n
  finds_next =
      find_key-first_place fuel u.ring u.head_key (h + length u.head_key) f.valid f.flat f.head_pos
        f.next_fits enough
      ∙ (rw f.next_at)

  after : Progress
  after = record {
    ring = consumed u.ring (n - h);
    current_pos = n;
    packs = take (n - h) (drop h (contents u.ring)) ∷ [];
  }

  first_round :
      head_only_round fuel u (record { ring = u.ring; current_pos = 0; packs = [] })
      ≡ some (some after)
  unfolding head_only_round after
  first_round = ground (
    arith,
    f.valid,
    next_bounds,
    finds_head,
    finds_next,
    copy_packet_lem u.ring h (n - h) f.valid,
    commit_read-Holds (n - h) f.valid,
  )

  module _ (short : u.ring.len ≤ n + (n - h)) where
    second_round : head_only_round fuel u after ≡ some none
    unfolding head_only_round after
    second_round = ground (
      arith,
      next_bounds,
      find_key_behind fuel (consumed u.ring (n - h)) u.head_key n,
      ==_refl (capacity u.ring),
    )

    two_rounds :
        (k : ℕ)
        → loop
            (head_only_round fuel u)
            (suc (suc k))
            u.ring.len
            (record { ring = u.ring; current_pos = 0; packs = [] })
          ≡ some after
    two_rounds =
        loop_once (head_only_round fuel u) u.ring.len (omega (arith, f.head_pos, f.next_fits))
          first_round second_round

    -- With a head key at `h`, the next one behind it at `n`, and no more readable bytes than `n` and the
    -- size of the packet between them add up to, one call of `Get` in head-only mode delivers the bytes
    -- from the first head key to the next and no other packet, and takes the packet's size off the front of the
    -- buffer. Two rounds are enough.
    pub get_head_packet :
        (k : ℕ)
        → u.model ≡ head_only
        → (u' : UnPacker) × (get fuel (suc (suc k)) u
            ≡ some (0, take (n - h) (drop h (contents u.ring)) ∷ [], u'))
          × Holds u.ring u'.ring (drop (n - h) (contents u.ring))
    unfolding get get_pack after
    get_head_packet k mode = (
      record u { ring = consumed u.ring (n - h) },
      ground (arith, mode, two_rounds k),
      consumed-Holds (n - h) f.valid (omega (arith, next_bounds)),
    )
