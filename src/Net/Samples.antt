-- ===== src/Net/Samples.antt =====
-- Bytes that come over the system in memory: one packet, between 9 and 8, and nothing behind it.
use nebula_toolkit.Net.Memory.{Wire}
use nebula_toolkit.UnPacker.Contiguous.{IsPacket}
use nebula_toolkit.Prelude.{refl, [], ◌∷◌, arith}

-- One packet comes.
abbrev pub one_segment : Wire
one_segment = record { segments = (9 ∷ 1 ∷ 8 ∷ []) ∷ []; log = []; arriving = [] }

abbrev pub segment_read : Wire
segment_read = record { segments = [] ∷ []; log = 9 ∷ 1 ∷ 8 ∷ []; arriving = [] }

pub one_segment-IsPacket : IsPacket (9 ∷ []) (8 ∷ []) (9 ∷ 1 ∷ 8 ∷ []) 2
one_segment-IsPacket = record {
  head_pos = omega arith;
  tail_pos = omega arith;
  tail_fits = omega arith;
  head_at = refl;
  tail_at = refl;
  at_end = refl;
}
