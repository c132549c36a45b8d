-- ===== src/UnPacker/Tests.antt =====
-- Runs of the unpacker, and the theorems about it at concrete buffers.
use nebula_toolkit.Prelude.{
  ℕ, ◌≡◌, ◌≢◌, refl, true, false, ◌==◌, get_or, none, some, List, [], ◌∷◌, arith, Bytes, drop,
  memcpy,
}
use nebula_toolkit.RingBuffer.Contents.{contents, Holds}
use nebula_toolkit.RingBuffer.{RingBuffer, write, commit_read_size, create}
use nebula_toolkit.UnPacker.Finding.{find_key, find_second, matches_at, linear_matches, scan}
use nebula_toolkit.UnPacker.Callback.{Sized, get_sized_packet}
use nebula_toolkit.UnPacker.Contiguous.{IsPacket}
use nebula_toolkit.UnPacker.EverySecond.{get-every_second}
use nebula_toolkit.UnPacker.HeadOnly.{TwoHeads, get_head_packet}
use nebula_toolkit.UnPacker.HeadTail.{Framed, get_first_packet}
use nebula_toolkit.UnPacker.Missed.{find_key_hangs}
use nebula_toolkit.UnPacker.Safety.{AllPass, get-Front, get-AllPass}
use nebula_toolkit.UnPacker.Search.{find_key_lem}
use nebula_toolkit.UnPacker.Termination.{get_returns}
use nebula_toolkit.UnPacker.{
  UnPacker, DataSzCb, CheckValidCb, create_with_callbacks, push_and_get, get, copy_packet,
  head_tail_round, callback_round, loop, get_pack, head_only, head_tail, head_tail_cb,
}

-- The callbacks and keys of `unpacker_test.cpp`, with a packet of 13 bytes and one of 8.
abbrev sizes : DataSzCb
sizes [] = (3, 0, 2)
sizes (a ∷ []) = (3, 0, 2)
sizes (a ∷ b ∷ []) = (3, 0, 2)
sizes (a ∷ b ∷ c ∷ rest) = (3, c, 2)

abbrev any : CheckValidCb
any packet = true

abbrev stream : Bytes
stream =
    1 ∷ 2 ∷ 3 ∷ 7 ∷ 9 ∷ 3 ∷ 10 ∷ 11 ∷ 12 ∷ 14 ∷ 13 ∷ 7 ∷ 9 ∷ 3 ∷ 10 ∷ 11 ∷ 12 ∷ 14 ∷ 13 ∷ 4 ∷ 5 ∷ []

abbrev unpacker : UnPacker
unpacker = create_with_callbacks (7 ∷ 9 ∷ []) (14 ∷ 13 ∷ []) (some sizes) (some any) 32

-- the first of two packets, and eleven bytes that stay: its last three, the second, and two more
pushed :
    (u' : UnPacker) × (push_and_get 64 32 unpacker (some stream) 21 []
      ≡ some (21, (7 ∷ 9 ∷ 3 ∷ 10 ∷ 11 ∷ 12 ∷ 14 ∷ 13 ∷ []) ∷ [], u'))
    × (contents u'.ring ≡ 12 ∷ 14 ∷ 13 ∷ 7 ∷ 9 ∷ 3 ∷ 10 ∷ 11 ∷ 12 ∷ 14 ∷ 13 ∷ 4 ∷ 5 ∷ [])
unfolding create_with_callbacks create push_and_get write memcpy get_pack loop callback_round
    find_key find_second matches_at linear_matches scan copy_packet commit_read_size
pushed = (_, refl, refl)

-- 1, then two packets in head and tail mode
abbrev two_packets : UnPacker
two_packets = record {
  ring = record {
    read_index = 0;
    write_index = 11;
    len = 11;
    buffer = 1 ∷ 7 ∷ 9 ∷ 5 ∷ 14 ∷ 13 ∷ 7 ∷ 9 ∷ 6 ∷ 14 ∷ 13 ∷ 0 ∷ [];
  };
  head_key = 7 ∷ 9 ∷ [];
  tail_key = 14 ∷ 13 ∷ [];
  data_sz_cb = none;
  check_sz_cb = none;
  model = head_tail;
}

two_packets-Framed : Framed two_packets 1 4
two_packets-Framed = record {
  valid = omega arith;
  flat = omega arith;
  head_pos = omega arith;
  tail_pos = omega arith;
  tail_fits = omega arith;
  head_at = refl;
  tail_at = refl;
}

get_first_packet_example :
    (u' : UnPacker) × (get 20 2 two_packets ≡ some (0, (7 ∷ 9 ∷ 5 ∷ 14 ∷ 13 ∷ []) ∷ [], u'))
    × Holds two_packets.ring u'.ring (13 ∷ 7 ∷ 9 ∷ 6 ∷ 14 ∷ 13 ∷ [])
get_first_packet_example =
    get_first_packet 20 two_packets 1 4 two_packets-Framed (omega arith) (omega arith) 0 refl

-- Three packets: the second is lost, and the third will be returned again.
abbrev three_packets : UnPacker
three_packets = record two_packets {
  ring = record {
    read_index = 0;
    write_index = 9;
    len = 9;
    buffer = 7 ∷ 1 ∷ 9 ∷ 7 ∷ 2 ∷ 9 ∷ 7 ∷ 3 ∷ 9 ∷ 0 ∷ [];
  };
  head_key = 7 ∷ [];
  tail_key = 9 ∷ [];
}

sample-IsPacket : (d : ℕ) → (d == 9) ≡ false → IsPacket (7 ∷ []) (9 ∷ []) (7 ∷ d ∷ 9 ∷ []) 2
sample-IsPacket d no_tail = record {
  head_pos = omega arith;
  tail_pos = omega arith;
  tail_fits = omega arith;
  head_at = refl;
  tail_at = rw no_tail refl;
  at_end = refl;
}

get-every_second_example :
    (u' : UnPacker) × (get 11 4 three_packets
      ≡ some (0, (7 ∷ 1 ∷ 9 ∷ []) ∷ (7 ∷ 3 ∷ 9 ∷ []) ∷ [], u'))
    × Holds three_packets.ring u'.ring (7 ∷ 3 ∷ 9 ∷ [])
get-every_second_example =
    get-every_second 11 three_packets ((7 ∷ 1 ∷ 9 ∷ []) ∷ (7 ∷ 2 ∷ 9 ∷ []) ∷ (7 ∷ 3 ∷ 9 ∷ []) ∷ [])
      4 3 (omega arith) (omega arith) (omega arith) refl
      (
        refl,
        sample-IsPacket 1 refl,
        (refl, sample-IsPacket 2 refl, (refl, sample-IsPacket 3 refl, tt)),
      )
      (omega arith) refl

-- the same bytes in head-only mode: the first packet reaches to the second head key
abbrev two_heads : UnPacker
two_heads = record two_packets { tail_key = []; model = head_only }

two_heads-TwoHeads : TwoHeads two_heads 1 6
two_heads-TwoHeads = record {
  valid = omega arith;
  flat = omega arith;
  head_pos = omega arith;
  next_fits = omega arith;
  head_at = refl;
  next_at = refl;
}

get_head_packet_example :
    (u' : UnPacker) × (get 20 2 two_heads ≡ some (0, (7 ∷ 9 ∷ 5 ∷ 14 ∷ 13 ∷ []) ∷ [], u'))
    × Holds two_heads.ring u'.ring (13 ∷ 7 ∷ 9 ∷ 6 ∷ 14 ∷ 13 ∷ [])
get_head_packet_example =
    get_head_packet 20 two_heads 1 6 two_heads-TwoHeads (omega arith) (omega arith) 0 refl

-- with callbacks: one byte, and a packet with one byte of data behind its head of three
abbrev one_sized : UnPacker
one_sized = record {
  ring = record {
    read_index = 0;
    write_index = 7;
    len = 7;
    buffer = 1 ∷ 7 ∷ 9 ∷ 1 ∷ 10 ∷ 14 ∷ 13 ∷ 0 ∷ [];
  };
  head_key = 7 ∷ 9 ∷ [];
  tail_key = 14 ∷ 13 ∷ [];
  data_sz_cb = some sizes;
  check_sz_cb = some any;
  model = head_tail_cb;
}

one_sized-Sized : Sized one_sized sizes 1 3 1 2
one_sized-Sized = record {
  valid = omega arith;
  flat = omega arith;
  head_pos = omega arith;
  tail_pos = omega arith;
  head_fits = omega arith;
  tail_fits = omega arith;
  size_fits = omega arith;
  head_at = refl;
  sizes = refl;
  tail_at = refl;
  passes = refl;
}

get_sized_packet_example :
    (u' : UnPacker) × (get 20 2 one_sized ≡ some (0, (7 ∷ 9 ∷ 1 ∷ 10 ∷ 14 ∷ 13 ∷ []) ∷ [], u'))
    × Holds one_sized.ring u'.ring (13 ∷ [])
get_sized_packet_example =
    get_sized_packet 20 one_sized sizes 1 3 1 2 one_sized-Sized (omega arith) (omega arith) 0 refl
      refl

-- 9, 5, 7 and 9, round the end of the buffer behind the third
abbrev round_end : RingBuffer
round_end = record { read_index = 3; write_index = 1; len = 4; buffer = 9 ∷ 0 ∷ 0 ∷ 9 ∷ 5 ∷ 7 ∷ [] }

find_key_lem_example : find_key 9 round_end (5 ∷ []) 0 ≡ some 1
find_key_lem_example =
    find_key_lem 9 round_end (5 ∷ []) 0 (omega arith) (omega arith) (omega arith) (omega arith)
      (omega arith)

-- one readable byte too few for a key of two, none of which is in the buffer
abbrev noise : RingBuffer
noise = record { read_index = 0; write_index = 3; len = 3; buffer = 1 ∷ 2 ∷ 3 ∷ 0 ∷ [] }

find_key_hangs_example : find_key 1000 noise (7 ∷ 9 ∷ []) 2 ≡ none
find_key_hangs_example =
    find_key_hangs 1000 noise 7 (9 ∷ []) 2 (omega arith) (omega arith) (omega arith) refl absent
  where
    absent : (i : ℕ) → get_or noise.buffer i 0 ≢ 7
    absent i = ground (arith, i)

-- `two_packets` after a call of `Get`
abbrev one_left : UnPacker
one_left = record two_packets { ring = record two_packets.ring { read_index = 5; len = 6 } }

get-two_packets : get 20 2 two_packets ≡ some (0, (7 ∷ 9 ∷ 5 ∷ 14 ∷ 13 ∷ []) ∷ [], one_left)
unfolding get memcpy get_pack loop head_tail_round find_key find_second matches_at linear_matches
    scan copy_packet commit_read_size
get-two_packets = refl

get-Front_example :
    (k : ℕ) × Holds two_packets.ring one_left.ring (drop k (contents two_packets.ring))
get-Front_example = get-Front 20 2 two_packets (omega arith) get-two_packets

-- one packet for callback mode
abbrev checked : UnPacker
checked = record two_packets {
  data_sz_cb = some sizes;
  check_sz_cb = some any;
  model = head_tail_cb;
  ring = record two_packets.ring {
    len = 6;
    write_index = 6;
    buffer = 7 ∷ 9 ∷ 1 ∷ 5 ∷ 14 ∷ 13 ∷ 0 ∷ [];
  };
}

get-checked :
    get 20 2 checked
    ≡ some (
      0,
      (7 ∷ 9 ∷ 1 ∷ 5 ∷ 14 ∷ 13 ∷ []) ∷ [],
      record checked { ring = record checked.ring { read_index = 6; len = 0 } },
    )
unfolding get memcpy get_pack loop callback_round find_key find_second matches_at linear_matches
    scan copy_packet commit_read_size
get-checked = refl

get-AllPass_example : AllPass any ((7 ∷ 9 ∷ 1 ∷ 5 ∷ 14 ∷ 13 ∷ []) ∷ [])
get-AllPass_example = get-AllPass 20 2 checked sizes any refl refl refl get-checked

-- keys of one byte
abbrev short_keys : UnPacker
short_keys = record two_packets { head_key = 7 ∷ []; tail_key = 14 ∷ [] }

get_returns_example :
    (code : ℕ) × (packs : List Bytes) × (u' : UnPacker) × (get 13 14 short_keys
      ≡ some (code, packs, u'))
get_returns_example =
    get_returns 13 1 short_keys (omega arith) refl (λ e. refl) (λ e. cc) (omega arith)
