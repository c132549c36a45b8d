-- ===== src/Net/Tcp/Tests.antt =====
-- Runs of the handlers on a system in memory, and the theorems about them there.
use nebula_toolkit.Net.Samples.{one_segment-IsPacket}
use nebula_toolkit.Net.Memory.{Wire, wire, wire-IsLawful, receive-whole, wire-IsQuiet}
use nebula_toolkit.Net.Streams.{Reads}
use nebula_toolkit.Net.Tcp.Bursts.{process_readable_event-burst, one_more, no_more}
use nebula_toolkit.UnPacker.Contiguous.{IsPacket}
use nebula_toolkit.RingBuffer.Contents.{Holds}
use nebula_toolkit.Net.Tcp.Reading.{process_readable_event-Reads}
use nebula_toolkit.Net.Tcp.Returning.{IsSimple, process_readable_event_returns}
use nebula_toolkit.Net.Tcp.Segments.{process_readable_event-every_second}
use nebula_toolkit.Net.Tcp.{TcpHandler, process_readable_event, read_round, handle_read, take_in}
use nebula_toolkit.Prelude.{◌≡◌, refl, true, false, none, some, [], ◌∷◌, arith, memcpy}
use nebula_toolkit.RingBuffer.{get_linear_write_space, commit_write_size, commit_read_size}
use nebula_toolkit.UnPacker.Finding.{find_key, find_second, matches_at, linear_matches, scan}
use nebula_toolkit.UnPacker.{
  UnPacker, get, get_pack, run_mode, loop, head_tail, head_tail_round, copy_packet,
}

-- an empty unpacker of eight bytes for packets between 9 and 8
abbrev unpacker : UnPacker
unpacker = record {
  ring = record {
    read_index = 6;
    write_index = 6;
    len = 0;
    buffer = 0 ∷ 0 ∷ 0 ∷ 0 ∷ 0 ∷ 0 ∷ 0 ∷ 0 ∷ [];
  };
  head_key = 9 ∷ [];
  tail_key = 8 ∷ [];
  data_sz_cb = none;
  check_sz_cb = none;
  model = head_tail;
}

unpacker-IsSimple : IsSimple 8 unpacker
unpacker-IsSimple = record {
  valid = omega arith;
  size = refl;
  head_one = refl;
  tail_one = λ e. refl;
  plain = λ e. cc;
}

abbrev handler : TcpHandler
handler = record {
  fd = 5;
  should_close = false;
  has_cb = true;
  unpacker = unpacker;
  packs = [];
  scheduled = 0;
}

-- a packet comes, then another
abbrev two_segments : Wire
two_segments = record {
  segments = (9 ∷ 1 ∷ 8 ∷ []) ∷ (9 ∷ 2 ∷ 8 ∷ []) ∷ [];
  log = [];
  arriving = [];
}

abbrev all_read : Wire
all_read = record { segments = []; log = 9 ∷ 1 ∷ 8 ∷ 9 ∷ 2 ∷ 8 ∷ []; arriving = [] }

abbrev served : TcpHandler
served = record handler {
  unpacker = record unpacker {
    ring = record {
      read_index = 4;
      write_index = 4;
      len = 0;
      buffer = 8 ∷ 9 ∷ 2 ∷ 8 ∷ 0 ∷ 0 ∷ 9 ∷ 1 ∷ [];
    };
  };
  packs = (9 ∷ 2 ∷ 8 ∷ []) ∷ [];
  scheduled = 2;
}

-- Two tasks are scheduled, and both are to find the second packet: the first is gone.
process-two_segments :
    process_readable_event wire 9 9 9 two_segments handler
    ≡ some (record two_segments { segments = [] ∷ []; log = all_read.log }, served)
unfolding process_readable_event read_round handle_read take_in memcpy get_linear_write_space
    commit_write_size commit_read_size get get_pack run_mode loop head_tail_round find_key
    find_second matches_at linear_matches scan copy_packet
process-two_segments = refl

process_readable_event-Reads_example :
    Reads wire 5 two_segments handler.unpacker.ring
      (record two_segments { segments = [] ∷ []; log = all_read.log })
      served.unpacker.ring
    × (served.fd ≡ handler.fd)
process_readable_event-Reads_example =
    process_readable_event-Reads wire wire-IsLawful 9 9 9 two_segments handler (omega arith)
      process-two_segments

process_readable_event_returns_example :
    (k' : Wire) × (h' : TcpHandler) × (process_readable_event wire 9 9 7 two_segments handler
      ≡ some (k', h'))
process_readable_event_returns_example =
    process_readable_event_returns wire wire-IsLawful 9 0 8 (omega arith) 7 _ two_segments handler
      (wire-IsQuiet 5) unpacker-IsSimple (omega arith)

-- with room for it in one piece
abbrev from_start : TcpHandler
from_start = record handler {
  unpacker = record unpacker { ring = record unpacker.ring { read_index = 0; write_index = 0 } };
}

-- after the first of two segments, and after both
abbrev first_read : Wire
first_read = record two_segments { segments = [] ∷ (9 ∷ 2 ∷ 8 ∷ []) ∷ []; log = 9 ∷ 1 ∷ 8 ∷ [] }

abbrev both_read : Wire
both_read = record two_segments { segments = [] ∷ []; log = all_read.log }

second-IsPacket : IsPacket (9 ∷ []) (8 ∷ []) (9 ∷ 2 ∷ 8 ∷ []) 2
second-IsPacket = record {
  head_pos = omega arith;
  tail_pos = omega arith;
  tail_fits = omega arith;
  head_at = refl;
  tail_at = refl;
  at_end = refl;
}

process_readable_event-burst_example :
    (h' : TcpHandler) × (process_readable_event wire 9 2 3 two_segments from_start
      ≡ some (both_read, h'))
    × (h'.packs ≡ (9 ∷ 2 ∷ 8 ∷ []) ∷ [])
    × (h'.scheduled ≡ 2)
    × (h'.should_close ≡ false)
    × Holds from_start.unpacker.ring h'.unpacker.ring []
unfolding get_linear_write_space
process_readable_event-burst_example =
    process_readable_event-burst wire 9 0 3 two_segments both_read from_start
      ((9 ∷ 1 ∷ 8 ∷ []) ∷ (9 ∷ 2 ∷ 8 ∷ []) ∷ [])
      (one_more first_read (9 ∷ 1 ∷ 8 ∷ []) ((9 ∷ 2 ∷ 8 ∷ []) ∷ [])
        (λ room. receive-whole 9 (1 ∷ 8 ∷ []) ((9 ∷ 2 ∷ 8 ∷ []) ∷ []) two_segments 5 room refl)
        (one_more both_read (9 ∷ 2 ∷ 8 ∷ []) []
          (λ room. receive-whole 9 (2 ∷ 8 ∷ []) [] first_read 5 room refl)
          (no_more (λ room. refl))))
      (omega arith) ((2, one_segment-IsPacket), ((2, second-IsPacket), tt)) (omega arith) refl refl
      refl (omega arith) (omega arith)

-- both packets at once
abbrev one_read : Wire
one_read = record two_segments { segments = (9 ∷ 1 ∷ 8 ∷ 9 ∷ 2 ∷ 8 ∷ []) ∷ [] }

-- the second packet stays in the buffer
process_readable_event-every_second_example :
    (h' : TcpHandler) × (process_readable_event wire 9 3 2 one_read from_start
      ≡ some (both_read, h'))
    × (h'.packs ≡ (9 ∷ 1 ∷ 8 ∷ []) ∷ [])
    × (h'.scheduled ≡ 1)
    × Holds from_start.unpacker.ring h'.unpacker.ring (9 ∷ 2 ∷ 8 ∷ [])
unfolding get_linear_write_space
process_readable_event-every_second_example =
    process_readable_event-every_second wire wire-IsLawful 9 3 0 3 one_read both_read both_read
      from_start (9 ∷ 1 ∷ 8 ∷ []) ((9 ∷ 2 ∷ 8 ∷ []) ∷ []) (omega arith) refl refl refl
      (refl, one_segment-IsPacket, (refl, second-IsPacket, tt)) (omega arith) (omega arith)
      (receive-whole 9 (1 ∷ 8 ∷ 9 ∷ 2 ∷ 8 ∷ []) [] one_read 5 8 refl (omega arith)) (λ room. refl)
