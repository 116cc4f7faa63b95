-- ===== src/Captain/StreamDatagram/Tests.antt =====
-- A datagram on a stream, and the theorem at it.
use jocasta.Prelude.{◌≡◌, refl, [], ◌∷◌, ◌++◌, arith}
use jocasta.Go.Result.{ok}
use jocasta.Go.Io.{Bytes, eof, over}
use jocasta.Go.Net.{to4}
use jocasta.Captain.DataLen.{data_len}
use jocasta.Captain.Datagram.{Datagram, addr_bytes, head_bytes}
use jocasta.Captain.Datagram.Wire.{v4_addr, IsWire}
use jocasta.Captain.StreamDatagram.{parse_stream_datagram, stream_datagram_bytes}
use jocasta.Captain.StreamDatagram.RoundTrip.{parse-stream_datagram_bytes}

abbrev local : Datagram
local = record { reserved = 0; addr = v4_addr (127 ∷ 0 ∷ 0 ∷ 1 ∷ []) 8080; payload = [] }

abbrev frame : Bytes
frame = 0 ∷ 1 ∷ 127 ∷ 0 ∷ 0 ∷ 1 ∷ 31 ∷ 144 ∷ 0 ∷ []

local_bytes : stream_datagram_bytes local ≡ ok frame
unfolding stream_datagram_bytes addr_bytes head_bytes to4 data_len
local_bytes = refl

parse-stream_datagram_bytes_example :
    parse_stream_datagram (over (frame ++ 9 ∷ []) eof) ≡ ok (local, over (9 ∷ []) eof)
parse-stream_datagram_bytes_example =
    parse-stream_datagram_bytes local
      (IsWire.ipv4 (127 ∷ 0 ∷ 0 ∷ 1 ∷ []) 8080 refl (omega arith) refl) frame (9 ∷ []) eof
      local_bytes
