-- ===== src/Tcp/Tests.antt =====
-- A frame over TCP at concrete inputs. The stand-in for zlib compresses nothing.
use streaming_gateway.Prelude.{◌≡◌, refl, sym, true, some, [], ◌∷◌, ◌++◌, Bytes, length, arith}
use streaming_gateway.Memory.{to_bytes}
use streaming_gateway.Queue.Fifo.{message}
use streaming_gateway.Frame.{Mat, unmarshal}
use streaming_gateway.Frame.RoundTrip.{Fits}
use streaming_gateway.Tcp.{Zlib, tcp_message, handle_webcam_frame, unpacked, unpack}
use streaming_gateway.Tcp.Padding.{padded, IsZlib, tcp_frame}

abbrev pub store_only : Zlib
store_only = record { compress = λ b. some b; uncompress = λ n b. some b }

pub store_only-IsZlib : IsZlib store_only
unfolding IsZlib
store_only-IsZlib b out e = sym e

abbrev pixels : Mat
pixels = record { cols = 2; rows = 1; kind = 0; step = 2; content = 7 ∷ 8 ∷ [] }

pixels-Fits : Fits pixels
pixels-Fits = record {
  cols_fit = omega arith;
  rows_fit = omega arith;
  kind_fit = omega arith;
  step_fit = omega arith;
}

abbrev packet : Bytes
packet = to_bytes 8 5 ++ (to_bytes 8 (length (tcp_message pixels)) ++ tcp_message pixels)

packet_sent : (handle_webcam_frame store_only true 5 pixels).0 ≡ some packet
unfolding handle_webcam_frame
packet_sent = refl

tcp_frame_example :
    (d : Bytes) × (unpack store_only true packet ≡ unpacked d)
    × (unmarshal (message d) ≡ some (padded pixels))
tcp_frame_example =
    tcp_frame store_only store_only-IsZlib true 5 pixels pixels-Fits (omega arith) packet
      packet_sent
