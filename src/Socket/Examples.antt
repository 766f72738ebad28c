-- ===== src/Socket/Examples.antt =====
-- The theorems of sockets at one that connects and is closed.
use xupeng.Prelude.{◌≡◌, true, not, ◌||◌, none, some, [], ◌++◌}
use xupeng.ByteArray.{little}
use xupeng.Address.{Address, ipv4, ipv4_address}
use xupeng.Socket.{Socket, Os, connect, close, create_tcp, is_valid}
use xupeng.Socket.Descriptors.{open_after, held}
use xupeng.Socket.Lifecycle.{still, after, connects, Run-create_tcp}

abbrev answering : Os
answering = record {
  socket = some 5;
  connects = true;
  binds = true;
  listens = true;
  sockname = λ a. some (a, 16);
  peername = λ a. none;
}

abbrev server : Address
server = ipv4 (ipv4_address little 0x7f000001 80)

abbrev connected : Socket
connected = (connect little answering (create_tcp 2) server none).socket

Run-create_tcp_example :
    (open_after ([] ++ (connect little answering (create_tcp 2) server none).acts) []
      ≡ held connected.sock [])
    × ((not connected.is_connected || is_valid connected) ≡ true)
    × (open_after
          (([] ++ (connect little answering (create_tcp 2) server none).acts)
            ++ (close connected).acts)
          []
        ≡ [])
Run-create_tcp_example =
    Run-create_tcp little 2 ([] ++ (connect little answering (create_tcp 2) server none).acts)
      connected []
      (after (create_tcp 2) (create_tcp 2) connected []
        (connect little answering (create_tcp 2) server none).acts (still (create_tcp 2))
        (connects answering (create_tcp 2) server none))
