-- ===== src/Socket.antt =====
-- xupeng/socket.h and socket.cc: Socket. A descriptor of -1 is `none`. What the system answers in a call is
-- in an `Os`, and the calls that a method makes are its `acts`, in order. getsockname and getpeername fill
-- the object that they are given and say its length.
pub mod Descriptors
pub mod Lifecycle
pub mod Transfers
mod Examples
use xupeng.Prelude.{
  ℕ, ◌*◌, ◌/◌, ◌%◌, Bool, true, false, not, ◌&&◌, Option, none, some, List, [], ◌∷◌, ◌++◌, ◌==◌,
  if◌then◌else◌,
}
use xupeng.ByteArray.{Endian}
use xupeng.FdManager.{FdCtx, TimeoutType, receive, other, no_timeout, get_timeout}
use xupeng.Address.{
  Address, ipv4, ipv6, unix, unknown, ipv4_address, ipv6_any, unix_any, unknown_address, get_family,
  set_addr_len, af_inet, af_inet6, af_unix,
}

pub record Socket : Type 0 where
  pub sock : Option ℕ
  pub family : ℕ
  pub type : ℕ
  pub protocol : ℕ
  pub is_connected : Bool
  pub local_address : Option Address
  pub remote_address : Option Address

pub data Call : Type 0 where
  bind_call listen_call connect_call send_call sendmsg_call sendto_call recv_call recvmsg_call
        recvfrom_call :
      Call
  connect_timeout_call : ℕ → Call
  option_call : ℕ → ℕ → Call

-- A descriptor opened, by socket or accept, or closed, another call on a descriptor, and the unlinking of a path.
pub data Act : Type 0 where
  opened closed : ℕ → Act
  called : Call → ℕ → Act
  unlinked : Address → Act

-- Whether the calls succeed, and what they give.
pub record Os : Type 0 where
  pub socket : Option ℕ
  pub connects : Bool
  pub binds : Bool
  pub listens : Bool
  pub sockname : Address → Option (Address × ℕ)
  pub peername : Address → Option (Address × ℕ)

-- What a method returns, the socket after it and the calls.
pub record Done : Type 0 where
  pub returned : Bool
  pub socket : Socket
  pub acts : List Act

abbrev pub doing : List Act → Done → Done
doing acts d = record d { acts = acts ++ d.acts }

abbrev pub sock_stream : ℕ
sock_stream = 1

abbrev pub sock_dgram : ℕ
sock_dgram = 2

abbrev pub new_socket : ℕ → ℕ → ℕ → Socket
new_socket family type protocol = record {
  sock = none;
  family = family;
  type = type;
  protocol = protocol;
  is_connected = false;
  local_address = none;
  remote_address = none;
}

abbrev pub has_sock : Option ℕ → Bool
has_sock none = false
has_sock (some fd) = true

abbrev pub is_valid : Socket → Bool
is_valid s = has_sock s.sock

-- `initSock`: SO_REUSEADDR, and TCP_NODELAY for a stream.
abbrev pub init_sock : Socket → ℕ → List Act
init_sock s fd =
    called (option_call 1 2) fd
    ∷ (if s.type == sock_stream then called (option_call 6 1) fd ∷ [] else [])

-- `newSock`.
abbrev pub new_sock : Socket → Option ℕ → Done
new_sock s none = record { returned = false; socket = record s { sock = none }; acts = [] }
new_sock s (some fd) = record {
  returned = true;
  socket = record s { sock = some fd };
  acts = opened fd ∷ init_sock s fd;
}

-- `if (!isValid()) newSock()`; it returns whether the socket is valid then.
abbrev pub ensured : Os → Socket → Option ℕ → Done
ensured os s none = new_sock s os.socket
ensured os s (some fd) = record { returned = true; socket = s; acts = [] }

-- `close`, by m_isConnected and m_sock.
abbrev pub closing : Socket → Bool → Option ℕ → Done
closing s false none = record { returned = true; socket = s; acts = [] }
closing s true none = record {
  returned = false;
  socket = record s { is_connected = false };
  acts = [];
}
closing s connected (some fd) = record {
  returned = false;
  socket = record s { is_connected = false; sock = none };
  acts = closed fd ∷ [];
}

unfoldable pub close : Socket → Done
close s = closing s s.is_connected s.sock

-- `connect`, with `none` for the timeout of -1.
abbrev pub connect_by : Option ℕ → Call
connect_by none = connect_call
connect_by (some ms) = connect_timeout_call ms

-- `init`, with what FdManager has of the descriptor.
abbrev pub is_open : Option FdCtx → Bool
is_open none = false
is_open (some ctx) = ctx.is_socket && not ctx.is_closed

module _ (host : Endian) where
  -- The object that getsockname and getpeername fill.
  abbrev pub blank : ℕ → Address
  blank family =
      if family == af_inet
      then ipv4 (ipv4_address host 0 0)
      else if family == af_inet6
      then ipv6 ipv6_any
      else if family == af_unix
      then unix_any
      else unknown_address family

  abbrev pub sized : ℕ → Address × ℕ → Address
  sized family named = if family == af_unix then set_addr_len named.0 named.1 else named.0

  -- `getLocalAddress` and `getRemoteAddresses`: what they return, and what is stored then.
  abbrev pub got : ℕ → Option Address → Option (Address × ℕ) → Address × Option Address
  got family (some a) answer = (a, some a)
  got family none none = (unknown_address family, none)
  got family none (some named) = (sized family named, some (sized family named))

  unfoldable pub get_local_address : Os → Socket → Address × Socket
  get_local_address os s =
      let (a, stored) = got s.family s.local_address (os.sockname (blank s.family)) in
      (a, record s { local_address = stored })

  unfoldable pub get_remote_addresses : Os → Socket → Address × Socket
  get_remote_addresses os s =
      let (a, stored) = got s.family s.remote_address (os.peername (blank s.family)) in
      (a, record s { remote_address = stored })

  -- After the call of connect.
  abbrev pub reached : Os → Socket → Bool → Done
  reached os s false = record { returned = false; socket = (close s).socket; acts = (close s).acts }
  reached os s true = record {
    returned = true;
    socket =
        (get_local_address os (get_remote_addresses os (record s { is_connected = true })).1).1;
    acts = [];
  }

  -- From the check of the family on.
  abbrev pub connect_at : Os → Socket → Address → Call → Option ℕ → Done
  connect_at os s addr call none = record { returned = false; socket = s; acts = [] }
  connect_at os s addr call (some fd) =
      let tried = doing (called call fd ∷ []) (reached os s os.connects) in
      if get_family addr == s.family
      then tried
      else record { returned = false; socket = s; acts = [] }

  unfoldable pub connect : Os → Socket → Address → Option ℕ → Done
  unfolding close get_local_address get_remote_addresses
  connect os s addr timeout =
      let s' = record s { remote_address = some addr } in
      let ready = ensured os s' s'.sock in
      doing ready.acts (connect_at os ready.socket addr (connect_by timeout) ready.socket.sock)

  abbrev pub reconnect_to : Os → Socket → Option Address → Option ℕ → Done
  reconnect_to os s none timeout = record { returned = false; socket = s; acts = [] }
  reconnect_to os s (some addr) timeout =
      connect os (record s { local_address = none }) addr timeout

  unfoldable pub reconnect : Os → Socket → Option ℕ → Done
  unfolding connect
  reconnect os s timeout = reconnect_to os s s.remote_address timeout

  -- The socket that bind tries a unix address with: it is closed when it goes out of scope, and the path
  -- is unlinked unless something answers.
  abbrev pub probed : Os → Address → Done
  probed os addr =
      let tried = connect os (new_socket af_unix sock_stream 0) addr none in
      let gone = close tried.socket in
      record {
        returned = tried.returned;
        socket = gone.socket;
        acts = tried.acts ++ ((if tried.returned then [] else unlinked addr ∷ []) ++ gone.acts);
      }

  abbrev pub probe : Os → Address → Done
  probe os (unix a n) = probed os (unix a n)
  probe os addr = record { returned = false; socket = new_socket 0 0 0; acts = [] }

  abbrev pub bound : Os → Socket → Bool → Done
  bound os s false = record { returned = false; socket = s; acts = [] }
  bound os s true = record { returned = true; socket = (get_local_address os s).1; acts = [] }

  -- `bind` from the check of the family on; `probing` is what the system answers the socket that tries.
  abbrev pub bind_at : Os → Os → Socket → Address → Option ℕ → Done
  bind_at os probing s addr none = record { returned = false; socket = s; acts = [] }
  bind_at os probing s addr (some fd) =
      let answer = probe probing addr in
      let go_on = doing (called bind_call fd ∷ []) (bound os s os.binds) in
      let stop : Done = record { returned = false; socket = s; acts = [] } in
      if get_family addr == s.family
      then doing answer.acts (if answer.returned then stop else go_on)
      else stop

  unfoldable pub bind : Os → Os → Socket → Address → Done
  unfolding connect close get_local_address
  bind os probing s addr =
      let ready = ensured os s s.sock in
      doing ready.acts (bind_at os probing ready.socket addr ready.socket.sock)

  unfoldable pub init : Os → Socket → ℕ → Option FdCtx → Done
  unfolding get_local_address get_remote_addresses
  init os s fd ctx =
      let taken = record s { sock = some fd; is_connected = true } in
      let named = get_remote_addresses os (get_local_address os taken).1 in
      if is_open ctx
      then record { returned = true; socket = named.1; acts = init_sock s fd }
      else record { returned = false; socket = s; acts = [] }

  -- `accept`: the socket that it returns, if any, and the calls.
  abbrev pub accepted : Os → Socket → Option ℕ → Option FdCtx → Option Socket × List Act
  accepted os s none ctx = (none, [])
  accepted os s (some fd) ctx =
      let made = init os (new_socket s.family s.type s.protocol) fd ctx in
      (if made.returned then some made.socket else none, opened fd ∷ made.acts)

  unfoldable pub accept : Os → Socket → Option ℕ → Option FdCtx → Option Socket × List Act
  unfolding init
  accept os s fd ctx = accepted os s fd ctx

-- `listen`.
abbrev pub listen_at : Socket → Bool → Option ℕ → Done
listen_at s listens none = record { returned = false; socket = s; acts = [] }
listen_at s listens (some fd) = record {
  returned = listens;
  socket = s;
  acts = called listen_call fd ∷ [];
}

unfoldable pub listen : Os → Socket → Done
listen os s = listen_at s os.listens s.sock

-- The creation of sockets. A UDP socket is taken for connected whether or not there is a descriptor.
abbrev pub create_tcp : ℕ → Socket
create_tcp family = new_socket family sock_stream 0

unfoldable pub create_udp : Os → ℕ → Done
create_udp os family =
    let made = new_sock (new_socket family sock_dgram 0) os.socket in
    record made { socket = record (made.socket) { is_connected = true } }
