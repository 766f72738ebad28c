-- ===== src/Socket/Transfers.antt =====
-- xupeng/socket.cc: what a Socket sends and receives, and its options.
use xupeng.Prelude.{ℕ, ◌*◌, ◌/◌, ◌%◌, Bool, true, Option, none, some, List, [], ◌∷◌, if◌then◌else◌}
use xupeng.FdManager.{FdCtx, TimeoutType, receive, other, no_timeout, get_timeout}
use xupeng.Socket.{
  Socket, Call, Act, called, send_call, sendmsg_call, sendto_call, recv_call, recvmsg_call,
  recvfrom_call,
}

-- The calls that send and receive: -1, which is `none`, unless the socket is connected, and else what the
-- call on the descriptor returns, which may be -1 (`none`) itself.
abbrev pub on_sock : Call → Option ℕ → List Act
on_sock call none = []
on_sock call (some fd) = called call fd ∷ []

abbrev pub transfer : Call → Socket → Option ℕ → Option ℕ × List Act
transfer call s answer = if s.is_connected then (answer, on_sock call s.sock) else (none, [])

abbrev pub send : Socket → Option ℕ → Option ℕ × List Act
send = transfer send_call

abbrev pub send_buffers : Socket → Option ℕ → Option ℕ × List Act
send_buffers = transfer sendmsg_call

abbrev pub send_to : Socket → Option ℕ → Option ℕ × List Act
send_to = transfer sendto_call

abbrev pub send_buffers_to : Socket → Option ℕ → Option ℕ × List Act
send_buffers_to = transfer sendmsg_call

abbrev pub recv : Socket → Option ℕ → Option ℕ × List Act
recv = transfer recv_call

abbrev pub recv_buffers : Socket → Option ℕ → Option ℕ × List Act
recv_buffers = transfer recvmsg_call

abbrev pub recv_from : Socket → Option ℕ → Option ℕ × List Act
recv_from = transfer recvfrom_call

abbrev pub recv_buffers_from : Socket → Option ℕ → Option ℕ × List Act
recv_buffers_from = transfer recvmsg_call

-- The options: `getOption` tells whether getsockopt succeeds, and `setOption` is true in any case.
abbrev pub get_option : Bool → Bool
get_option succeeds = succeeds

abbrev pub set_option : Bool → Bool
set_option succeeds = true

-- `getError`: what SO_ERROR is, or errno when getsockopt fails.
abbrev pub get_error : Option ℕ → ℕ → ℕ
get_error none errno = errno
get_error (some error) errno = error

-- `getSendTimeout` and `getRecvTimeout`, by the context of the descriptor; -1 is `no_timeout`.
abbrev pub get_timeout_of : TimeoutType → Option FdCtx → ℕ
get_timeout_of kind none = no_timeout
get_timeout_of kind (some ctx) = get_timeout ctx kind

abbrev pub get_send_timeout : Option FdCtx → ℕ
get_send_timeout = get_timeout_of other

abbrev pub get_recv_timeout : Option FdCtx → ℕ
get_recv_timeout = get_timeout_of receive

-- The seconds and microseconds that `setSendTimeout` and `setRecvTimeout` pass on.
abbrev pub timeval_of : ℕ → ℕ × ℕ
timeval_of v = (v / 1000, v % 1000 * 1000)
