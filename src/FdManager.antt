-- ===== src/FdManager.antt =====
-- xupeng/fd_manager.h and fd_manager.cc: what is kept of each file descriptor, and the table of it.
-- What fstat says of a new descriptor is an argument: `none` when it fails, else whether it is a
-- socket. Timeouts are 64-bit words, -1 being 2 ^ 64 - 1. A descriptor is not negative, and a shared
-- pointer in the table is the context it points to or `none`.
use xupeng.Prelude.{
  ℕ, zero, suc, ◌+◌, ◌-◌, ◌^◌, Bool, true, false, not, ◌&&◌, Option, none, some, List, length,
  get_elem?, set, replicate, ltb, leb, if◌then◌else◌,
}
use xupeng.Prelude.Outcome.{Outcome, ok, faults}
pub mod Lookup
mod Examples

pub record FdCtx : Type 0 where
  pub is_init : Bool
  pub is_socket : Bool
  pub sys_nonblock : Bool
  pub user_nonblock : Bool
  pub is_closed : Bool
  pub fd : ℕ
  pub recv_timeout : ℕ
  pub send_timeout : ℕ

abbrev pub no_timeout : ℕ
no_timeout = 2 ^ 64 - 1

-- `S_ISSOCK`, when fstat has succeeded.
abbrev pub succeeded : Option Bool → Bool
succeeded none = false
succeeded (some socket) = true

abbrev pub socket_of : Option Bool → Bool
socket_of none = false
socket_of (some socket) = socket

-- `FdCtx::init`. `~(flags & O_NONBLOCK)` is never zero, so a socket is always set to not block.
pub init : FdCtx → Option Bool → FdCtx
init c stat = if c.is_init then c else record c {
  is_init = succeeded stat;
  is_socket = socket_of stat;
  sys_nonblock = socket_of stat;
  user_nonblock = false;
  is_closed = false;
  recv_timeout = no_timeout;
  send_timeout = no_timeout;
}

-- `FdCtx::FdCtx`.
pub new_ctx : ℕ → Option Bool → FdCtx
unfolding init
new_ctx fd stat =
    init
      (record {
        is_init = false;
        is_socket = false;
        sys_nonblock = false;
        user_nonblock = false;
        is_closed = false;
        fd = fd;
        recv_timeout = no_timeout;
        send_timeout = no_timeout;
      })
      stat

-- The option of setsockopt: SO_RCVTIMEO, or anything else.
pub data TimeoutType : Type 0 where
  receive other : TimeoutType

pub set_timeout : FdCtx → TimeoutType → ℕ → FdCtx
set_timeout c receive v = record c { recv_timeout = v }
set_timeout c other v = record c { send_timeout = v }

pub get_timeout : FdCtx → TimeoutType → ℕ
get_timeout c receive = c.recv_timeout
get_timeout c other = c.send_timeout

pub record FdManager : Type 0 where
  pub datas : List (Option FdCtx)

pub empty_manager : FdManager
empty_manager = record { datas = replicate 64 none }

-- `get` from where the entry is known, in the table or not (`none`).
pub get_entry :
    FdManager → ℕ → Bool → Option Bool → Option (Option FdCtx) → Outcome (FdManager × Option FdCtx)
get_entry m fd false stat none = ok (m, none)
-- `m_datas[fd]` is behind the end.
get_entry m fd true stat none = faults
get_entry m fd auto_create stat (some (some c)) = ok (m, some c)
get_entry m fd false stat (some none) = ok (m, none)
get_entry m fd true stat (some none) =
    ok (record { datas = set m.datas fd (some (new_ctx fd stat)) }, some (new_ctx fd stat))

pub get : FdManager → ℕ → Bool → Option Bool → Outcome (FdManager × Option FdCtx)
unfolding get_entry
get m fd auto_create stat = get_entry m fd auto_create stat (get_elem? m.datas fd)

pub del : FdManager → ℕ → FdManager
del m fd = if leb (length m.datas) fd then m else record { datas = set m.datas fd none }
