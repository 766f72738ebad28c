-- ===== src/Hook/Control.antt =====
-- xupeng/hook.cc: the sleeps, close, fcntl and ioctl. For fcntl the argument that goes on to the system call,
-- and the result made of its answer, are what the hook decides.
pub mod Flags
use xupeng.Prelude.{
  ℕ, ◌+◌, ◌-◌, ◌*◌, ◌/◌, ◌%◌, ◌^◌, Bool, true, false, not, ◌&&◌, ◌||◌, Option, none, some, List, [],
  ◌∷◌, ◌++◌, ◌==◌, bit_and, bit_or, if◌then◌else◌,
}
use xupeng.Prelude.Outcome.{Outcome, ok, ◌>>=◌}
use xupeng.FdManager.{FdCtx, FdManager, get, del}
use xupeng.Hook.{Act, calling, yielding, adding_timer}

-- A sleep of `ms` milliseconds: a timer that schedules the fiber again, and a yield.
abbrev pub sleeping : Bool → ℕ → List Act
sleeping false ms = calling ∷ []
sleeping true ms = adding_timer ms ∷ yielding ∷ []

pub sleep : Bool → ℕ → List Act
sleep enabled seconds = sleeping enabled (seconds * 1000 % 2 ^ 32)

pub usleep : Bool → ℕ → List Act
usleep enabled usec = sleeping enabled (usec / 1000)

abbrev pub o_nonblock : ℕ
o_nonblock = 2048

abbrev pub set_nonblock : ℕ → ℕ
set_nonblock v = bit_or v o_nonblock

-- `v & ~O_NONBLOCK` on an int as its 32 bits.
abbrev pub clear_nonblock : ℕ → ℕ
clear_nonblock v = bit_and v (2 ^ 32 - 1 - o_nonblock)

-- The context is one of an open socket.
abbrev pub hooked : Option FdCtx → Bool
hooked none = false
hooked (some c) = not (c.is_closed || not c.is_socket)

-- F_SETFL, and with it F_DUPFD, F_DUPFD_CLOEXEC and F_SETFD: the context after it and the argument that is
-- passed on.
abbrev pub set_flags_of : FdCtx → ℕ → Option FdCtx × ℕ
set_flags_of c arg = (
  some (record c { user_nonblock = not (bit_and arg o_nonblock == 0) }),
  if c.sys_nonblock then set_nonblock arg else clear_nonblock arg,
)

unfoldable pub fcntl_set : Option FdCtx → ℕ → Option FdCtx × ℕ
fcntl_set none arg = (none, arg)
fcntl_set (some c) arg =
    if c.is_closed || not c.is_socket then (some c, arg) else set_flags_of c arg

-- F_GETFL, and with it F_GETFD: the result, by what the system call answers.
unfoldable pub fcntl_get : Option FdCtx → ℕ → ℕ
fcntl_get none answer = answer
fcntl_get (some c) answer =
    if c.is_closed || not c.is_socket
    then answer
    else if c.user_nonblock
    then set_nonblock answer
    else clear_nonblock answer

-- ioctl with FIONBIO, whose argument goes on as it is; `on` is whether it is not 0.
pub ioctl_fionbio : Option FdCtx → Bool → Option FdCtx
ioctl_fionbio none on = none
ioctl_fionbio (some c) on =
    if c.is_closed || not c.is_socket then some c else some (record c { user_nonblock = on })

-- What close does besides closing: it cancels the events, if there is an IOManager, and drops the context.
pub data CloseAct : Type 0 where
  cancelling_all deleting closing : ℕ → CloseAct

abbrev pub dropping : Bool → FdManager → ℕ → Option FdCtx → FdManager × List CloseAct
dropping iom m fd none = (m, closing fd ∷ [])
dropping iom m fd (some c) =
    (del m fd, (if iom then cancelling_all fd ∷ [] else []) ++ (deleting fd ∷ closing fd ∷ []))

unfoldable pub close : Bool → Bool → FdManager → ℕ → Outcome (FdManager × List CloseAct)
close false iom m fd = ok (m, closing fd ∷ [])
close true iom m fd = do found ← get m fd false none; ok (dropping iom (found.0) fd (found.1))
