-- ===== src/Hook/Examples.antt =====
-- The theorems of hooked calls at a socket that answers after one EINTR and one wait.
use xupeng.Prelude.{◌≡◌, refl, true, false, none, some, [], ◌∷◌, ◌++◌, arith}
use xupeng.FdManager.{FdCtx, receive}
use xupeng.Hook.{
  failed, interrupted, again, in_progress, Wait, error, do_io, Checked, connect_with_timeout,
}
use xupeng.Hook.Control.{fcntl_set, fcntl_get}
use xupeng.Hook.Control.Flags.{fcntl_get-fcntl_set}
use xupeng.Hook.Waiting.{Balanced, do_io-Balanced, do_io-value}

abbrev socket : FdCtx
socket = record {
  is_init = true;
  is_socket = true;
  sys_nonblock = true;
  user_nonblock = false;
  is_closed = false;
  fd = 5;
  recv_timeout = 1000;
  send_timeout = 1000;
}

abbrev calm : Wait
calm = record { added = true; errno = 0; fired = false }

abbrev late : Wait
late = record { added = true; errno = 0; fired = true }

abbrev unchecked : Checked
unchecked = record { error = none; errno = 9 }

do_io-Balanced_example :
    Balanced (do_io true (some socket) receive (again ∷ again ∷ []) (calm ∷ late ∷ []))
    × Balanced (connect_with_timeout true (some socket) 50 in_progress late unchecked)
do_io-Balanced_example =
    do_io-Balanced true (some socket) receive (again ∷ again ∷ []) (calm ∷ late ∷ []) 50 in_progress
      late unchecked

do_io-value_example :
    (do_io true
      (some socket)
      receive
      ((interrupted ∷ again ∷ []) ++ (failed 104 ∷ []))
      (calm ∷ [])).result
    ≡ error 104
do_io-value_example =
    do_io-value socket receive (interrupted ∷ again ∷ []) (failed 104) [] (calm ∷ []) refl refl refl
      (refl, (refl, tt)) refl (refl, tt) (omega arith)

fcntl_get-fcntl_set_example :
    fcntl_get (fcntl_set (some socket) 0x402).0 (fcntl_set (some socket) 0x402).1 ≡ 0x402
fcntl_get-fcntl_set_example = fcntl_get-fcntl_set (some socket) 0x402 (omega arith)
