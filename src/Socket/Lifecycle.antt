-- ===== src/Socket/Lifecycle.antt =====
-- The life of a socket from its creation to its destruction.
use xupeng.Prelude.{
  ℕ, ◌≡◌, refl, ap, ◌∙◌, Bool, true, false, not, ◌||◌, Option, none, some, List, [], ◌∷◌, ◌++◌,
  ◌==◌, if◌then◌else◌, Bool-cases, inl, inr,
}
use xupeng.ByteArray.{Endian}
use xupeng.FdManager.{FdCtx}
use xupeng.Address.{Address, get_family}
use xupeng.Socket.{
  Socket, Call, Act, called, bind_call, Os, Done, doing, has_sock, is_valid, ensured, closing,
  close, is_open, init, accept, get_local_address, get_remote_addresses, reached, connect_at,
  connect_by, connect, reconnect_to, reconnect, probe, bound, bind_at, bind, listen_at, listen,
  create_tcp,
}
use xupeng.Socket.Descriptors.{
  open_after, held, open_after-append, closing-Balanced, connect-Balanced, bind-Balanced,
  reconnect-Balanced, listen-Balanced, close_none,
}

-- Only a socket with a descriptor is connected.
abbrev pub IsSound : Socket → Type 0
IsSound s = s.is_connected ≡ true → is_valid s ≡ true

close_unconnected : (s : Socket) → (close s).socket.is_connected ≡ false
unfolding close
close_unconnected s = by_state s.is_connected s.sock
  where
    by_state :
        (c : Bool) (o : Option ℕ)
        → (closing (record s { is_connected = c }) c o).socket.is_connected ≡ false
    by_state false none = refl
    by_state true none = refl
    by_state false (some fd) = refl
    by_state true (some fd) = refl

close-IsSound : (s : Socket) → IsSound (close s).socket
close-IsSound s e = let f = close_unconnected s in cc

ensured-IsSound : (os : Os) (s : Socket) → IsSound s → IsSound (ensured os s s.sock).socket
ensured-IsSound os s h e = by_sock s.sock os.socket (λ c. h c) e
  where
    by_sock :
        (o p : Option ℕ)
        → (s.is_connected ≡ true → has_sock o ≡ true)
        → (ensured (record os { socket = p }) (record s { sock = o }) o).socket.is_connected ≡ true
        → has_sock (ensured (record os { socket = p }) (record s { sock = o }) o).socket.sock ≡ true
    by_sock none none k c = k c
    by_sock none (some fd) k c = refl
    by_sock (some fd) p k c = refl

module _ (host : Endian) where
  reached-IsSound :
      (os : Os) (s : Socket) (b : Bool) → is_valid s ≡ true → IsSound (reached host os s b).socket
  unfolding get_local_address get_remote_addresses
  reached-IsSound os s false v = close-IsSound s
  reached-IsSound os s true v = λ e. v

  connect_at-IsSound :
      (os : Os) (s : Socket) (addr : Address) (call : Call)
      → IsSound s
      → IsSound (connect_at host os s addr call s.sock).socket
  connect_at-IsSound os s addr call h = by_sock s.sock refl
    where
      by_sock : (o : Option ℕ) → s.sock ≡ o → IsSound (connect_at host os s addr call o).socket
      by_sock none e = h
      by_sock (some fd) e = elim (Bool-cases (get_family addr == s.family)) [
        | inl f ↦ rw f (reached-IsSound os s os.connects (ap has_sock e))
        | inr f ↦ rw f h
      ]

  connect-IsSound :
      (os : Os) (s : Socket) (addr : Address) (timeout : Option ℕ)
      → IsSound s
      → IsSound (connect host os s addr timeout).socket
  unfolding connect
  connect-IsSound os s addr timeout h =
      let s' = record s { remote_address = some addr } in
      connect_at-IsSound os (ensured os s' s'.sock).socket addr (connect_by timeout)
        (ensured-IsSound os s' h)

  bound-IsSound : (os : Os) (s : Socket) (b : Bool) → IsSound s → IsSound (bound host os s b).socket
  unfolding get_local_address
  bound-IsSound os s false h = h
  bound-IsSound os s true h = h

  chosen-IsSound :
      (b : Bool) (d d' : Done)
      → IsSound d.socket
      → IsSound d'.socket
      → IsSound (if b then d else d').socket
  chosen-IsSound true d d' h h' = h
  chosen-IsSound false d d' h h' = h'

  bind_at-IsSound :
      (os probing : Os) (s : Socket) (addr : Address) (o : Option ℕ)
      → IsSound s
      → IsSound (bind_at host os probing s addr o).socket
  bind_at-IsSound os probing s addr none h = h
  bind_at-IsSound os probing s addr (some fd) h = elim (Bool-cases (get_family addr == s.family)) [
    | inl f ↦ rw f (
        chosen-IsSound (probe host probing addr).returned
          (record { returned = false; socket = s; acts = [] })
          (doing (called bind_call fd ∷ []) (bound host os s os.binds)) h
          (bound-IsSound os s os.binds h))
    | inr f ↦ rw f h
  ]

  bind-IsSound :
      (os probing : Os) (s : Socket) (addr : Address)
      → IsSound s
      → IsSound (bind host os probing s addr).socket
  unfolding bind
  bind-IsSound os probing s addr h =
      let ready = (ensured os s s.sock).socket in
      bind_at-IsSound os probing ready addr ready.sock (ensured-IsSound os s h)

  reconnect-IsSound :
      (os : Os) (s : Socket) (timeout : Option ℕ)
      → IsSound s
      → IsSound (reconnect host os s timeout).socket
  unfolding reconnect
  reconnect-IsSound os s timeout h = by_address s.remote_address
    where
      by_address : (a : Option Address) → IsSound (reconnect_to host os s a timeout).socket
      by_address none = h
      by_address (some a) = connect-IsSound os (record s { local_address = none }) a timeout h

listen-IsSound : (os : Os) (s : Socket) → IsSound s → IsSound (listen os s).socket
unfolding listen
listen-IsSound os s h = by_sock s.sock
  where
    by_sock : (o : Option ℕ) → IsSound (listen_at s os.listens o).socket
    by_sock none = h
    by_sock (some fd) = h

-- A call of a method, with whatever the system answers.
pub data Step (host : Endian) : Socket → List Act → Socket → Type 0 where
  connects :
      (os : Os) (s : Socket) (addr : Address) (timeout : Option ℕ)
      → Step host s (connect host os s addr timeout).acts (connect host os s addr timeout).socket
  reconnects :
      (os : Os) (s : Socket) (timeout : Option ℕ)
      → Step host s (reconnect host os s timeout).acts (reconnect host os s timeout).socket
  binds :
      (os probing : Os) (s : Socket) (addr : Address)
      → Step host s (bind host os probing s addr).acts (bind host os probing s addr).socket
  listens : (os : Os) (s : Socket) → Step host s (listen os s).acts (listen os s).socket
  closes : (s : Socket) → Step host s (close s).acts (close s).socket

pub data Run (host : Endian) : Socket → List Act → Socket → Type 0 where
  still : (s : Socket) → Run host s [] s
  after :
      (s s' s'' : Socket) (acts acts' : List Act)
      → Run host s acts s'
      → Step host s' acts' s''
      → Run host s (acts ++ acts') s''

Step-Balanced :
    (host : Endian) (s s' : Socket) (acts : List Act) (fds : List ℕ)
    → Step host s acts s'
    → open_after acts (held s.sock fds) ≡ held s'.sock fds
Step-Balanced host _ _ _ fds (connects os s addr timeout) =
    connect-Balanced host os s addr timeout fds
Step-Balanced host _ _ _ fds (reconnects os s timeout) = reconnect-Balanced host os s timeout fds
Step-Balanced host _ _ _ fds (binds os probing s addr) = bind-Balanced host os probing s addr fds
Step-Balanced host _ _ _ fds (listens os s) = listen-Balanced os s fds
Step-Balanced host _ _ _ fds (closes s) = closing-Balanced s fds

Step-IsSound :
    (host : Endian) (s s' : Socket) (acts : List Act) → Step host s acts s' → IsSound s → IsSound s'
Step-IsSound host _ _ _ (connects os s addr timeout) h = connect-IsSound host os s addr timeout h
Step-IsSound host _ _ _ (reconnects os s timeout) h = reconnect-IsSound host os s timeout h
Step-IsSound host _ _ _ (binds os probing s addr) h = bind-IsSound host os probing s addr h
Step-IsSound host _ _ _ (listens os s) h = listen-IsSound os s h
Step-IsSound host _ _ _ (closes s) h = close-IsSound s

Run-Balanced :
    (host : Endian) (s s' : Socket) (acts : List Act) (fds : List ℕ)
    → Run host s acts s'
    → open_after acts (held s.sock fds) ≡ held s'.sock fds
Run-Balanced host _ _ _ fds (still s) = refl
Run-Balanced host _ _ _ fds (after s s' s'' acts acts' run step) =
    open_after-append acts acts' (held s.sock fds)
    ∙ ap (λ t. open_after acts' t) (Run-Balanced host s s' acts fds run)
    ∙ Step-Balanced host s' s'' acts' fds step

Run-IsSound :
    (host : Endian) (s s' : Socket) (acts : List Act) → Run host s acts s' → IsSound s → IsSound s'
Run-IsSound host _ _ _ (still s) h = h
Run-IsSound host _ _ _ (after s s' s'' acts acts' run step) h =
    Step-IsSound host s' s'' acts' step (Run-IsSound host s s' acts run h)

connected_valid : (s : Socket) → IsSound s → (not s.is_connected || is_valid s) ≡ true
connected_valid s h = elim (Bool-cases s.is_connected) [
  | inl e ↦ let v = h e in rw (e, v) refl
  | inr e ↦ rw e refl
]

-- After any calls of connect, reconnect, bind, listen and close on a TCP socket, whatever the system answers,
-- the descriptor of the socket is the only one that they have left open, the socket has one if it is
-- connected, and closing it, as the destructor does, leaves none open.
pub Run-create_tcp :
    (host : Endian) (family : ℕ) (acts : List Act) (s : Socket) (fds : List ℕ)
    → Run host (create_tcp family) acts s
    → (open_after acts fds ≡ held s.sock fds)
      × ((not s.is_connected || is_valid s) ≡ true)
      × (open_after (acts ++ (close s).acts) fds ≡ fds)
Run-create_tcp host family acts s fds run =
    let balanced = Run-Balanced host (create_tcp family) s acts fds run in
    (
      balanced,
      connected_valid s (Run-IsSound host (create_tcp family) s acts run (λ e. cc)),
      open_after-append acts (close s).acts fds
          ∙ ap (λ t. open_after (close s).acts t) balanced
          ∙ closing-Balanced s fds
          ∙ ap (λ o. held o fds) (close_none s),
    )

-- When FdManager has no open socket for the descriptor that accept gets, accept returns null and leaves the
-- descriptor open.
pub accept-leaks :
    (host : Endian) (os : Os) (s : Socket) (fd : ℕ) (ctx : Option FdCtx) (fds : List ℕ)
    → is_open ctx ≡ false
    → ((accept host os s (some fd) ctx).0 ≡ none)
      × (open_after (accept host os s (some fd) ctx).1 fds ≡ fd ∷ fds)
unfolding accept init
accept-leaks host os s fd ctx fds h = (rw h refl, rw h refl)
