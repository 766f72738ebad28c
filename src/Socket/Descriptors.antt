-- ===== src/Socket/Descriptors.antt =====
-- The descriptors that every method of a socket opens and closes.
use xupeng.Prelude.{
  ℕ, ◌≡◌, refl, ap, ◌∙◌, Bool, true, false, Option, none, some, List, [], ◌∷◌, ◌++◌, ◌==◌,
  if◌then◌else◌, eq→==, Bool-cases, inl, inr,
}
use xupeng.ByteArray.{Endian}
use xupeng.Address.{Address, ipv4, ipv6, unix, unknown, get_family, af_unix}
use xupeng.Socket.{
  Socket, Call, Act, opened, closed, called, unlinked, bind_call, Os, Done, doing, sock_stream,
  new_socket, init_sock, ensured, closing, close, get_local_address, get_remote_addresses, reached,
  connect_at, connect_by, connect, reconnect, probed, probe, bound, bind_at, bind, reconnect_to,
  listen_at, listen,
}

-- The descriptors that are open after calls, the last one opened first.
abbrev pub without : ℕ → List ℕ → List ℕ
without fd [] = []
without fd (x ∷ xs) = let rest = x ∷ without fd xs in if x == fd then xs else rest

abbrev pub open_after : List Act → List ℕ → List ℕ
open_after [] fds = fds
open_after (opened fd ∷ acts) fds = open_after acts (fd ∷ fds)
open_after (closed fd ∷ acts) fds = open_after acts (without fd fds)
open_after (called call fd ∷ acts) fds = open_after acts fds
open_after (unlinked addr ∷ acts) fds = open_after acts fds

abbrev pub held : Option ℕ → List ℕ → List ℕ
held none fds = fds
held (some fd) fds = fd ∷ fds

pub open_after-append :
    (xs ys : List Act) (fds : List ℕ)
    → open_after (xs ++ ys) fds ≡ open_after ys (open_after xs fds)
open_after-append [] ys fds = refl
open_after-append (opened fd ∷ xs) ys fds = open_after-append xs ys (fd ∷ fds)
open_after-append (closed fd ∷ xs) ys fds = open_after-append xs ys (without fd fds)
open_after-append (called call fd ∷ xs) ys fds = open_after-append xs ys fds
open_after-append (unlinked addr ∷ xs) ys fds = open_after-append xs ys fds

-- A method that opens and closes what the socket gains and loses, whatever else is open.
abbrev pub Balanced : Socket → Done → Type 0
Balanced s d = (fds : List ℕ) → open_after d.acts (held s.sock fds) ≡ held d.socket.sock fds

open_after-init_sock : (s : Socket) (fd : ℕ) (fds : List ℕ) → open_after (init_sock s fd) fds ≡ fds
open_after-init_sock s fd fds = elim (Bool-cases (s.type == sock_stream)) [
  | inl e ↦ rw e refl
  | inr e ↦ rw e refl
]

pub closing-Balanced : (s : Socket) → Balanced s (close s)
unfolding close
closing-Balanced s fds = by_state s.is_connected s.sock
  where
    by_state :
        (c : Bool) (o : Option ℕ)
        → open_after (closing s c o).acts (held o fds)
          ≡ held (closing (record s { sock = o }) c o).socket.sock fds
    by_state false none = refl
    by_state true none = refl
    by_state false (some fd) = rw (eq→== fd fd refl) refl
    by_state true (some fd) = rw (eq→== fd fd refl) refl

pub close_none : (s : Socket) → (close s).socket.sock ≡ none
unfolding close
close_none s = by_state s.is_connected s.sock
  where
    by_state : (c : Bool) (o : Option ℕ) → (closing (record s { sock = o }) c o).socket.sock ≡ none
    by_state false none = refl
    by_state true none = refl
    by_state c (some fd) = refl

module _ (host : Endian) where
  reached-Balanced : (os : Os) (s : Socket) (b : Bool) → Balanced s (reached host os s b)
  unfolding get_local_address get_remote_addresses
  reached-Balanced os s false fds = closing-Balanced s fds
  reached-Balanced os s true fds = refl

  connect_at-Balanced :
      (os : Os) (s : Socket) (addr : Address) (call : Call)
      → Balanced s (connect_at host os s addr call s.sock)
  connect_at-Balanced os s addr call fds = by_sock s.sock
    where
      by_sock :
          (o : Option ℕ)
          → open_after (connect_at host os s addr call o).acts (held s.sock fds)
            ≡ held (connect_at host os s addr call o).socket.sock fds
      by_sock none = refl
      by_sock (some fd) = elim (Bool-cases (get_family addr == s.family)) [
        | inl e ↦ rw e (reached-Balanced os s os.connects fds)
        | inr e ↦ rw e refl
      ]

  ensured-Balanced : (os : Os) (s : Socket) → Balanced s (ensured os s s.sock)
  ensured-Balanced os s fds = by_sock s.sock os.socket
    where
      by_sock :
          (o p : Option ℕ)
          → open_after (ensured (record os { socket = p }) s o).acts (held o fds)
            ≡ held (ensured (record os { socket = p }) (record s { sock = o }) o).socket.sock fds
      by_sock none none = refl
      by_sock none (some fd) = open_after-init_sock s fd (fd ∷ fds)
      by_sock (some fd) p = refl

  -- Two methods in turn.
  then-Balanced :
      (s : Socket) (d d' : Done)
      → Balanced s d
      → Balanced d.socket d'
      → Balanced s (doing d.acts d')
  then-Balanced s d d' h h' fds =
      open_after-append d.acts d'.acts (held s.sock fds)
      ∙ ap (λ t. open_after d'.acts t) (h fds)
      ∙ h' fds

  pub connect-Balanced :
      (os : Os) (s : Socket) (addr : Address) (timeout : Option ℕ)
      → Balanced s (connect host os s addr timeout)
  unfolding connect
  connect-Balanced os s addr timeout =
      let s' = record s { remote_address = some addr } in
      let ready = ensured os s' s'.sock in
      then-Balanced s ready
        (connect_at host os ready.socket addr (connect_by timeout) ready.socket.sock)
        (ensured-Balanced os s') (connect_at-Balanced os ready.socket addr (connect_by timeout))

  unlinking :
      (b : Bool) (addr : Address) (fds : List ℕ)
      → open_after (if b then [] else unlinked addr ∷ []) fds ≡ fds
  unlinking true addr fds = refl
  unlinking false addr fds = refl

  probed-Balanced :
      (os : Os) (addr : Address) (fds : List ℕ) → open_after (probed host os addr).acts fds ≡ fds
  probed-Balanced os addr fds =
      let tried = connect host os (new_socket af_unix sock_stream 0) addr none in
      let gone = close tried.socket in
      let path = if tried.returned then [] else unlinked addr ∷ [] in
      open_after-append tried.acts (path ++ gone.acts) fds
      ∙ ap (λ t. open_after (path ++ gone.acts) t)
          (connect-Balanced os (new_socket af_unix sock_stream 0) addr none fds)
      ∙ open_after-append path gone.acts (held tried.socket.sock fds)
      ∙ ap (λ t. open_after gone.acts t)
          (unlinking tried.returned addr (held tried.socket.sock fds))
      ∙ closing-Balanced tried.socket fds
      ∙ ap (λ o. held o fds) (close_none tried.socket)

  probe-Balanced :
      (os : Os) (addr : Address) (fds : List ℕ) → open_after (probe host os addr).acts fds ≡ fds
  probe-Balanced os (ipv4 a) fds = refl
  probe-Balanced os (ipv6 a) fds = refl
  probe-Balanced os (unix a n) fds = probed-Balanced os (unix a n) fds
  probe-Balanced os (unknown a) fds = refl

  bound-Balanced : (os : Os) (s : Socket) (b : Bool) → Balanced s (bound host os s b)
  unfolding get_local_address
  bound-Balanced os s false fds = refl
  bound-Balanced os s true fds = refl

  ended-Balanced :
      (b : Bool) (s : Socket) (d d' : Done)
      → Balanced s d
      → Balanced s d'
      → Balanced s (if b then d else d')
  ended-Balanced true s d d' h h' = h
  ended-Balanced false s d d' h h' = h'

  bind_at-Balanced :
      (os probing : Os) (s : Socket) (addr : Address)
      → Balanced s (bind_at host os probing s addr s.sock)
  bind_at-Balanced os probing s addr fds = by_sock s.sock
    where
      answer : Done
      answer = probe host probing addr

      stop : Done
      stop = record { returned = false; socket = s; acts = [] }

      go_on : ℕ → Done
      go_on fd = doing (called bind_call fd ∷ []) (bound host os s os.binds)

      by_sock :
          (o : Option ℕ)
          → open_after (bind_at host os probing s addr o).acts (held s.sock fds)
            ≡ held (bind_at host os probing s addr o).socket.sock fds
      by_sock none = refl
      by_sock (some fd) = elim (Bool-cases (get_family addr == s.family)) [
        | inl e ↦ rw e (
            open_after-append answer.acts (if answer.returned then stop else go_on fd).acts
              (held s.sock fds)
            ∙ ap (λ t. open_after (if answer.returned then stop else go_on fd).acts t)
                (probe-Balanced probing addr (held s.sock fds))
            ∙ ended-Balanced answer.returned s stop (go_on fd) (λ f. refl)
                (λ f. bound-Balanced os s os.binds f) fds)
        | inr e ↦ rw e refl
      ]

  pub bind-Balanced :
      (os probing : Os) (s : Socket) (addr : Address) → Balanced s (bind host os probing s addr)
  unfolding bind
  bind-Balanced os probing s addr =
      let ready = ensured os s s.sock in
      then-Balanced s ready (bind_at host os probing ready.socket addr ready.socket.sock)
        (ensured-Balanced os s) (bind_at-Balanced os probing ready.socket addr)

  pub reconnect-Balanced :
      (os : Os) (s : Socket) (timeout : Option ℕ) → Balanced s (reconnect host os s timeout)
  unfolding reconnect
  reconnect-Balanced os s timeout fds = by_address s.remote_address
    where
      by_address :
          (a : Option Address)
          → open_after (reconnect_to host os s a timeout).acts (held s.sock fds)
            ≡ held (reconnect_to host os s a timeout).socket.sock fds
      by_address none = refl
      by_address (some a) = connect-Balanced os (record s { local_address = none }) a timeout fds

pub listen-Balanced : (os : Os) (s : Socket) → Balanced s (listen os s)
unfolding listen
listen-Balanced os s fds = by_sock s.sock
  where
    by_sock :
        (o : Option ℕ)
        → open_after (listen_at s os.listens o).acts (held s.sock fds)
          ≡ held (listen_at s os.listens o).socket.sock fds
    by_sock none = refl
    by_sock (some fd) = refl
