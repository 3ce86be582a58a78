-- ===== src/Transport/Agreement.antt =====
-- A device reads the same arguments from the same bytes, whatever kind its session has.
use koheron_server.Base.{ℕ, ◌≡◌, refl, ◌∙◌, subst, some, List, [], ◌∷◌, Bool, >>=-eq-some}
use koheron_server.Buffer.{Command}
use koheron_server.Tcp.Receive.{ReadResult, Delivers}
use koheron_server.Websocket.Session.Arguments.{At}
use koheron_server.Sessions.{Kind, tcp, unix, websock}
use koheron_server.Transport.{Request, tuple, string, vector, array, Item, perform, perform_all}
use koheron_server.Transport.Items.{item, items, some_pair}
use koheron_server.Transport.Sockets.{tcp-item}
use koheron_server.Transport.Payloads.{ws-item}

module _ {S : Type 0} (read : S → ℕ → ReadResult × S) (d : Delivers read) (can_resize : ℕ → Bool)
    (junk : List ℕ) where
  -- What is left to read of a session's side.
  abbrev pub Holds : Kind → Command × S → List ℕ → Type 0
  Holds tcp (cmd, s) bs = d.content s ≡ bs
  Holds unix (cmd, s) bs = d.content s ≡ bs
  Holds websock (cmd, s) bs = At cmd.payload bs

  -- A Unix session's functions are those of a TCP session.
  perform_unix :
      (r : Request) (st : Command × S)
      → perform read can_resize junk unix r st ≡ perform read can_resize junk tcp r st
  unfolding perform
  perform_unix (tuple ts) st = refl
  perform_unix string st = refl
  perform_unix (vector size) st = refl
  perform_unix (array t n) st = refl

  perform-item :
      (kind : Kind) (r : Request) (bs : List ℕ) (cmd : Command) (s : S) {i : Item} {rest : List ℕ}
      → item can_resize r bs ≡ some (i, rest)
      → Holds kind (cmd, s) bs
      → (cmd' : Command) × (s' : S) × (perform read can_resize junk kind r (cmd, s)
          ≡ some (i, cmd', s'))
        × Holds kind (cmd', s') rest
  perform-item tcp r bs cmd s e h =
      let (s', run, left) = tcp-item read d can_resize junk r bs cmd s e h in (cmd, s', run, left)
  perform-item unix r bs cmd s e h =
      let (s', run, left) = tcp-item read d can_resize junk r bs cmd s e h in
      (cmd, s', perform_unix r (cmd, s) ∙ run, left)
  perform-item websock r bs cmd s e h =
      let (cmd', run, left) = ws-item read can_resize junk r bs cmd s e h in (cmd', s, run, left)

  -- Whatever the kind of its session, a device that asks for any sequence of tuples, strings,
  -- vectors and arrays gets just the items that the bytes of the command say, in order, and the
  -- session then stands behind them: for a TCP or Unix session the bytes are those that its socket
  -- delivers, for a WebSocket session those of the command's payload. The bytes must be complete,
  -- no item longer than CMD_PAYLOAD_BUFFER_LEN, and each length one that can be allocated.
  pub perform_all-items :
      (kind : Kind) (rs : List Request) (bs : List ℕ) (cmd : Command) (s : S) {is : List Item}
      {rest : List ℕ}
      → items can_resize rs bs ≡ some (is, rest)
      → Holds kind (cmd, s) bs
      → (cmd' : Command) × (s' : S) × (perform_all read can_resize junk kind rs (cmd, s)
          ≡ some (is, cmd', s'))
        × Holds kind (cmd', s') rest
  unfolding perform_all items
  perform_all-items kind [] bs cmd s e h =
      let (same, r) = some_pair e in (cmd, s, rw same refl, subst (Holds kind (cmd, s)) r h)
  perform_all-items kind (r ∷ rs) bs cmd s e h =
      let ((i, behind), first, e₁) = >>=-eq-some (item can_resize r bs) _ e in
      let ((is, left), later, e₂) = >>=-eq-some (items can_resize rs behind) _ e₁ in
      let (same, left_is) = some_pair e₂ in
      let (cmd₁, s₁, run, h₁) = perform-item kind r bs cmd s first h in
      let (cmd', s', runs, h') = perform_all-items kind rs behind cmd₁ s₁ later h₁ in
      (cmd', s', rw (run, runs) (rw same refl), subst (Holds kind (cmd', s')) left_is h')
