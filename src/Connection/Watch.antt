-- ===== src/Connection/Watch.antt =====
-- The watchers of src/connection.c between two callbacks.
use sniproxy.Prelude.{
  ◌<◌, ◌≡◌, refl, sym, ap, ◌∙◌, Bool, true, false, not, ◌||◌, Bool-cases, inl, inr, some, ltb,
  arith,
}
use sniproxy.Buffer.{Buffer, buffer_room, buffer_len}
use sniproxy.Connection.{
  State, new, accepted, parsed, resolving, resolved, connected, server_closed, client_closed,
  closed, Watcher, Connection, is_resolving, client_socket_open, server_socket_open,
}
use sniproxy.Connection.Socket.{
  reactivate_watcher, reactivate_client, reactivate_server, reactivate_watchers, check_watchers,
  is_watching,
}
use sniproxy.Connection.Close.{HasSockets}

-- What there is to wait for: a request with room for more of it, an answer, or bytes to be flushed.
abbrev pub IsWaiting : State → Buffer → Buffer → Type 0
IsWaiting accepted client server = 0 < buffer_room client
IsWaiting resolving client server = Unit
IsWaiting connected client server = buffer_room client ≡ 0 → 0 < buffer_len client
IsWaiting server_closed client server = 0 < buffer_len server
IsWaiting client_closed client server = 0 < buffer_len client
IsWaiting _ client server = 0 < 0

is_open-reactivate_watcher :
    (w : Watcher) (i o : Buffer) → (reactivate_watcher w i o).is_open ≡ w.is_open
is_open-reactivate_watcher w i o =
    elim (Bool-cases (ltb 0 (buffer_room i) || ltb 0 (buffer_len o))) [
      | inl t ↦ rw t
      | inr f ↦ rw f
    ]

HasSockets-reactivate_client :
    (con : Connection) → HasSockets con → HasSockets (reactivate_client con)
HasSockets-reactivate_client con h = elim (Bool-cases (client_socket_open con.state)) [
  | inr shut ↦ rw shut h
  | inl up ↦ rw up (record {
    client_fd =
        is_open-reactivate_watcher con.client_watcher con.client_buffer con.server_buffer
        ∙ h.client_fd;
    server_fd = h.server_fd;
    client_idle = λ k. cc;
    server_idle = h.server_idle;
    query = h.query;
  })
]

HasSockets-reactivate_server :
    (con : Connection) → HasSockets con → HasSockets (reactivate_server con)
HasSockets-reactivate_server con h = elim (Bool-cases (server_socket_open con.state)) [
  | inr shut ↦ rw shut h
  | inl up ↦ rw up (record {
    client_fd = h.client_fd;
    server_fd =
        is_open-reactivate_watcher con.server_watcher con.server_buffer con.client_buffer
        ∙ h.server_fd;
    client_idle = h.client_idle;
    server_idle = λ k. cc;
    query = h.query;
  })
]

-- Apart from the watchers two connections are the same.
pub record SameRest (con con' : Connection) : Type 0 where
  pub same_state : con'.state ≡ con.state
  pub same_client : con'.client_buffer ≡ con.client_buffer
  pub same_server : con'.server_buffer ≡ con.server_buffer
  pub same_header : con'.header_len ≡ con.header_len
  pub same_query : con'.query_handle ≡ con.query_handle
  pub same_name : con'.hostname ≡ con.hostname
  pub same_name_len : con'.hostname_len ≡ con.hostname_len
  pub same_peer : con'.client_addr ≡ con.client_addr
  pub same_backend : con'.server_addr ≡ con.server_addr
  pub same_proxy : con'.use_proxy_header ≡ con.use_proxy_header

always_same : (con : Connection) → SameRest con con
always_same con = record {
  same_state = refl;
  same_client = refl;
  same_server = refl;
  same_header = refl;
  same_query = refl;
  same_name = refl;
  same_name_len = refl;
  same_peer = refl;
  same_backend = refl;
  same_proxy = refl;
}

SameRest-reactivate_client : (con : Connection) → SameRest con (reactivate_client con)
SameRest-reactivate_client con = elim (Bool-cases (client_socket_open con.state)) [
  | inl t ↦ rw t (record {
    same_state = refl;
    same_client = refl;
    same_server = refl;
    same_header = refl;
    same_query = refl;
    same_name = refl;
    same_name_len = refl;
    same_peer = refl;
    same_backend = refl;
    same_proxy = refl;
  })
  | inr f ↦ rw f (always_same con)
]

SameRest-reactivate_server : (con : Connection) → SameRest con (reactivate_server con)
SameRest-reactivate_server con = elim (Bool-cases (server_socket_open con.state)) [
  | inl t ↦ rw t (record {
    same_state = refl;
    same_client = refl;
    same_server = refl;
    same_header = refl;
    same_query = refl;
    same_name = refl;
    same_name_len = refl;
    same_peer = refl;
    same_backend = refl;
    same_proxy = refl;
  })
  | inr f ↦ rw f (always_same con)
]

SameRest-trans :
    {con con' con'' : Connection} → SameRest con con' → SameRest con' con'' → SameRest con con''
SameRest-trans a b = record {
  same_state = b.same_state ∙ a.same_state;
  same_client = b.same_client ∙ a.same_client;
  same_server = b.same_server ∙ a.same_server;
  same_header = b.same_header ∙ a.same_header;
  same_query = b.same_query ∙ a.same_query;
  same_name = b.same_name ∙ a.same_name;
  same_name_len = b.same_name_len ∙ a.same_name_len;
  same_peer = b.same_peer ∙ a.same_peer;
  same_backend = b.same_backend ∙ a.same_backend;
  same_proxy = b.same_proxy ∙ a.same_proxy;
}

-- A socket that is shut is not watched.
shut_or_idle : (up active : Bool) → (up ≡ false → active ≡ false) → (up || not active) ≡ true
shut_or_idle true active h = refl
shut_or_idle false true h = sym (h refl)
shut_or_idle false false h = refl

check_watchers_lem :
    (con : Connection)
    → HasSockets con
    → (is_watching con.client_watcher || is_watching con.server_watcher || is_resolving con.state)
      ≡ true
    → check_watchers con ≡ some con
check_watchers_lem con h waiting =
    rw (shut_or_idle _ _ h.client_idle, shut_or_idle _ _ h.server_idle, waiting)

is_watching-reactivate_watcher :
    (w : Watcher) (i o : Buffer)
    → (ltb 0 (buffer_room i) || ltb 0 (buffer_len o)) ≡ true
    → is_watching (reactivate_watcher w i o) ≡ true
is_watching-reactivate_watcher w i o e = rw e e

or_true : (a b : Bool) → b ≡ true → (a || b) ≡ true
or_true true b e = refl
or_true false b e = e

-- The last `assert` of `reactivate_watchers`, by the state.
waiting_by_state :
    (con : Connection) (s : State)
    → con.state ≡ s
    → IsWaiting s con.client_buffer con.server_buffer
    → let c = reactivate_server (reactivate_client con) in
      (is_watching c.client_watcher || is_watching c.server_watcher || is_resolving c.state) ≡ true
waiting_by_state con accepted e w =
    let room : ltb 0 (buffer_room con.client_buffer) ≡ true = ground arith in rw (e, room)
waiting_by_state con resolving e w = or_true _ _ (
    ap is_resolving (
      (SameRest-reactivate_server (reactivate_client con)).same_state
      ∙ (SameRest-reactivate_client con).same_state
      ∙ e))
waiting_by_state con connected e w = elim (Bool-cases (ltb 0 (buffer_room con.client_buffer))) [
  | inl room ↦ rw (e, room)
  | inr full ↦
      let bytes : ltb 0 (buffer_len con.client_buffer) ≡ true = ground arith in
      elim (Bool-cases (ltb 0 (buffer_room con.server_buffer))) [
        | inl room ↦ elim (Bool-cases (ltb 0 (buffer_len con.server_buffer))) [
          | inl more ↦ rw (e, full, bytes, room, more)
          | inr none_left ↦ rw (e, full, bytes, room, none_left)
        ]
        | inr full' ↦ elim (Bool-cases (ltb 0 (buffer_len con.server_buffer))) [
          | inl more ↦ rw (e, full, bytes, full', more)
          | inr none_left ↦ rw (e, full, bytes, full', none_left)
        ]
      ]
]
waiting_by_state con server_closed e w =
    let bytes : ltb 0 (buffer_len con.server_buffer) ≡ true = ground arith in
    elim (Bool-cases (ltb 0 (buffer_room con.client_buffer))) [
      | inl room ↦ rw (e, bytes, room)
      | inr full ↦ rw (e, bytes, full)
    ]
waiting_by_state con client_closed e w =
    let bytes : ltb 0 (buffer_len con.client_buffer) ≡ true = ground arith in
    elim (Bool-cases (ltb 0 (buffer_room con.server_buffer))) [
      | inl room ↦ rw (e, bytes, room, or_true (is_watching con.client_watcher) true refl)
      | inr full ↦ rw (e, bytes, full, or_true (is_watching con.client_watcher) true refl)
    ]
waiting_by_state con new e w = absurd (omega arith)
waiting_by_state con parsed e w = absurd (omega arith)
waiting_by_state con resolved e w = absurd (omega arith)
waiting_by_state con closed e w = absurd (omega arith)

-- `reactivate_watchers` on a connection with something to wait for in its state, where the
-- descriptors that are open are those that its state tells of: every `assert` holds, so that some
-- watcher is active or the connection resolves, and nothing but the watchers changes.
pub reactivate_watchers_lem :
    (con : Connection)
    → HasSockets con
    → IsWaiting con.state con.client_buffer con.server_buffer
    → (con' : Connection) × (reactivate_watchers con ≡ some con')
      × HasSockets con'
      × SameRest con con'
reactivate_watchers_lem con h w =
    let c = reactivate_server (reactivate_client con) in
    let hc = HasSockets-reactivate_server _ (HasSockets-reactivate_client con h) in
    (
      c,
      check_watchers_lem c hc (waiting_by_state con con.state refl w),
      hc,
      SameRest-trans (SameRest-reactivate_client con)
          (SameRest-reactivate_server (reactivate_client con)),
    )
