-- ===== src/Connection/Inv/Advance.antt =====
-- The state specific logic of the callback of src/connection.c, one test after the other.
use sniproxy.Prelude.{
  ℕ, ◌<◌, ◌≡◌, ◌≢◌, inl, inr, refl, sym, subst, true, false, Option, Bytes, length, arith,
}
use sniproxy.Parse.{Result, fault}
use sniproxy.Buffer.{Buffer, buffer_room}
use sniproxy.Connection.{
  State, new, accepted, parsed, resolving, resolved, connected, server_closed, client_closed,
  closed, Connection, Listener, is_accepted, is_parsed, is_resolved,
}
use sniproxy.Connection.Server.{Lookup, initiate_server_connect}
use sniproxy.Connection.Callback.{Side, client, server, Event, advance}
use sniproxy.Connection.Close.{Succeeds, succeeds}
use sniproxy.Connection.Inv.{Inv, Succeeds-bind, Succeeds-map, Succeeds-if}
use sniproxy.Connection.Inv.Transfer.{Between, Mid}
use sniproxy.Connection.Inv.Request.{AfterParse, Parsed, parse_client_request_lem}
use sniproxy.Connection.Inv.Server.{
  AfterResolve, IsKnown, Resolved, Connecting, resolve_lem, connect_lem,
}

-- The states in which the state specific logic leaves a connection.
abbrev pub Settled : State → Buffer → Type 0
Settled accepted b = 0 < buffer_room b
Settled new b = 0 < 0
Settled parsed b = 0 < 0
Settled resolved b = 0 < 0
Settled _ b = Unit

pub record Advanced (listener : Listener) (con : Connection) : Type 0 where
  pub inv : Inv listener con
  pub settled : Settled con.state con.client_buffer

accepted_of_test : (s : State) → is_accepted s ≡ true → s ≡ accepted
accepted_of_test accepted e = refl
accepted_of_test _ e = cc

parsed_of_test : (s : State) → is_parsed s ≡ true → s ≡ parsed
parsed_of_test parsed e = refl
parsed_of_test _ e = cc

resolved_of_test : (s : State) → is_resolved s ≡ true → s ≡ resolved
resolved_of_test resolved e = refl
resolved_of_test _ e = cc

-- Where a test fails, the state is one that the next test may find.
AfterParse-other :
    (s : State) (b : Buffer) → Between client s → is_accepted s ≡ false → AfterParse s b
AfterParse-other accepted b h e = cc
AfterParse-other new b h e = h
AfterParse-other resolved b h e = h
AfterParse-other _ b h e = tt

AfterResolve-other :
    (s : State) (b : Buffer) → AfterParse s b → is_parsed s ≡ false → AfterResolve s b
AfterResolve-other accepted b h e = h
AfterResolve-other new b h e = h
AfterResolve-other parsed b h e = cc
AfterResolve-other _ b h e = tt

Settled-other : (s : State) (b : Buffer) → AfterResolve s b → is_resolved s ≡ false → Settled s b
Settled-other accepted b h e = h
Settled-other new b h e = h
Settled-other parsed b h e = h
Settled-other resolved b h e = cc
Settled-other _ b h e = tt

Settled-server : (s : State) (b : Buffer) → Between server s → Settled s b
Settled-server connected b h = tt
Settled-server server_closed b h = tt
Settled-server client_closed b h = tt
Settled-server closed b h = tt
Settled-server accepted b h = absurd (omega arith)
Settled-server new b h = h
Settled-server parsed b h = h
Settled-server resolved b h = h
Settled-server resolving b h = tt

Connecting-Advanced :
    {listener : Listener} (con : Connection) → Connecting listener con → Advanced listener con
Connecting-Advanced con c = record {
  inv = c.inv;
  settled = elim c.after [
    | inl e ↦ subst (λ s. Settled s con.client_buffer) (sym e) tt
    | inr (e, _) ↦ subst (λ s. Settled s con.client_buffer) (sym e) tt
  ];
}

module _ {listener : Listener} (message : 0 < length listener.abort_message)
    (parse : Bytes → Result Bytes) (safe : (bytes : Bytes) → parse bytes ≢ fault)
    (lookup : Option Bytes → ℕ → Lookup)
    (known : (name : Option Bytes) (n : ℕ) → IsKnown (lookup name n)) where
  pub advance_lem :
      (side : Side) (ev : Event) (con : Connection)
      → ev.query_ok ≡ true
      → Mid listener side con
      → Succeeds (Advanced listener) (advance listener parse lookup side ev con)
  advance_lem server ev con q m =
      succeeds
        (record { inv = m.inv; settled = Settled-server con.state con.client_buffer m.between })
  advance_lem client ev con q m =
      Succeeds-bind {P = Parsed listener} _ _
        (Succeeds-if (is_accepted con.state) _ _
          (λ t.
            parse_client_request_lem message parse ev.temp_ok con safe m.inv
              (accepted_of_test con.state t))
          (λ f. succeeds (record {
            inv = m.inv;
            after = AfterParse-other con.state con.client_buffer m.between f;
          })))
        (λ con1 p.
          Succeeds-bind {P = Resolved listener} _ _
            (Succeeds-if (is_parsed con1.state) _ _
              (λ t.
                resolve_lem message (lookup con1.hostname con1.hostname_len) ev.malloc_ok
                  ev.query_ok con1 (known con1.hostname con1.hostname_len) q p.inv
                  (parsed_of_test con1.state t))
              (λ f. succeeds (record {
                inv = p.inv;
                after = AfterResolve-other con1.state con1.client_buffer p.after f;
              })))
            (λ con2 r.
              Succeeds-if (is_resolved con2.state) _ _
                (λ t.
                  Succeeds-map (initiate_server_connect listener ev.calls con2) Connecting-Advanced
                    (connect_lem message ev.calls con2 r.inv (resolved_of_test con2.state t)))
                (λ f. succeeds (record {
                  inv = r.inv;
                  settled = Settled-other con2.state con2.client_buffer r.after f;
                }))))
