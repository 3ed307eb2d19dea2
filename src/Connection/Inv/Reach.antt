-- ===== src/Connection/Inv/Reach.antt =====
-- The connections of src/connection.c that callbacks lead to, in any order and number.
use sniproxy.Prelude.{ℕ, ◌<◌, ◌≡◌, ◌≢◌, sym, subst, Option, none, some, Bytes, length}
use sniproxy.Parse.{Result, fault}
use sniproxy.Connection.{Connection, Listener, ◌>>=◌}
use sniproxy.Connection.Server.{Lookup, Answer, Calls, resolv_cb}
use sniproxy.Connection.Callback.{Side, Event, Outcome, stands, connection_cb}
use sniproxy.Connection.Close.{Succeeds, succeeds}
use sniproxy.Connection.Inv.{Succeeds-bind}
use sniproxy.Connection.Inv.Server.{IsKnown, IsExpected}
use sniproxy.Connection.Inv.Rest.{IsResting, IsKept}
use sniproxy.Connection.Inv.Run.{Happens, connection_cb_lem, resolv_cb_lem}

module _ (listener : Listener) (parse : Bytes → Result Bytes)
    (lookup : Option Bytes → ℕ → Lookup) where
  -- A callback of either kind, with what comes of it: `none` where an `assert` of it fails.
  pub data Step (con : Connection) : Option Outcome → Type 0 where
    on_event :
        (side : Side) (ev : Event) {o : Option Outcome}
        → Happens side ev con
        → o ≡ connection_cb listener parse lookup side ev con
        → Step con o
    on_answer :
        (calls : Calls) (result : Option Answer) {o : Option Outcome}
        → IsExpected result
        → o ≡ (resolv_cb listener calls result con >>= λ con'. some (stands con'))
        → Step con o

  -- Nothing happens to a connection that was freed, or behind a failure.
  pub data Reaches (con : Connection) : Option Outcome → Type 0 where
    at_first : {o : Option Outcome} → o ≡ some (stands con) → Reaches con o
    later :
        (mid : Connection) {m o : Option Outcome}
        → Reaches con m
        → m ≡ some (stands mid)
        → Step mid o
        → Reaches con o

  module _ (message : 0 < length listener.abort_message)
      (safe : (bytes : Bytes) → parse bytes ≢ fault)
      (known : (name : Option Bytes) (n : ℕ) → IsKnown (lookup name n)) where
    Step-IsKept :
        {con : Connection} {o : Option Outcome}
        → IsResting listener con
        → Step con o
        → Succeeds (IsKept listener) o
    Step-IsKept {con} {o} r (on_event side ev h e) =
        subst (Succeeds (IsKept listener)) (sym e)
          (connection_cb_lem message parse safe lookup known side ev con r h)
    Step-IsKept {con} {o} r (on_answer calls result expected e) =
        subst (Succeeds (IsKept listener)) (sym e) (
          Succeeds-bind (resolv_cb listener calls result con) _
            (resolv_cb_lem message parse safe lookup known calls result con expected r)
            (λ con' rest. succeeds rest))

    of_stands :
        (con : Connection) (m : Option Outcome)
        → m ≡ some (stands con)
        → Succeeds (IsKept listener) m
        → IsResting listener con
    of_stands con (some a) e (succeeds p) =
        let same : a ≡ stands con = cc in subst (IsKept listener) same p
    of_stands con none e h = elim h [ ]

    -- The same from any connection at rest.
    pub Reaches-IsKept :
        {con : Connection} {o : Option Outcome}
        → IsResting listener con
        → Reaches con o
        → Succeeds (IsKept listener) o
    Reaches-IsKept r (at_first e) = subst (Succeeds (IsKept listener)) (sym e) (succeeds r)
    Reaches-IsKept r (later mid reached e step) =
        Step-IsKept (of_stands mid _ e (Reaches-IsKept r reached)) step
