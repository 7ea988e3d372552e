-- ===== src/Relay/Sessions/Connections.antt =====
-- crates/relay/src/ws/session.rs: connections, subscriptions and outbound channels of a session.
use scriptum.Prelude.{
  ℕ, zero, suc, ◌-◌, none, some, [], ◌≡◌, arith, ap, ◌∙◌, ltb, ◌<◌, nat_eq, if◌then◌else◌,
}
use scriptum.Prelude.HashMap
use scriptum.Prelude.HashMap.{get-insert_self}
use scriptum.Prelude.Numbers.{Uuid}
use scriptum.Relay.Sessions.{SyncSessionRecord, SyncSessionStore, disconnect, mark_disconnected}

-- `n` sockets of a session close.
pub close_sockets : ℕ → Uuid → SyncSessionStore → SyncSessionStore
close_sockets zero id sessions = sessions
close_sockets (suc n) id sessions = close_sockets n id (mark_disconnected id sessions)

-- What is left of a session: while sockets are open only their number changes, and with the last one
-- the subscriptions and the outbound channel go.
abbrev pub closed : ℕ → SyncSessionRecord → SyncSessionRecord
closed n s =
    if ltb n s.active_connections
    then record s { active_connections = s.active_connections - n }
    else record s { active_connections = 0; subscriptions = []; outbound = none }

closed_more :
    (n : ℕ) (s : SyncSessionRecord) → closed (suc n) (disconnect s) ≡ closed (suc (suc n)) s
unfolding disconnect
closed_more n s = ground arith

disconnect-closed : (s : SyncSessionRecord) → disconnect s ≡ closed 1 s
unfolding disconnect
disconnect-closed s = ground arith

disconnected :
    (id : Uuid) (sessions : SyncSessionStore) (s : SyncSessionRecord)
    → HashMap.get id sessions ≡ some s
    → HashMap.get id (mark_disconnected id sessions) ≡ some (disconnect s)
unfolding mark_disconnected
disconnected id sessions s e =
    rw (e, mark_disconnected) (get-insert_self id (disconnect s) sessions)

-- Closing `n` sockets of a session, at least one, leaves it with its subscriptions and its outbound
-- channel as long as another socket is open; when none is left it has no subscriptions and no
-- channel, however many closings are counted.
pub close_sockets-closed :
    (n : ℕ) (id : Uuid) (sessions : SyncSessionStore) (s : SyncSessionRecord)
    → 0 < n
    → HashMap.get id sessions ≡ some s
    → HashMap.get id (close_sockets n id sessions) ≡ some (closed n s)
unfolding close_sockets
close_sockets-closed zero id sessions s h e = absurd (omega arith)
close_sockets-closed (suc zero) id sessions s h e =
    disconnected id sessions s e ∙ ap some (disconnect-closed s)
close_sockets-closed (suc (suc n)) id sessions s h e =
    close_sockets-closed (suc n) id (mark_disconnected id sessions) (disconnect s) (omega arith)
      (disconnected id sessions s e)
    ∙ ap some (closed_more n s)
