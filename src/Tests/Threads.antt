-- ===== src/Tests/Threads.antt =====
-- The theorems on what threads do between two steps of another: the pool's, and the one that waits
-- for the assistant.
use aim_server.Common.{
  ℕ, ◌≡◌, ◌≢◌, refl, some, [], ◌∷◌, pos, eqb, text, done, get_elem?, bytes_eq, arith,
}
use aim_server.Env.{Rpc, failed}
use aim_server.Proto.{MessageContainer}
use aim_server.Database.Pool.{
  Pool, fresh_pool, Run, here, more, calls, acquires, waiting, holding, acquire, connections,
}
use aim_server.Database.Pool.LastId.{statement_pair}
use aim_server.Session.State.{ClientSession, World, reply, put, session_at, update_session}
use aim_server.Session.Chat.{agent_userid}
use aim_server.Session.Dispatch.{receive, dispatch, on_message_received, on_heartbeat}
use aim_server.Session.Assistant.{ProcessMessageReq, ProcessMessageRsp}
use aim_server.Session.Assistant.Replies.{asked_world}
use aim_server.Fixtures.{live, codec, world, bobs, bob, command}

-- Of two connections the first thread has one; the second thread is about to take the other.
abbrev shared : Pool
shared = record { idle = 0 ∷ []; callers = holding 1 ∷ waiting ∷ [] }

shared-Run : Run (fresh_pool 2 2) 3 shared
unfolding connections acquire
shared-Run = more (more (more here (calls 0 refl)) (acquires 0 1 (0 ∷ []) refl refl)) (calls 1 refl)

statement_pair_example :
    ((q : Pool) × Run shared 3 q × (get_elem? q.callers 0 ≡ some (holding 1)))
    × ((q : Pool) × Run shared 4 q
        × (get_elem? q.callers 1 ≡ some (holding 1))
        × (get_elem? q.callers 0 ≡ some (holding 0))
        × ◌≢◌ {A = ℕ} 0 1)
statement_pair_example =
    statement_pair 2 2 shared-Run 0 1 1 0 [] (λ e. absurd (omega arith)) refl refl refl

-- Bob asks the assistant.
abbrev to_assistant : MessageContainer
to_assistant = record (command (pos 1100)) { target_id = agent_userid }

bob_there : session_at (text "b") world.sessions ≡ some bobs
unfolding session_at bytes_eq text
bob_there = refl

-- The service cannot be reached.
abbrev no_service : ProcessMessageReq → Rpc ProcessMessageRsp
no_service req = failed (text "deadline")

-- The world in which bob has asked, and one in which a heartbeat with number 9 came after it.
abbrev asked : World live
asked = asked_world live codec bobs bob to_assistant world

abbrev beating : ClientSession
beating = record bobs { target = agent_userid; seq = pos 9 }

abbrev beaten : World live
beaten = reply beating (pos 1000) [] (put beating asked)

heartbeat_received :
    receive live codec (text "b") (record (command (pos 1000)) { seq = pos 9 }) asked ≡ done beaten
unfolding receive on_message_received dispatch on_heartbeat session_at update_session bytes_eq text
    eqb
heartbeat_received = refl
