-- ===== src/Client/Runs.antt =====
-- Runs of a client of client.go: any calls of the application, messages of the server and closed
-- connections, one after the other, messages also during the calls.
use bfcp.Base.{ℕ, Bool, List, [], ◌∷◌, nat_eq}
use bfcp.Message.{Message}
use bfcp.Client.{Client, handle_message, connection_closed}
use bfcp.Client.Calls.{
  Script, connect, hello, request_floor, release_floor, query_floor, goodbye, disconnect,
}

-- What the application calls, and what happens to the connection.
pub data Call : Type 0 where
  says_hello : Script → Call
  requests : Script → (now floor beneficiary priority : ℕ) → Call
  releases queries : Script → (floor : ℕ) → Call
  says_goodbye disconnects : (sends : Bool) → Call

pub data Move : Type 0 where
  calls : Call → Move
  connects : (dials : Bool) → Move
  receives : (now : ℕ) → Message → Move
  loses_connection : Move

unfoldable pub perform : Call → Client → Client
unfolding hello request_floor release_floor query_floor goodbye disconnect
perform (says_hello script) c = (hello script c).0
perform (requests script now fid b p) c = (request_floor script now fid b p c).0
perform (releases script fid) c = (release_floor script fid c).0
perform (queries script fid) c = (query_floor script fid c).0
perform (says_goodbye sends) c = (goodbye sends c).0
perform (disconnects sends) c = disconnect sends c

unfoldable pub move : Move → Client → Client
unfolding perform connect handle_message connection_closed
move (calls call) c = perform call c
move (connects dials) c = (connect dials c).0
move (receives now m) c = handle_message now m c
move loses_connection c = connection_closed c

unfoldable pub move_all : List Move → Client → Client
unfolding move
move_all [] c = c
move_all (x ∷ xs) c = move_all xs (move x c)
