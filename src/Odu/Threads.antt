-- ===== src/Odu/Threads.antt =====
-- `accept_tls_connections` and the handlers it submits, as steps in any order. The executor runs at
-- most five handlers at a time; here any that is submitted may run, which allows all that it does.
use sim_o1_ofhmp_interfaces.Prelude.{ℕ, ◌+◌, String, some, [], ◌≡◌}
use sim_o1_ofhmp_interfaces.Prelude.Result.{Result}
use sim_o1_ofhmp_interfaces.Prelude.Table.{Table, find, put}
use sim_o1_ofhmp_interfaces.Config.Reload.{Config}
use sim_o1_ofhmp_interfaces.Ves.{Session}
use sim_o1_ofhmp_interfaces.Odu.{State}
use sim_o1_ofhmp_interfaces.Odu.Handler.{
  Answered, Phase, submitted, registered, looping, leaving, Turn, register, prepare, turn, leave,
}

-- What the calls of a handler's next stretch answer.
pub data Input : Type 0 where
  connected : Result Answered → Input
  prepared : (subscribed given : Result (Unit {0})) → Input
  turned : Config → Turn → Input
  left : (deleted : Result (Unit {0})) → Input

-- The next stretch of the handler of the session `k`.
unfoldable pub proceed : ℕ → Phase → Input → State → Phase × State
unfolding register prepare turn leave
proceed k (submitted address) (connected answer) s = register k address answer s
proceed k (registered a) (prepared subscribed given) s = prepare k a subscribed given s
proceed k (looping a) (turned c t) s = turn c k a t s
proceed k (leaving a) (left deleted) s = leave k deleted s
proceed k phase input s = (phase, s)

-- The handlers by the numbers of their sessions, and the number of the next session.
pub record System : Type 0 where
  pub state : State
  pub handlers : Table Phase
  pub session_id : ℕ

-- One round of the loop of `accept_tls_connections`.
unfoldable pub accept : String → System → System
unfolding put
accept address s = record s {
  handlers = put s.session_id (submitted address) s.handlers;
  session_id = s.session_id + 1;
}

unfoldable pub run : ℕ → Phase → Input → System → System
unfolding put proceed
run k phase input s =
    let r : Phase × State = proceed k phase input s.state in
    record s { state = r.1; handlers = put k r.0 s.handlers }

pub data Happens (s t : System) : Type 0 where
  accepted : (address : String) → t ≡ accept address s → Happens s t
  ran :
      (k : ℕ) (phase : Phase) (input : Input)
      → find k s.handlers ≡ some phase
      → t ≡ run k phase input s
      → Happens s t

pub data Reaches (s : System) : System → Type 0 where
  here : Reaches s s
  later : {t u : System} → Reaches s t → Happens t u → Reaches s u

-- The extension when it starts to listen.
unfoldable pub initial : Session → System
initial ves = record {
  state = record { active = []; instances = []; ves = ves };
  handlers = [];
  session_id = 1;
}
