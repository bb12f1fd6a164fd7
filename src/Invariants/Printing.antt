-- ===== src/Invariants/Printing.antt =====
-- The texts of raft/invariants.rs: `fmt_command`, and the formats of numbers and decisions in it.
pub mod Decimal
use Prim.Native.Char.{code}
use Prim.Native.String.{String}
use oxide_kv.Common.{ℕ, zero, suc, ◌+◌, ◌/◌, ◌%◌, [], ◌∷◌, ◌++◌, length, ltb, if◌then◌else◌}
use oxide_kv.Text.{Str}
use oxide_kv.Protocol.{Command, simple, joint, TxDecision, commit, abort}

-- The bytes of an ASCII text.
abbrev pub text : String → Str
text String.[] = []
text (String.◌∷◌ c s) = code c ∷ text s

-- A number in base ten. Each round of the fuel, the number itself, prints its last digit.
unfoldable pub digits : ℕ → ℕ → Str → Str
digits zero n after = (48 + n % 10) ∷ after
digits (suc fuel) n after =
    let more = digits fuel (n / 10) ((48 + n % 10) ∷ after) in
    if ltb n 10 then (48 + n) ∷ after else more

unfoldable pub decimal : ℕ → Str
unfolding digits
decimal n = digits n n []

abbrev pub fmt_decision : TxDecision → Str
fmt_decision commit = text "Commit"
fmt_decision abort = text "Abort"

unfoldable pub fmt_command : Command → Str
unfolding decimal
fmt_command (Command.set key value) = text "Set(" ++ key ++ text "," ++ value ++ text ")"
fmt_command (Command.get key) = text "Get(" ++ key ++ text ")"
fmt_command (Command.delete key) = text "Delete(" ++ key ++ text ")"
fmt_command Command.compact = text "Compact"
fmt_command (Command.begin_tx tx_id ops) =
    text "BeginTx(" ++ tx_id ++ text ", " ++ decimal (length ops) ++ text " ops)"
fmt_command (Command.decide_tx tx_id decision) =
    text "DecideTx(" ++ tx_id ++ text "," ++ fmt_decision decision ++ text ")"
fmt_command (Command.add_node server) =
    text "AddNode(" ++ server.node_id ++ text "," ++ server.addr ++ text ")"
fmt_command (Command.remove_node node_id) = text "RemoveNode(" ++ node_id ++ text ")"
fmt_command (Command.install_configuration (simple s)) =
    text "InstallConfiguration(Simple," ++ decimal (length s) ++ text " servers)"
fmt_command (Command.install_configuration (joint old new)) =
    text "InstallConfiguration(Joint, old:"
    ++ decimal (length old)
    ++ text " new:"
    ++ decimal (length new)
    ++ text ")"
fmt_command (Command.abort_tx tx_id) = text "AbortTx(" ++ tx_id ++ text ")"
