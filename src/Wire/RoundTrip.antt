-- ===== src/Wire/RoundTrip.antt =====
-- What of a message comes back from the wire, raft/proto.rs.
use oxide_kv.Common.{some, ◌≡◌, refl, ap, List, [], ◌∷◌, map}
use oxide_kv.Protocol.{Command, Configuration, simple, joint, TxOp, commit, abort, LogEntry}
use oxide_kv.Wire.{RaftMessage}
use oxide_kv.Wire.Encode.{
  encode_server, encode_configuration, encode_op, encode_body, encode_entry, encode_domain,
}
use oxide_kv.Wire.Decode.{
  decode_server, decode_configuration, decode_op, decode_body, decode_entry, decode_domain,
}

-- The commands that a leader replaces before it replicates arrive as `compact`.
unfoldable pub received : Command → Command
received (Command.add_node _) = Command.compact
received (Command.remove_node _) = Command.compact
received (Command.abort_tx _) = Command.compact
received c = c

abbrev pub received_entry : LogEntry → LogEntry
received_entry e = record e { command = received e.command }

unfoldable pub received_message : RaftMessage → RaftMessage
received_message (RaftMessage.append_entries a) =
    RaftMessage.append_entries (record a { entries = map received_entry a.entries })
received_message m = m

map_inverse {ℓ κ} :
    {A : Type ℓ} {B : Type κ} (f : A → B) (g : B → A)
    → ((a : A) → g (f a) ≡ a)
    → (xs : List A) → map g (map f xs) ≡ xs
map_inverse f g h [] = refl
map_inverse f g h (x ∷ xs) = cc (h x, map_inverse f g h xs)

decode_op-encode_op : (o : TxOp) → decode_op (encode_op o) ≡ o
decode_op-encode_op (TxOp.put k v) = refl
decode_op-encode_op (TxOp.delete k) = refl

decode_configuration-encode_configuration :
    (c : Configuration) → decode_configuration (encode_configuration c) ≡ c
decode_configuration-encode_configuration (simple servers) =
    ap simple (map_inverse encode_server decode_server (λ s. refl) servers)
decode_configuration-encode_configuration (joint old new) = cc (
  map_inverse encode_server decode_server (λ s. refl) old,
  map_inverse encode_server decode_server (λ s. refl) new,
)

decode_body-encode_body : (c : Command) → decode_body (some (encode_body c)) ≡ received c
unfolding received
decode_body-encode_body (Command.begin_tx t ops) =
    ap (Command.begin_tx t) (map_inverse encode_op decode_op decode_op-encode_op ops)
decode_body-encode_body (Command.decide_tx t commit) = refl
decode_body-encode_body (Command.decide_tx t abort) = refl
decode_body-encode_body (Command.install_configuration c) =
    ap Command.install_configuration (decode_configuration-encode_configuration c)
decode_body-encode_body _ = refl

decode_entries :
    (es : List LogEntry) → map decode_entry (map encode_entry es) ≡ map received_entry es
decode_entries [] = refl
decode_entries (e ∷ es) = cc (decode_body-encode_body e.command, decode_entries es)

-- A message that is encoded and decoded again comes back as it was, but that the commands of the
-- entries of an AppendEntries request which add or remove a server or force an abort become
-- `compact`.
pub decode_domain-encode_domain :
    (m : RaftMessage) → decode_domain (encode_domain m) ≡ received_message m
unfolding decode_domain encode_domain received_message
decode_domain-encode_domain (RaftMessage.append_entries a) =
    ap (λ es. RaftMessage.append_entries (record a { entries = es })) (decode_entries a.entries)
decode_domain-encode_domain _ = refl
