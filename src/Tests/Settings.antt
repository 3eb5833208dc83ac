-- ===== src/Tests/Settings.antt =====
-- The settings of the server, from a file in which a member is of another type.
use niba.Prelude.{◌≡◌, refl, inl, inr, some, [], ◌∷◌}
use niba.Prelude.Int.{pos}
use niba.Prelude.Run.{done}
use niba.Wire.Members.{get_to}
use niba.Server.Config.{get_port, to_port, read_config}
use niba.Server.Config.Settled.{Throws, settled_config, read_config-settled}
use niba.Tests.Json.{Tree, text_leaf, number_leaf, trees}

abbrev file : Tree
file = trees.object (
    ("port", number_leaf (pos 8080))
    ∷ ("threads", text_leaf "many")
    ∷ ("host", text_leaf "localhost")
    ∷ ("player_conn_str", text_leaf "dbname=other")
    ∷ [])

texts-Throws :
    Throws trees trees.get_text file "player_conn_str" × Throws trees trees.get_text file "host"
unfolding get_to
texts-Throws = (inl ("dbname=other", refl), inl ("localhost", refl))

port-Throws : Throws trees (get_port trees) file "port"
unfolding get_to to_port
port-Throws = inl (8080, refl)

threads-Throws : Throws trees trees.get_number file "threads"
unfolding get_to
threads-Throws = inr refl

static_conn_str-Throws : Throws trees trees.get_text file "static_conn_str"
unfolding get_to
static_conn_str-Throws = inr refl

-- The host and the port are those of the file.
read_config-settled_example :
    read_config trees (some (done file)) ≡ done (settled_config trees file)
read_config-settled_example =
    read_config-settled trees file texts-Throws.1 port-Throws threads-Throws static_conn_str-Throws
      texts-Throws.0
