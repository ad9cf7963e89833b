-- ===== src/Endpoint/Tests.antt =====
-- Runs on concrete inputs.
use code_snippet.Common.{List, [], ◌∷◌, true, false, none, some, arith}
use code_snippet.Endpoint.{ServerCalls, ClientCalls, new_server}
use code_snippet.Endpoint.Descriptors.{
  Action, starting, stopping, act_all, Accounted, act_all-Accounted,
}

-- The port is taken at the first address.
abbrev taken : ServerCalls
taken = record {
  created = some 5;
  reuse = true;
  no_delay = true;
  keep_alive = true;
  bound = false;
  listening = true;
}

abbrev ready : ServerCalls
ready = record {
  created = some 6;
  reuse = true;
  no_delay = true;
  keep_alive = true;
  bound = true;
  listening = true;
}

abbrev twice : List Action
twice =
    starting (some (taken ∷ ready ∷ []))
    ∷ starting none
    ∷ stopping
    ∷ starting (some (taken ∷ []))
    ∷ []

act_all-Accounted_example :
    Accounted (act_all twice (record { socket = new_server 80; created = []; closed = [] }))
act_all-Accounted_example =
    act_all-Accounted 80 twice ((omega arith, (omega arith, tt)), ((omega arith, tt), tt))

abbrev unreachable : ClientCalls
unreachable = record { created = some 7; no_delay = true; keep_alive = true; connected = false }
